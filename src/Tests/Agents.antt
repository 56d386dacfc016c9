-- ===== src/Tests/Agents.antt =====
-- A guest agent that serves the file byte by byte; the state is what is left of it.
use plugin_vm.Base.{
  ◌≡◌, refl, ℕ, true, false, none, some, List, [], ◌∷◌, String, str_eq, if◌then◌else◌, Outcome, ok,
  err, arith,
}
use plugin_vm.Base.Text.{Text, codes}
use plugin_vm.Agent.{
  FileChunk, AgentSeams, call, read_chunk, decoded, file_read, closed, read_opened, read_all,
  after_chunk,
}
use plugin_vm.Agent.Files.{at_end, some_bytes, IsServing, file_read-whole}

data Json : Type 0 where
  number : ℕ → Json
  chunk : FileChunk → Json

abbrev as_handle : Json → Outcome String ℕ
as_handle (number n) = ok n
as_handle (chunk c) = err "no number"

abbrev as_chunk : Json → Outcome String FileChunk
as_chunk (number n) = err "no chunk"
as_chunk (chunk c) = ok c

abbrev last_chunk : FileChunk
last_chunk = record { count = 0; buf_b64 = []; eof = true }

abbrev byte : ℕ → FileChunk
byte x = record { count = 1; buf_b64 = x ∷ []; eof = false }

abbrev next_byte : Text → Text × Outcome String (List Json)
next_byte [] = ([], ok (chunk last_chunk ∷ []))
next_byte (x ∷ s) = (s, ok (chunk (byte x) ∷ []))

abbrev answer : String → Text → Text × Outcome String (List Json)
answer cmd w = if str_eq cmd "guest-file-read" then next_byte w else (w, ok (number 7 ∷ []))

abbrev seams : AgentSeams Text Json Json
seams = record {
  agent_command = λ cmd args w. answer cmd w;
  envelope = λ r. ok record { error = none; returned = some r };
  open_args = λ path mode. number 0;
  handle_args = λ handle. number handle;
  read_args = λ handle count. number handle;
  write_args = λ handle bytes. number handle;
  as_handle = as_handle;
  as_chunk = as_chunk;
  as_written = as_handle;
  base64_encode = λ bytes. bytes;
  base64_decode = λ s. ok s;
}

serving : IsServing seams (λ w. w) 7
unfolding read_chunk call decoded
serving [] = ([], last_chunk, refl, at_end last_chunk refl refl)
serving (x ∷ s) = (s, byte x, refl, some_bytes (byte x) x [] s refl refl (λ e. absurd (cc)))

file_read-whole_example :
    (w₂ : Text) × (file_read seams 4 "/etc/hostname" (codes "vm1") ≡ (w₂, ok (codes "vm1")))
file_read-whole_example =
    file_read-whole seams (λ w. w) 7 4 "/etc/hostname" (codes "vm1") (codes "vm1")
      (unfold call in refl) serving (omega arith)

emptied : file_read seams 4 "/etc/hostname" (codes "vm1") ≡ ([], ok (codes "vm1"))
unfolding file_read read_opened closed read_all after_chunk read_chunk call decoded
emptied = refl
