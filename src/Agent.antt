-- ===== src/Agent.antt =====
-- candy/plugin-vm/libvirt_guest_agent.go: the envelope of a call of the guest agent, and reading and
-- writing a file of the guest over it. The remote command, JSON and base64 are seams: `J` is a JSON
-- value, `R` a raw reply; `as_written` gives the count of a guest-file-write.
pub mod Files
use plugin_vm.Base.{
  ℕ, zero, suc, Bool, true, false, ◌&&◌, Option, none, some, List, [], ◌∷◌, ◌++◌, String, ◌==◌,
  is_nil, if◌then◌else◌, Outcome, ok, err,
}
use plugin_vm.Base.Steps.{Step}
use plugin_vm.Base.Text.{Text}

pub data AgentError : Type 0 where
  command_failed : String → String → AgentError
  empty_reply : AgentError
  reply_undecoded return_undecoded file_undecoded : String → AgentError
  agent_error : String → String → AgentError
  out_of_fuel : AgentError

-- The reply's error, as its class and description, and what it returns, if it does.
pub record Envelope (J : Type 0) : Type 0 where
  pub error : Option (String × String)
  pub returned : Option J

-- The reply of guest-file-read.
pub record FileChunk : Type 0 where
  pub count : ℕ
  pub buf_b64 : Text
  pub eof : Bool

pub record AgentSeams (W J R : Type 0) : Type 0 where
  pub agent_command : String → Option J → W → W × Outcome String (List R)
  pub envelope : R → Outcome String (Envelope J)
  pub open_args : String → String → J
  pub handle_args : ℕ → J
  pub read_args : ℕ → ℕ → J
  pub write_args : ℕ → Text → J
  pub as_handle : J → Outcome String ℕ
  pub as_chunk : J → Outcome String FileChunk
  pub as_written : J → Outcome String ℕ
  pub base64_encode : Text → Text
  pub base64_decode : Text → Outcome String Text

module _ {W J R : Type 0} (a : AgentSeams W J R) where
  abbrev pub AgentRun : Type 0 → Type 0
  AgentRun A = W × Outcome AgentError A

  returned_as : {A : Type 0} → (J → Outcome String A) → A → Option J → Outcome AgentError A
  returned_as decode zero_value none = ok zero_value
  returned_as decode zero_value (some j) = elim (decode j) [
    | ok value ↦ ok value
    | err e ↦ err (return_undecoded e)
  ]

  opened_envelope :
      {A : Type 0} → (J → Outcome String A) → A → Outcome String (Envelope J) → Outcome AgentError A
  unfolding returned_as
  opened_envelope decode zero_value (err e) = err (reply_undecoded e)
  opened_envelope decode zero_value (ok env) = elim env.error [
    | some (class, desc) ↦ err (agent_error class desc)
    | none ↦ returned_as decode zero_value env.returned
  ]

  replied :
      {A : Type 0} → String → (J → Outcome String A) → A → W × Outcome String (List R) → AgentRun A
  unfolding opened_envelope
  replied cmd decode zero_value (w, err e) = (w, err (command_failed cmd e))
  replied cmd decode zero_value (w, ok []) = (w, err empty_reply)
  replied cmd decode zero_value (w, ok (r ∷ _)) =
      (w, opened_envelope decode zero_value (a.envelope r))

  -- A call whose result is decoded; without a return the value keeps its zero.
  unfoldable pub call :
      {A : Type 0} → String → Option J → (J → Outcome String A) → A → Step W AgentError A
  unfolding replied
  call cmd args decode zero_value w = replied cmd decode zero_value (a.agent_command cmd args w)

  unfoldable pub read_chunk : ℕ → Step W AgentError FileChunk
  unfolding call
  read_chunk handle =
      call "guest-file-read" (some (a.read_args handle 49152)) a.as_chunk
        (record { count = 0; buf_b64 = []; eof = false })

  unfoldable pub decoded : Text → Outcome AgentError Text
  decoded [] = ok []
  decoded (c ∷ s) = elim (a.base64_decode (c ∷ s)) [
    | ok bytes ↦ ok bytes
    | err e ↦ err (file_undecoded e)
  ]

  abbrev pub appended :
      (Text → W → AgentRun Text) → Text → Bool → W → Outcome AgentError Text → AgentRun Text
  appended next all eof w (err e) = (w, err e)
  appended next all eof w (ok bytes) = if eof then (w, ok (all ++ bytes)) else next (all ++ bytes) w

  unfoldable pub after_chunk :
      (Text → W → AgentRun Text) → Text → AgentRun FileChunk → AgentRun Text
  unfolding decoded
  after_chunk next all (w, err e) = (w, err e)
  after_chunk next all (w, ok chunk) =
      if chunk.count == 0 && chunk.eof
      then (w, ok all)
      else appended next all chunk.eof w (decoded chunk.buf_b64)

  -- The loop, which the code leaves only at the end of the file or with an error.
  unfoldable pub read_all : ℕ → ℕ → Text → W → AgentRun Text
  unfolding after_chunk read_chunk
  read_all zero handle all w = (w, err out_of_fuel)
  read_all (suc fuel) handle all w =
      after_chunk (λ t v. read_all fuel handle t v) all (read_chunk handle w)

  -- The handle is closed whatever the loop gives, and the result of the close is not looked at.
  unfoldable pub closed : {A : Type 0} → ℕ → AgentRun A → AgentRun A
  closed handle (w, r) = ((a.agent_command "guest-file-close" (some (a.handle_args handle)) w).0, r)

  unfoldable pub read_opened : ℕ → AgentRun ℕ → AgentRun Text
  unfolding read_all closed
  read_opened fuel (w, err e) = (w, err e)
  read_opened fuel (w, ok handle) = closed handle (read_all fuel handle [] w)

  unfoldable pub file_read : ℕ → String → W → AgentRun Text
  unfolding read_opened call
  file_read fuel path w =
      read_opened fuel (call "guest-file-open" (some (a.open_args path "r")) a.as_handle 0 w)

  -- The count that the agent wrote is not compared with the length of the data.
  uncounted : AgentRun ℕ → AgentRun (Unit {0})
  uncounted (w, err e) = (w, err e)
  uncounted (w, ok count) = (w, ok tt)

  wrote_opened : Text → AgentRun ℕ → AgentRun (Unit {0})
  unfolding call closed uncounted
  wrote_opened bytes (w, err e) = (w, err e)
  wrote_opened bytes (w, ok handle) = closed handle (
      uncounted (
        call "guest-file-write" (some (a.write_args handle (a.base64_encode bytes))) a.as_written 0
          w))

  unfoldable pub file_write : String → Text → W → AgentRun (Unit {0})
  unfolding wrote_opened call
  file_write path bytes w =
      wrote_opened bytes (call "guest-file-open" (some (a.open_args path "w")) a.as_handle 0 w)
