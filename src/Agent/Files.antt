-- ===== src/Agent/Files.antt =====
-- FileRead: what it gives for an agent that serves a file in chunks, and when it ends.
use plugin_vm.Base.{
  ℕ, zero, suc, ◌<◌, ◌≡◌, refl, sym, ap, ◌∙◌, true, false, [], ◌∷◌, ◌++◌, String, some, ◌==◌,
  length, length-append, append-nil, append_assoc, arith, ok, Bool-cases, inl, inr,
}
use plugin_vm.Base.Text.{Text}
use plugin_vm.Agent.{
  FileChunk, AgentSeams, call, read_chunk, decoded, after_chunk, read_all, closed, read_opened,
  file_read,
}

module _ {W J R : Type 0} (a : AgentSeams W J R) where
  -- A reply with what is left of the file before and after it: the end, or bytes, with the mark of
  -- the end on the last ones at most.
  pub data IsChunk : Text → FileChunk → Text → Type 0 where
    at_end : (c : FileChunk) → (c.count == 0) ≡ true → c.eof ≡ true → IsChunk [] c []
    some_bytes :
        (c : FileChunk) (x : ℕ) (bytes rest : Text)
        → (c.count == 0) ≡ false
        → decoded a c.buf_b64 ≡ ok (x ∷ bytes)
        → (c.eof ≡ true → rest ≡ [])
        → IsChunk (x ∷ (bytes ++ rest)) c rest

  -- An agent that serves the file of a handle; `left` is what is still to be read.
  abbrev pub IsServing : (W → Text) → ℕ → Type 0
  IsServing left handle =
      (w : W)
      → (w' : W) × (c : FileChunk) × (read_chunk a handle w ≡ (w', ok c))
        × IsChunk (left w) c (left w')

  -- The loop ends with all that was left, where its fuel is above the length of that.
  ReadsAll : (W → Text) → ℕ → ℕ → Type 0
  ReadsAll left handle fuel =
      (all : Text) (w : W)
      → length (left w) < fuel
      → (w' : W) × (read_all a fuel handle all w ≡ (w', ok (all ++ left w)))

  ReadsAll-chunk :
      (left : W → Text) (handle fuel : ℕ) (all before after : Text) (w w' : W) (c : FileChunk)
      → ReadsAll left handle fuel
      → read_chunk a handle w ≡ (w', ok c)
      → left w' ≡ after
      → IsChunk before c after
      → length before < suc fuel
      → (v : W) × (read_all a (suc fuel) handle all w ≡ (v, ok (all ++ before)))
  unfolding read_all after_chunk ReadsAll
  ReadsAll-chunk left handle fuel all [] [] w w' c next read same (at_end _ n e) h =
      (w', rw (read, n, e) (ap (λ t. (w', ok t)) (sym (append-nil all))))
  ReadsAll-chunk left handle fuel all _ _ w w' c next read same (some_bytes _ x bytes rest n d e)
        h =
      elim (Bool-cases c.eof) [
        | inl last ↦
            let none_left = e last in
            (
              w',
              rw (read, n, d, last, none_left)
                  (ap (λ t. (w', ok (all ++ x ∷ t))) (sym (append-nil bytes))),
            )
        | inr more ↦
            let (v, tail) =
              next (all ++ x ∷ bytes) w' (rw same (omega (arith, length-append bytes rest))) in
            (
              v,
              rw (read, n, d, more)
                  (tail
                    ∙ ap (λ t. (v, ok ((all ++ x ∷ bytes) ++ t))) same
                    ∙ ap (λ t. (v, ok t)) (append_assoc all (x ∷ bytes) rest)),
            )
      ]

  read_all-ReadsAll :
      (left : W → Text) (handle : ℕ)
      → IsServing left handle
      → (fuel : ℕ) → ReadsAll left handle fuel
  unfolding ReadsAll
  read_all-ReadsAll left handle serves zero all w h = absurd (omega arith)
  read_all-ReadsAll left handle serves (suc fuel) all w h =
      let (w', c, read, chunk) = serves w in
      ReadsAll-chunk left handle fuel all (left w) (left w') w w' c
        (read_all-ReadsAll left handle serves fuel) read refl chunk h

  -- Reading a file of the guest ends and gives the whole file, where the file opens and the agent
  -- serves it in chunks that are not empty before its end; the handle is closed then. Fuel above the
  -- length of the file is enough.
  pub file_read-whole :
      (left : W → Text) (handle fuel : ℕ) (path : String) (w w₁ : W)
      → call a "guest-file-open" (some (a.open_args path "r")) a.as_handle 0 w ≡ (w₁, ok handle)
      → IsServing left handle
      → length (left w₁) < fuel
      → (w₂ : W) × (file_read a fuel path w
          ≡ ((a.agent_command "guest-file-close" (some (a.handle_args handle)) w₂).0, ok (left w₁)))
  unfolding file_read read_opened closed ReadsAll
  file_read-whole left handle fuel path w w₁ opened serves h =
      let (w₂, read) = read_all-ReadsAll left handle serves fuel [] w₁ h in
      (w₂, rw (opened, read) refl)
