-- ===== src/Backend/Resolve.antt =====
-- Which backend a `backend:` setting selects.
use mathlib.Core.Path.{subst}
use plugin_vm.Base.{
  ◌≡◌, refl, sym, ◌∙◌, ap, ◌⊎◌, inl, inr, Bool, true, false, ◌||◌, Option, none, some, List, [],
  ◌∷◌, ◌++◌, String, str_eq, All, Outcome, ok,
}
use plugin_vm.Backend.{
  BackendError, Provider, lookup, auto_test, auto_choice, auto_from, resolve_vm_backend_provider,
}

module _ {W : Type 0} (registry : List (String × Provider W)) where
  -- The provider behind a word may be taken by `auto`, and its prerequisites are there.
  abbrev pub IsAuto : W → String → Provider W → Type 0
  IsAuto w word p =
      (lookup word registry ≡ some p) × (p.auto_detectable ≡ true) × (p.available w ≡ none)

  abbrev pub IsNotAuto : W → String → Type 0
  IsNotAuto w word = (p : Provider W) → ¬ IsAuto w word p

  test_case :
      (p : Provider W) (auto : Bool) (lacks : Option BackendError)
      (skipped passed : Outcome BackendError (Provider W))
      → (((auto ≡ false) ⊎ ((e : BackendError) × (lacks ≡ some e)))
          × ((auto_test auto lacks p skipped passed ≡ skipped)
              ⊎ (auto_test auto lacks p skipped passed ≡ passed)))
        ⊎ ((auto ≡ true) × (lacks ≡ none) × (auto_test auto lacks p skipped passed ≡ ok p))
  unfolding auto_test
  test_case p false lacks skipped passed = inl (inl refl, inl refl)
  test_case p true none skipped passed = inr (refl, refl, refl)
  test_case p true (some e) skipped passed = inl (inr (e, refl), inr refl)

  not_auto :
      (w : W) (word : String) (p : Provider W)
      → lookup word registry ≡ some p
      → (p.auto_detectable ≡ false) ⊎ ((e : BackendError) × (p.available w ≡ some e))
      → IsNotAuto w word
  not_auto w word p found why q e =
      let same : p ≡ q = cc (found, e.0) in
      let auto : p.auto_detectable ≡ true = ap (λ r. r.auto_detectable) same ∙ e.1 in
      let ready : p.available w ≡ none = ap (λ r. r.available w) same ∙ e.2 in clash why auto ready
    where
      clash :
          {b : Bool} {o : Option BackendError}
          → (b ≡ false) ⊎ ((e : BackendError) × (o ≡ some e))
          → b ≡ true
          → o ≡ none
          → ⊥
      clash (inl x) y z = cc
      clash (inr (e, x)) y z = cc

  choice_case :
      (w : W) (word : String) (o : Option (Provider W))
      → lookup word registry ≡ o
      → (skipped passed : Outcome BackendError (Provider W))
      → (IsNotAuto w word
          × ((auto_choice w o skipped passed ≡ skipped)
              ⊎ (auto_choice w o skipped passed ≡ passed)))
        ⊎ ((p : Provider W) × IsAuto w word p × (auto_choice w o skipped passed ≡ ok p))
  unfolding auto_choice
  choice_case w word none found skipped passed = inl ((λ p e. cc (e.0)), inl refl)
  choice_case w word (some p) found skipped passed =
      elim (test_case p p.auto_detectable (p.available w) skipped passed) [
        | inl (why, which) ↦ inl (not_auto w word p found why, which)
        | inr (auto, ready, taken) ↦ inr (p, (found, auto, ready), taken)
      ]

  -- The provider is that of the first word, in the given order, that `auto` may take and whose
  -- prerequisites are there.
  abbrev pub IsFirstAuto : List String → W → Provider W → Type 0
  IsFirstAuto order w p =
      (before : List String) × (word : String) × (after : List String) × (order
        ≡ before ++ word ∷ after)
      × All (IsNotAuto w) before
      × IsAuto w word p

  auto_from-IsFirstAuto :
      (w : W) (probed order : List String) (p : Provider W)
      → auto_from registry w probed order ≡ ok p
      → IsFirstAuto order w p
  unfolding auto_from
  auto_from-IsFirstAuto w probed [] p h = cc
  auto_from-IsFirstAuto w probed (word ∷ words) p h =
      elim (choice_case w word (lookup word registry) refl (auto_from registry w probed words)
        (auto_from registry w (probed ++ word ∷ []) words)) [
          | inl (skip, inl e) ↦ later skip (auto_from-IsFirstAuto w probed words p (sym e ∙ h))
          | inl (skip, inr e) ↦
              later skip (auto_from-IsFirstAuto w (probed ++ word ∷ []) words p (sym e ∙ h))
          | inr (q, taken, e) ↦
              ([], word, words, refl, tt, subst (IsAuto w word) (ok_inj (sym e ∙ h)) taken)
        ]
    where
      later : IsNotAuto w word → IsFirstAuto words w p → IsFirstAuto (word ∷ words) w p
      later skip (before, word', after, split, passed, auto) =
          (word ∷ before, word', after, ap (λ l. word ∷ l) split, (skip, passed), auto)

      ok_inj : {q : Provider W} → Path (Outcome BackendError (Provider W)) (ok q) (ok p) → q ≡ p
      ok_inj e = cc

  -- With no backend set, or `auto`, the provider is the first of the order that may be chosen
  -- automatically and is available.
  pub resolve_vm_backend_provider-IsFirstAuto :
      (order : List String) (configured : String) (w : W) (p : Provider W)
      → (str_eq configured "" || str_eq configured "auto") ≡ true
      → resolve_vm_backend_provider registry order configured w ≡ ok p
      → IsFirstAuto order w p
  unfolding resolve_vm_backend_provider
  resolve_vm_backend_provider-IsFirstAuto order configured w p auto h =
      auto_from-IsFirstAuto w [] order p (rw auto at h)
