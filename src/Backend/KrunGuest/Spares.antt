-- ===== src/Backend/KrunGuest/Spares.antt =====
-- krunBackend: what it leaves alone.
use plugin_vm.Base.{
  ◌≡◌, refl, Bool, false, Option, none, some, String, Outcome, ok, err, Bool-cases, inl, inr,
}
use plugin_vm.Backend.{BackendError}
use plugin_vm.Backend.Interface.{IsSparing}
use plugin_vm.Backend.KrunGuest.{
  KrunSeams, KrunGuestError, held_in, krun_holder, destroy_in, destroy_found, krun_destroy, as_torn,
  krun_provider,
}

held_not_free : (x : Bool × String) → some x ≡ none → ⊥
held_not_free x h = cc

module _ {W : Type 0} (k : KrunSeams W) (message : KrunGuestError → String) where
  abbrev Untouched : W → W × (Bool × Option BackendError) → Type 0
  Untouched w t = (t.0 ≡ w) × (t.1.0 ≡ false)

  found-Untouched :
      (name : String) (delete_disk : Bool) (w : W) (r : Outcome String String)
      → held_in k w name r ≡ none
      → Untouched w (as_torn k message (destroy_found k name delete_disk w r))
  unfolding held_in destroy_found destroy_in as_torn
  found-Untouched name delete_disk w (err e) free = (refl, refl)
  found-Untouched name delete_disk w (ok dir) free = elim (Bool-cases (k.has_record w dir)) [
    | inl e ↦ absurd (held_not_free _ (rw e at free))
    | inr e ↦ rw e (refl, refl)
  ]

  -- The krun provider keeps the promise of the interface.
  pub krun_provider-IsSparing :
      (preflight_error : W → Option String) → IsSparing (krun_provider k message preflight_error)
  unfolding krun_provider krun_destroy krun_holder
  krun_provider-IsSparing preflight_error name delete_disk w free =
      found-Untouched name delete_disk w (k.state_dir_for w name) free
