-- ===== src/Backend/KrunGuest/Start.antt =====
-- Starting a krun guest: at most one launch, and the recorded argv only for an absent container.
use mathlib.Core.Path.{subst}
use plugin_vm.Base.{
  ◌≡◌, Bool, true, false, Option, none, some, String, Outcome, ok, ◌⊎◌, inl, inr, Bool-cases,
}
use plugin_vm.Backend.KrunGuest.{
  KrunState, KrunGuestError, KrunSeams, launch_record, launched, start_recorded, krun_start,
}

module _ {W : Type 0} (k : KrunSeams W) where
  launched_inv :
      (name : String) (p : W × Option String) (w' : W) (b : Bool)
      → launched k name p ≡ (w', ok b)
      → (b ≡ false) × (p ≡ (w', none))
  unfolding launched
  launched_inv name (w, none) w' b h = (cc, cc)
  launched_inv name (w, some e) w' b h = absurd (cc)

  -- A start that succeeds, from a record that can be read: a guest that runs is left as it is, a
  -- container that exists is started, and only for an absent one is the recorded launch run again.
  pub krun_start-launches_once :
      (name : String) (w w' : W) (r : KrunState) (already : Bool)
      → launch_record k w name ≡ ok r
      → krun_start k name w ≡ (w', ok already)
      → ((already ≡ true) × (k.container_running w name ≡ true) × (w ≡ w'))
        ⊎ ((already ≡ false)
            × (k.container_running w name ≡ false)
            × (k.container_exists w name ≡ true)
            × (k.container_start name w ≡ (w', none)))
        ⊎ ((already ≡ false)
            × (k.container_running w name ≡ false)
            × (k.container_exists w name ≡ false)
            × (k.run_argv r.argv w ≡ (w', none)))
  unfolding krun_start
  krun_start-launches_once name w w' r already recorded h =
      let from_record : start_recorded k name w (ok r) ≡ (w', ok already) =
        subst (λ o. start_recorded k name w o ≡ (w', ok already)) recorded h in
      elim (Bool-cases (k.container_running w name)) [
        | inl up ↦ inl (left_alone (rw up at from_record), up, same_state (rw up at from_record))
        | inr down ↦ elim (Bool-cases (k.container_exists w name)) [
          | inl there ↦
              let (fresh, started) =
                launched_inv name _ w' already (rw (down, there) at from_record) in
              inr (inl (fresh, down, there, started))
          | inr gone ↦
              let (fresh, started) =
                launched_inv name _ w' already (rw (down, gone) at from_record) in
              inr (inr (fresh, down, gone, started))
        ]
      ]
    where
      left_alone :
          Path (W × Outcome KrunGuestError Bool) (w, ok true) (w', ok already) → already ≡ true
      left_alone e = cc

      same_state : Path (W × Outcome KrunGuestError Bool) (w, ok true) (w', ok already) → w ≡ w'
      same_state e = cc
