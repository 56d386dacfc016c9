-- ===== src/Backend/KrunGuest/Stop.antt =====
-- Stopping a krun guest: by its own init or not at all.
use plugin_vm.Base.{
  ◌≡◌, refl, Bool, true, false, not, Option, none, some, String, arith, Outcome, ok, err,
  Bool-cases, inl, inr,
}
use plugin_vm.Backend.KrunGuest.{
  KrunState, KrunGuestError, KrunSeams, KrunRun, poweroff_failed, still_running, launch_record,
  polled, await_stop, stop_recorded, krun_stop,
}

module _ {W : Type 0} (k : KrunSeams W) where
  -- The ways in which a stop may end. The host's state changes only by the guest's own poweroff over
  -- SSH and by waiting for it.
  pub data StopEnds (name : String) (w : W) : KrunRun k (Unit {0}) → Type 0 where
    no_record : {e : KrunGuestError} → launch_record k w name ≡ err e → StopEnds name w (w, err e)
    not_running : k.container_running w name ≡ false → StopEnds name w (w, ok tt)
    refused :
        {r : KrunState} {w₁ : W} {e : String}
        → launch_record k w name ≡ ok r
        → k.poweroff_over_ssh r.ssh_alias w ≡ (w₁, some e)
        → StopEnds name w (w₁, err (poweroff_failed name e))
    timed_out :
        {r : KrunState} {w₁ w₂ : W}
        → launch_record k w name ≡ ok r
        → k.poweroff_over_ssh r.ssh_alias w ≡ (w₁, none)
        → k.poll_until (λ v. not (k.container_running v name)) w₁ ≡ (w₂, false)
        → StopEnds name w (w₂, err (still_running name))
    powered_off :
        {r : KrunState} {w₁ w₂ : W}
        → launch_record k w name ≡ ok r
        → k.poweroff_over_ssh r.ssh_alias w ≡ (w₁, none)
        → k.poll_until (λ v. not (k.container_running v name)) w₁ ≡ (w₂, true)
        → StopEnds name w (w₂, ok tt)

  ends_polled :
      (name : String) (w w₁ : W) (r : KrunState)
      → launch_record k w name ≡ ok r
      → k.poweroff_over_ssh r.ssh_alias w ≡ (w₁, none)
      → (p : W × Bool) → k.poll_until (λ v. not (k.container_running v name)) w₁ ≡ p
      → StopEnds name w (polled k name p)
  unfolding polled
  ends_polled name w w₁ r rec off (w₂, true) e = powered_off rec off e
  ends_polled name w w₁ r rec off (w₂, false) e = timed_out rec off e

  ends_await :
      (name : String) (w : W) (r : KrunState)
      → launch_record k w name ≡ ok r
      → (p : W × Option String) → k.poweroff_over_ssh r.ssh_alias w ≡ p
      → StopEnds name w (await_stop k name p)
  unfolding await_stop
  ends_await name w r rec (w₁, some e) off = refused rec off
  ends_await name w r rec (w₁, none) off = ends_polled name w w₁ r rec off _ refl

  ends_recorded :
      (name : String) (w : W) (r : Outcome KrunGuestError KrunState)
      → launch_record k w name ≡ r
      → StopEnds name w (stop_recorded k name w r)
  unfolding stop_recorded
  ends_recorded name w (err e) rec = no_record rec
  ends_recorded name w (ok r) rec = elim (Bool-cases (k.container_running w name)) [
    | inl up ↦ rw up (ends_await name w r rec (k.poweroff_over_ssh r.ssh_alias w) refl)
    | inr down ↦ rw down (not_running down)
  ]

  -- Every stop, forced or not, ends in one of the ways of `StopEnds`: there is no record, the guest
  -- does not run, its poweroff over SSH is refused, it still runs at the deadline, or it powered off.
  pub krun_stop-StopEnds :
      (name : String) (force : Bool) (w : W) → StopEnds name w (krun_stop k name force w)
  unfolding krun_stop
  krun_stop-StopEnds name force w = ends_recorded name w (launch_record k w name) refl

  -- A stop that succeeds leaves the container not running, if a poll that passes ends in a state
  -- in which its test holds.
  pub krun_stop-not_running :
      (poll_passes : (test : W → Bool) (v v' : W)
        → k.poll_until test v ≡ (v', true)
        → test v' ≡ true)
      (name : String) (force : Bool) (w w' : W)
      → krun_stop k name force w ≡ (w', ok tt)
      → k.container_running w' name ≡ false
  krun_stop-not_running poll_passes name force w w' h =
      ended (krun_stop k name force w) (krun_stop-StopEnds name force w) h
    where
      off : (b : Bool) → not b ≡ true → b ≡ false
      off b e = ground arith

      ended :
          (r : KrunRun k (Unit {0}))
          → StopEnds name w r
          → r ≡ (w', ok tt)
          → k.container_running w' name ≡ false
      ended _ (no_record e) same = absurd (cc)
      ended _ (not_running down) same = let e : w ≡ w' = cc in rw (← e) down
      ended _ (refused _ _) same = absurd (cc)
      ended _ (timed_out _ _ _) same = absurd (cc)
      ended _ (powered_off {w₁ = v} {w₂ = v'} _ _ passed) same =
          let e : v' ≡ w' = cc in rw (← e) (off _ (poll_passes _ v v' passed))
