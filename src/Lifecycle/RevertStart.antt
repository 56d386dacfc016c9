-- ===== src/Lifecycle/RevertStart.antt =====
-- The order of revert-and-start, on every path.
use plugin_vm.Base.{
  ◌≡◌, refl, Bool, true, false, List, String, str_eq, All, ok, err, Bool-cases, inl, inr,
}
use plugin_vm.Backend.{BackendError, no_such_vm, vm_name_required, snapshot_name_required, Provider}
use plugin_vm.Backend.Holder.{Passes}
use plugin_vm.Lifecycle.{
  Run, vm_name, finished, start_after, revert_after, RevertAndStartSteps, run_revert_and_start,
  revert_and_start_vm,
}
use plugin_vm.Lifecycle.Absent.{absent_vm}

module _ {W : Type 0} (s : RevertAndStartSteps W) where
  -- The ways in which a run may end, with the state and the result that it leaves. The stop is
  -- forced, the revert starts in the state that a stop has left, and the start in that of the revert.
  pub data Ends (entity snap : String) (w : W) : Run W (Unit {0}) → Type 0 where
    no_name : str_eq entity "" ≡ true → Ends entity snap w (w, err vm_name_required)
    no_snapshot :
        str_eq entity "" ≡ false
        → str_eq snap "" ≡ true
        → Ends entity snap w (w, err snapshot_name_required)
    stop_failed :
        {w₁ : W} {e : BackendError}
        → s.stop (vm_name entity "") true w ≡ (w₁, err e)
        → Ends entity snap w (w₁, err e)
    absent :
        {w₁ : W}
        → s.stop (vm_name entity "") true w ≡ (w₁, ok false)
        → Ends entity snap w (w₁, err (no_such_vm (vm_name entity "")))
    revert_failed :
        {w₁ w₂ : W} {e : BackendError}
        → s.stop (vm_name entity "") true w ≡ (w₁, ok true)
        → s.revert entity snap w₁ ≡ (w₂, err e)
        → Ends entity snap w (w₂, err e)
    start_failed :
        {w₁ w₂ w₃ : W} {e : BackendError}
        → s.stop (vm_name entity "") true w ≡ (w₁, ok true)
        → s.revert entity snap w₁ ≡ (w₂, ok tt)
        → s.start (vm_name entity "") w₂ ≡ (w₃, err e)
        → Ends entity snap w (w₃, err e)
    started :
        {w₁ w₂ w₃ : W} {already : Bool}
        → s.stop (vm_name entity "") true w ≡ (w₁, ok true)
        → s.revert entity snap w₁ ≡ (w₂, ok tt)
        → s.start (vm_name entity "") w₂ ≡ (w₃, ok already)
        → Ends entity snap w (w₃, ok tt)

  Ends-start :
      (entity snap : String) (w w₁ w₂ : W)
      → s.stop (vm_name entity "") true w ≡ (w₁, ok true)
      → s.revert entity snap w₁ ≡ (w₂, ok tt)
      → (r : Run W Bool) → s.start (vm_name entity "") w₂ ≡ r
      → Ends entity snap w (finished s r)
  unfolding finished
  Ends-start entity snap w w₁ w₂ stopped reverted (w₃, ok already) e = started stopped reverted e
  Ends-start entity snap w w₁ w₂ stopped reverted (w₃, err x) e = start_failed stopped reverted e

  Ends-revert :
      (entity snap : String) (w w₁ : W)
      → s.stop (vm_name entity "") true w ≡ (w₁, ok true)
      → (r : Run W (Unit {0})) → s.revert entity snap w₁ ≡ r
      → Ends entity snap w (start_after s (vm_name entity "") r)
  unfolding start_after
  Ends-revert entity snap w w₁ stopped (w₂, ok tt) e =
      Ends-start entity snap w w₁ w₂ stopped e (s.start (vm_name entity "") w₂) refl
  Ends-revert entity snap w w₁ stopped (w₂, err x) e = revert_failed stopped e

  Ends-stop :
      (entity snap : String) (w : W) (r : Run W Bool)
      → s.stop (vm_name entity "") true w ≡ r
      → Ends entity snap w (revert_after s (vm_name entity "") entity snap r)
  unfolding revert_after
  Ends-stop entity snap w (w₁, ok true) e =
      Ends-revert entity snap w w₁ e (s.revert entity snap w₁) refl
  Ends-stop entity snap w (w₁, ok false) e = absent e
  Ends-stop entity snap w (w₁, err x) e = stop_failed e

  -- Every run of revert-and-start ends in one of the ways of `Ends`: a name is missing, the forced
  -- stop fails or finds no VM, the revert fails, the start fails, or the VM was stopped, reverted and
  -- started, each step in the state that the one before it left.
  pub run_revert_and_start-Ends :
      (entity snap : String) (w : W) → Ends entity snap w (run_revert_and_start s entity snap w)
  unfolding run_revert_and_start
  run_revert_and_start-Ends entity snap w = elim (Bool-cases (str_eq entity "")) [
    | inl e ↦ rw e (no_name e)
    | inr named ↦ elim (Bool-cases (str_eq snap "")) [
      | inl e ↦ rw (named, e) (no_snapshot named e)
      | inr chosen ↦ rw (named, chosen) (Ends-stop entity snap w _ refl)
    ]
  ]

module _ {W : Type 0} (registry : List (String × Provider W)) (order : List String) where
  -- With the real primitives, a VM that no backend holds is an error and nothing is reverted,
  -- started or changed.
  pub revert_and_start_vm-absent :
      (revert_snapshot : String → String → W → Run W (Unit {0})) (entity snap : String) (w : W)
      → str_eq entity "" ≡ false
      → str_eq snap "" ≡ false
      → All (Passes registry w (vm_name entity "")) order
      → revert_and_start_vm registry order revert_snapshot entity snap w
        ≡ (w, err (no_such_vm (vm_name entity "")))
  unfolding revert_and_start_vm run_revert_and_start
  revert_and_start_vm-absent revert_snapshot entity snap w named chosen passes =
      rw (named, chosen) (rw ((absent_vm registry order (vm_name entity "") true false w passes).0))
