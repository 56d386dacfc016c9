-- ===== src/Lifecycle.antt =====
-- candy/plugin-vm/vm.go: start, stop and destroy of a VM by whichever backend holds it, and
-- candy/plugin-vm/vm_snapshot_composites.go: revert-and-start over these.
-- An operation takes the state of the host and returns the new state with the result.
pub mod Absent
pub mod RevertStart
pub mod Sparing
pub mod Stops
use plugin_vm.Base.{
  Bool, true, false, Option, none, some, List, String, str_eq, if◌then◌else◌, Outcome, ok, err,
}
use plugin_vm.Base.Print.{◌<>◌}
use plugin_vm.Backend.{
  BackendError, no_such_vm, vm_name_required, snapshot_name_required, Provider, vm_backend_holder,
  vm_backend_provider_for,
}

unfoldable pub vm_name : String → String → String
vm_name box instance_name =
    if str_eq instance_name "" then "charly-" <> box else "charly-" <> box <> "-" <> instance_name

unfoldable pub domain_or : String → String → String
domain_or box domain = if str_eq domain "" then box else domain

-- A result beside the state it leaves.
abbrev pub Run : Type 0 → Type 0 → Type 0
Run W A = W × Outcome BackendError A

module _ {W : Type 0} (registry : List (String × Provider W)) (order : List String) where
  abbrev pub Held : Type 0
  Held = Option (Provider W × Bool × String)

  stopped_by : W × Outcome BackendError (Unit {0}) → Run W Bool
  stopped_by (w, ok _) = (w, ok true)
  stopped_by (w, err e) = (w, err e)

  stop_held : Held → String → Bool → W → Run W Bool
  unfolding stopped_by
  stop_held none name force w = (w, ok false)
  stop_held (some (p, _, _)) name force w = stopped_by (p.stop name force w)

  -- Whether a domain was found and stopped.
  unfoldable pub stop_vm_domain : String → Bool → W → Run W Bool
  unfolding stop_held
  stop_vm_domain name force w = stop_held (vm_backend_holder registry order name w) name force w

  start_held : Held → String → W → Run W Bool
  start_held none name w = (w, err (no_such_vm name))
  start_held (some (p, _, _)) name w = p.start name w

  -- Whether the VM was running already, which is only printed.
  unfoldable pub start_vm_domain : String → W → Run W Bool
  unfolding start_held
  start_vm_domain name w = start_held (vm_backend_holder registry order name w) name w

  destroy_held : Held → String → Bool → W → W × (Bool × Option BackendError)
  destroy_held none name delete_disk w = (w, (false, none))
  destroy_held (some (p, _, dir)) name delete_disk w = p.destroy name dir delete_disk w

  -- Whether a domain was torn down, beside an error.
  unfoldable pub destroy_vm_domain : String → Bool → W → W × (Bool × Option BackendError)
  unfolding destroy_held
  destroy_vm_domain name delete_disk w =
      destroy_held (vm_backend_holder registry order name w) name delete_disk w

  unfoldable pub destroy_by :
      Outcome BackendError (Provider W)
      → String
      → String
      → Bool
      → W
      → W × (Bool × Option BackendError)
  destroy_by (err _) name dir delete_disk w = (w, (false, none))
  destroy_by (ok p) name dir delete_disk w = p.destroy name dir delete_disk w

  unfoldable pub destroy_vm_domain_on_backend :
      String → String → String → Bool → W → W × (Bool × Option BackendError)
  unfolding destroy_by
  destroy_vm_domain_on_backend name backend dir delete_disk w =
      if str_eq backend ""
      then (w, (false, none))
      else destroy_by (vm_backend_provider_for registry backend) name dir delete_disk w

  -- The command: an absent VM is an error.
  stop_result : String → Run W Bool → Run W (Unit {0})
  stop_result name (w, ok true) = (w, ok tt)
  stop_result name (w, ok false) = (w, err (no_such_vm name))
  stop_result name (w, err e) = (w, err e)

  unfoldable pub stop_vm : String → String → String → Bool → W → Run W (Unit {0})
  unfolding stop_result
  stop_vm box instance_name domain force w =
      let name = vm_name (domain_or box domain) instance_name in
      stop_result name (stop_vm_domain name force w)

  start_by : Outcome BackendError (Provider W) → String → W → Run W Bool
  start_by (err e) name w = (w, err e)
  start_by (ok p) name w = p.start name w

  -- The backend comes from the project's configuration (hostConfigResolve), as a word or an error.
  start_configured : Outcome BackendError String → String → W → Run W Bool
  unfolding start_by
  start_configured (err e) name w = (w, err e)
  start_configured (ok backend) name w = start_by (vm_backend_provider_for registry backend) name w

  unfoldable pub start_vm :
      (String → String → Outcome BackendError String) → String → String → String → W → Run W Bool
  unfolding start_configured
  start_vm config_resolve box instance_name domain w =
      start_configured (config_resolve box domain) (vm_name (domain_or box domain) instance_name) w

-- The three steps of revert-and-start, which production binds to `stopVmDomain`, `RevertSnapshot`
-- and `startVmDomain`.
pub record RevertAndStartSteps (W : Type 0) : Type 0 where
  pub stop : String → Bool → W → Run W Bool
  pub revert : String → String → W → Run W (Unit {0})
  pub start : String → W → Run W Bool

module _ {W : Type 0} (s : RevertAndStartSteps W) where
  finished : Run W Bool → Run W (Unit {0})
  finished (w, ok _) = (w, ok tt)
  finished (w, err e) = (w, err e)

  start_after : String → Run W (Unit {0}) → Run W (Unit {0})
  unfolding finished
  start_after name (w, err e) = (w, err e)
  start_after name (w, ok _) = finished (s.start name w)

  revert_after : String → String → String → Run W Bool → Run W (Unit {0})
  unfolding start_after
  revert_after name entity snap (w, err e) = (w, err e)
  revert_after name entity snap (w, ok false) = (w, err (no_such_vm name))
  revert_after name entity snap (w, ok true) = start_after name (s.revert entity snap w)

  unfoldable pub run_revert_and_start : String → String → W → Run W (Unit {0})
  unfolding revert_after
  run_revert_and_start entity snap w =
      let name = vm_name entity "" in
      if str_eq entity ""
      then (w, err vm_name_required)
      else if str_eq snap ""
      then (w, err snapshot_name_required)
      else revert_after name entity snap (s.stop name true w)

module _ {W : Type 0} (registry : List (String × Provider W)) (order : List String) where
  -- The snapshot store's revert (vmshared.RevertSnapshot) is an argument.
  unfoldable pub revert_and_start_vm :
      (String → String → W → Run W (Unit {0})) → String → String → W → Run W (Unit {0})
  revert_and_start_vm revert_snapshot entity snap w =
      run_revert_and_start
        (record {
          stop = stop_vm_domain registry order;
          revert = revert_snapshot;
          start = start_vm_domain registry order;
        })
        entity snap w
