-- ===== src/Lifecycle/Stops.antt =====
-- stopVM on a VM whose backend keeps the promise of a stop.
use plugin_vm.Base.{◌≡◌, ◌≢◌, Bool, true, some, List, String, ok}
use plugin_vm.Backend.{Provider, vm_backend_holder}
use plugin_vm.Backend.Interface.{IsStopping}
use plugin_vm.Lifecycle.{vm_name, domain_or, stop_vm}
use plugin_vm.Lifecycle.Absent.{stop_vm-by_found}

module _ {W : Type 0} (registry : List (String × Provider W)) (order : List String) where
  -- A stop command that succeeds leaves the VM not running: the provider that was found to hold it
  -- does not report it as running any more, where that provider keeps the promise of a stop.
  pub stop_vm-stops :
      (box instance_name domain : String) (force : Bool) (w w' : W)
      → ((p : Provider W) (running : Bool) (dir : String)
          → vm_backend_holder registry order (vm_name (domain_or box domain) instance_name) w
            ≡ some (p, running, dir)
          → IsStopping p)
      → stop_vm registry order box instance_name domain force w ≡ (w', ok tt)
      → (p : Provider W) × (running : Bool) × (dir : String) × (vm_backend_holder registry order
            (vm_name (domain_or box domain) instance_name)
            w
          ≡ some (p, running, dir))
        × ((dir' : String)
            → p.holder w' (vm_name (domain_or box domain) instance_name) ≢ some (true, dir'))
  stop_vm-stops box instance_name domain force w w' keeps h =
      let name = vm_name (domain_or box domain) instance_name in
      let (p, running, dir, found, stopped) =
        stop_vm-by_found registry order box instance_name domain force w w' h in
      (p, running, dir, found, (λ dir'. keeps p running dir found name dir' force w w' stopped))
