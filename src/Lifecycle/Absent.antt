-- ===== src/Lifecycle/Absent.antt =====
-- What the commands do with a VM that no backend holds, and with one that a backend holds.
use plugin_vm.Base.{
  ◌≡◌, Bool, true, false, none, some, List, String, All, Outcome, ok, err, Option-cases, inl, inr,
}
use plugin_vm.Backend.{BackendError, no_such_vm, Provider, vm_backend_holder}
use plugin_vm.Backend.Holder.{
  Passes, IsFirstHolder, vm_backend_holder-none_iff, vm_backend_holder-IsFirstHolder,
}
use plugin_vm.Lifecycle.{
  vm_name, domain_or, stopped_by, stop_vm_domain, start_vm_domain, destroy_vm_domain, stop_vm,
  stop_result,
}

module _ {W : Type 0} (registry : List (String × Provider W)) (order : List String) where
  -- A name that no backend holds: the domain operations change nothing, stop and destroy report
  -- that nothing was done and start fails.
  pub absent_vm :
      (name : String) (force delete_disk : Bool) (w : W)
      → All (Passes registry w name) order
      → (stop_vm_domain registry order name force w ≡ (w, ok false))
        × (destroy_vm_domain registry order name delete_disk w ≡ (w, (false, none)))
        × (start_vm_domain registry order name w ≡ (w, err (no_such_vm name)))
  unfolding stop_vm_domain destroy_vm_domain start_vm_domain
  absent_vm name force delete_disk w passes =
      let free = (vm_backend_holder-none_iff registry order name w).1 passes in
      (rw free, rw free, rw free)

  stopped_by_inv :
      (r : W × Outcome BackendError (Unit {0})) (w' : W)
      → stopped_by registry order r ≡ (w', ok true)
      → r ≡ (w', ok tt)
  unfolding stopped_by
  stopped_by_inv (w, ok _) w' h = cc
  stopped_by_inv (w, err e) w' h = absurd (cc)

  stop_vm_domain-by_found :
      (name : String) (force : Bool) (w w' : W)
      → stop_vm_domain registry order name force w ≡ (w', ok true)
      → (p : Provider W) × (running : Bool) × (dir : String) × (vm_backend_holder registry order
            name w
          ≡ some (p, running, dir))
        × (p.stop name force w ≡ (w', ok tt))
  unfolding stop_vm_domain
  stop_vm_domain-by_found name force w w' h =
      elim (Option-cases (vm_backend_holder registry order name w)) [
        | inl free ↦ absurd (nothing (rw free at h))
        | inr ((p, running, dir), found) ↦
            (p, running, dir, found, stopped_by_inv (p.stop name force w) w' (rw found at h))
      ]
    where
      nothing : Path (W × Outcome BackendError Bool) (w, ok false) (w', ok true) → ⊥
      nothing e = cc

  stop_result_inv :
      (name : String) (r : W × Outcome BackendError Bool) (w' : W)
      → stop_result registry order name r ≡ (w', ok tt)
      → r ≡ (w', ok true)
  unfolding stop_result
  stop_result_inv name (w, ok true) w' e = cc
  stop_result_inv name (w, ok false) w' e = absurd (cc)
  stop_result_inv name (w, err x) w' e = absurd (cc)

  -- The stop command succeeds only if the provider that was found to hold the VM stopped it.
  pub stop_vm-by_found :
      (box instance_name domain : String) (force : Bool) (w w' : W)
      → stop_vm registry order box instance_name domain force w ≡ (w', ok tt)
      → (p : Provider W) × (running : Bool) × (dir : String) × (vm_backend_holder registry order
            (vm_name (domain_or box domain) instance_name)
            w
          ≡ some (p, running, dir))
        × (p.stop (vm_name (domain_or box domain) instance_name) force w ≡ (w', ok tt))
  unfolding stop_vm
  stop_vm-by_found box instance_name domain force w w' h =
      let name = vm_name (domain_or box domain) instance_name in
      stop_vm_domain-by_found name force w w'
        (stop_result_inv name (stop_vm_domain registry order name force w) w' h)

  -- The stop command succeeds only if the VM's holder stopped it; it never reports a stop of a VM
  -- that no backend holds.
  pub stop_vm-by_holder :
      (box instance_name domain : String) (force : Bool) (w w' : W)
      → stop_vm registry order box instance_name domain force w ≡ (w', ok tt)
      → (p : Provider W) × (running : Bool) × (dir : String) × IsFirstHolder registry order w
          (vm_name (domain_or box domain) instance_name)
          p
          running
          dir
        × (p.stop (vm_name (domain_or box domain) instance_name) force w ≡ (w', ok tt))
  stop_vm-by_holder box instance_name domain force w w' h =
      let name = vm_name (domain_or box domain) instance_name in
      let (p, running, dir, found, stopped) =
        stop_vm-by_found box instance_name domain force w w' h in
      (
        p,
        running,
        dir,
        vm_backend_holder-IsFirstHolder registry order name w p running dir found,
        stopped,
      )
