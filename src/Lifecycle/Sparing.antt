-- ===== src/Lifecycle/Sparing.antt =====
-- destroyVmDomainOnBackend on a backend that does not hold the VM.
use plugin_vm.Base.{
  ◌≡◌, refl, sym, ◌⊎◌, Bool, false, Option, none, some, List, String, str_eq, Bool-cases, inl, inr,
}
use mathlib.Core.Path.{subst}
use plugin_vm.Backend.KrunGuest.{KrunGuestError, KrunSeams, krun_provider}
use plugin_vm.Backend.KrunGuest.Spares.{krun_provider-IsSparing}
use plugin_vm.Backend.QemuGuest.{QemuSeams, qemu_provider}
use plugin_vm.Backend.QemuGuest.Spares.{qemu_provider-IsSparing}
use plugin_vm.Backend.{Provider, lookup, known_provider, vm_backend_provider_for}
use plugin_vm.Backend.Interface.{IsSparing}
use plugin_vm.Lifecycle.{destroy_by, destroy_vm_domain_on_backend}

module _ {W : Type 0} (registry : List (String × Provider W)) (order : List String) where
  spared :
      (word name : String) (delete_disk : Bool) (w : W) (o : Option (Provider W))
      → ((p : Provider W) → o ≡ some p → IsSparing p × (p.holder w name ≡ none))
      → ((destroy_by registry order (known_provider word o) name "" delete_disk w).0 ≡ w)
        × ((destroy_by registry order (known_provider word o) name "" delete_disk w).1.0 ≡ false)
  unfolding known_provider destroy_by
  spared word name delete_disk w none keeps = (refl, refl)
  spared word name delete_disk w (some p) keeps =
      let (sparing, free) = keeps p refl in sparing name delete_disk w free

  -- Tearing a VM down on a backend that is named and does not hold it changes nothing and tears
  -- nothing down, where no state directory is given and the name stands for the qemu or the krun
  -- provider; libvirt, which cleans up behind an absent domain, is not meant.
  pub destroy_vm_domain_on_backend-spares :
      (q : QemuSeams W) (k : KrunSeams W) (message : KrunGuestError → String)
      (preflight_error : W → Option String) (name backend : String) (delete_disk : Bool) (w : W)
      → ((p : Provider W)
          → lookup backend registry ≡ some p
          → ((p ≡ qemu_provider q) ⊎ (p ≡ krun_provider k message preflight_error))
            × (p.holder w name ≡ none))
      → ((destroy_vm_domain_on_backend registry order name backend "" delete_disk w).0 ≡ w)
        × ((destroy_vm_domain_on_backend registry order name backend "" delete_disk w).1.0 ≡ false)
  unfolding destroy_vm_domain_on_backend vm_backend_provider_for
  destroy_vm_domain_on_backend-spares q k message preflight_error name backend delete_disk w named =
      elim (Bool-cases (str_eq backend "")) [
        | inl e ↦ rw e (refl, refl)
        | inr e ↦ rw e (
            spared backend name delete_disk w (lookup backend registry)
              (λ p found. (sparing p (named p found).0, (named p found).1)))
      ]
    where
      sparing :
          (p : Provider W)
          → (p ≡ qemu_provider q) ⊎ (p ≡ krun_provider k message preflight_error)
          → IsSparing p
      sparing p (inl e) = subst IsSparing (sym e) (qemu_provider-IsSparing q)
      sparing p (inr e) =
          subst IsSparing (sym e) (krun_provider-IsSparing k message preflight_error)
