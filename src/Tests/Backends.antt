-- ===== src/Tests/Backends.antt =====
-- Two backends, the second of which holds a VM; the state is whether that VM runs.
use plugin_vm.Base.{
  ◌≡◌, refl, Bool, true, false, none, some, List, [], ◌∷◌, String, str_eq, if◌then◌else◌, ok,
}
use plugin_vm.Backend.{Provider, lookup, vm_backend_holder}
use plugin_vm.Backend.Holder.{IsFirstHolder, vm_backend_holder-IsFirstHolder}
use plugin_vm.Lifecycle.{RevertAndStartSteps, run_revert_and_start}
use plugin_vm.Lifecycle.RevertStart.{Ends, run_revert_and_start-Ends}

-- A provider that holds the VMs that `holds` says.
abbrev provider : String → (String → Bool) → Provider Bool
provider word holds = record {
  word = word;
  auto_detectable = true;
  supports_pci_hostdev = false;
  available = λ w. none;
  holder = λ w name. if holds name then some (w, "/vm") else none;
  start = λ name w. (true, ok false);
  stop = λ name force w. (false, ok tt);
  destroy = λ name dir delete_disk w. (false, (true, none));
}

abbrev libvirt : Provider Bool
libvirt = provider "libvirt" (λ name. false)

abbrev qemu : Provider Bool
qemu = provider "qemu" (λ name. str_eq name "charly-arch")

abbrev registry : List (String × Provider Bool)
registry = ("libvirt", libvirt) ∷ ("qemu", qemu) ∷ []

abbrev order : List String
order = "libvirt" ∷ "qemu" ∷ []

vm_backend_holder-IsFirstHolder_example :
    IsFirstHolder registry order true "charly-arch" qemu true "/vm"
vm_backend_holder-IsFirstHolder_example =
    vm_backend_holder-IsFirstHolder registry order "charly-arch" true qemu true "/vm" held
  where
    held : vm_backend_holder registry order "charly-arch" true ≡ some (qemu, true, "/vm")
    held = unfold vm_backend_holder lookup in refl

abbrev steps : RevertAndStartSteps Bool
steps = record {
  stop = λ name force w. (false, ok true);
  revert = λ entity snap w. (w, ok tt);
  start = λ name w. (true, ok false);
}

run_revert_and_start-Ends_example :
    Ends steps "arch" "golden" true (run_revert_and_start steps "arch" "golden" true)
run_revert_and_start-Ends_example = run_revert_and_start-Ends steps "arch" "golden" true
