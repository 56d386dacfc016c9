-- ===== src/Tests/Gpus.antt =====
-- The allocation of a GPU, on a host with one card in slot 0000:01:00 with two functions.
use plugin_vm.Base.{
  ◌≡◌, refl, ℕ, suc, true, Option, none, some, List, [], ◌∷◌, String, str_eq, if◌then◌else◌, ok,
}
use plugin_vm.Base.Int.{pos}
use plugin_vm.Base.Text.{Text, codes, split}
use plugin_vm.Spec.{PciSource, VmSpec}
use plugin_vm.Backend.{lookup}
use plugin_vm.Gpu.{
  VmInstanceOverride, cut, hex, parse_pci_addr, vfio_gpu_to_hostdevs, domain_hostdevs,
  override_hostdevs, spec_has_hostdev, required_gpu_resource, put_override, apply_to_vm_spec,
}
use plugin_vm.Gpu.Allocate.{
  DetectedGpu, GpuSeams, auto_allocate_exclusive_gpus, write_instance_override_hostdevs,
  backend_takes_hostdev,
}
use plugin_vm.Gpu.Allocate.Attaches.{auto_allocate_exclusive_gpus-attaches}

abbrev addresses : List Text
addresses = codes "0000:01:00.0" ∷ codes "0000:01:00.1" ∷ []

abbrev card : DetectedGpu
card = record { addr = codes "0000:01:00.0"; iommu_group = pos 14; group_members = addresses }

-- The state counts the files that were written.
abbrev host : GpuSeams ℕ (Unit {0})
host = record {
  normalize_pci_vendor = λ v. v;
  detect_vfio = λ w. tt;
  select_gpu_by_vendor = λ report vendor. if str_eq vendor "0x10de" then some card else none;
  override_path = λ w name. ok "/vm/instance.yml";
  mkdir_parent = λ path w. (w, none);
  marshal = λ ovr. ok [];
  write_file = λ path header data_text w. (suc w, none);
}

abbrev resources : List (String × Option String)
resources = ("nvidia-gpu", some "0x10de") ∷ ("usb", none) ∷ []

abbrev plain : VmSpec
plain = record { ram = "4G"; cpus = pos 2; krun = none; libvirt = none }

abbrev allocated : Option VmInstanceOverride
allocated = some (put_override (vfio_gpu_to_hostdevs addresses) none)

auto_allocate_exclusive_gpus-attaches_example :
    spec_has_hostdev (apply_to_vm_spec allocated plain) ≡ true
auto_allocate_exclusive_gpus-attaches_example =
    auto_allocate_exclusive_gpus-attaches host [] plain none ("nvidia-gpu" ∷ []) resources
      "charly-arch" "" 0 required attached
  where
    required : required_gpu_resource ("nvidia-gpu" ∷ []) resources ≡ some ("nvidia-gpu", "0x10de")
    required = unfold required_gpu_resource lookup in refl

    attached :
        auto_allocate_exclusive_gpus host [] plain none
          ("nvidia-gpu" ∷ [])
          resources
          "charly-arch"
          ""
          0
        ≡ (1, allocated, none)
    attached =
        unfold auto_allocate_exclusive_gpus write_instance_override_hostdevs required_gpu_resource
          lookup backend_takes_hostdev vfio_gpu_to_hostdevs parse_pci_addr split cut put_override
          domain_hostdevs override_hostdevs in
        refl

abbrev first_function : PciSource
first_function = record {
  domain = hex (codes "0000");
  bus = hex (codes "01");
  slot = hex (codes "00");
  function = hex (codes "0");
}

-- An address without a function is skipped.
no_function : parse_pci_addr (codes "0000:01:00") ≡ none
unfolding parse_pci_addr split cut
no_function = refl
