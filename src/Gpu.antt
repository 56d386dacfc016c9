-- ===== src/Gpu.antt =====
-- candy/plugin-vm/gpu_allocate.go, parsePCIAddr of vm_gpu_cmd.go and the override of
-- vm_instance_override.go: from a claimant's exclusive resource to the hostdevs of the VM.
-- A claimant is the list of its exclusive tokens; the vocabulary of resources maps a token to the
-- GPU vendor that it selects, where it selects one.
pub mod Address
pub mod Allocate
use plugin_vm.Base.{
  Bool, true, false, ◌&&◌, not, ℕ, Option, none, some, List, [], ◌∷◌, ◌++◌, String, str_eq,
  if◌then◌else◌, length, is_nil, ◌==◌, Outcome, ok, err,
}
use plugin_vm.Base.Int.{ℤ}
use plugin_vm.Base.Text.{Text, codes, split, split_at}
use plugin_vm.Spec.{LibvirtHostdev, LibvirtDevices, LibvirtDomain, PciSource, VmSpec}
use plugin_vm.Backend.{BackendError, Provider, lookup, vm_backend_provider_for}

pub record VmInstanceOverride : Type 0 where
  pub disposable : Option Bool
  pub lifecycle : String
  pub libvirt : Option LibvirtDomain

unfoldable pub cut_more : ℕ → Option (Text × Text) → Option (Text × Text)
cut_more c none = none
cut_more c (some (a, b)) = some (c ∷ a, b)

-- strings.SplitN(s, ".", 2), where it has two parts.
unfoldable pub cut : ℕ → Text → Option (Text × Text)
unfolding cut_more
cut sep [] = none
cut sep (c ∷ s) = let rest = cut sep s in if c == sep then some ([], s) else cut_more c rest

abbrev pub hex : Text → Text
hex s = 48 ∷ 120 ∷ s

unfoldable pub slot_function : Text → Text → Option (Text × Text) → Option PciSource
slot_function domain bus none = none
slot_function domain bus (some (slot, function)) =
    some record { domain = hex domain; bus = hex bus; slot = hex slot; function = hex function }

unfoldable pub three_parts : List Text → Option PciSource
unfolding slot_function
three_parts (domain ∷ bus ∷ tail ∷ []) = slot_function domain bus (cut 46 tail)
three_parts _ = none

-- "0000:01:00.0", by its colons (58) and its first dot (46).
unfoldable pub parse_pci_addr : Text → Option PciSource
unfolding three_parts
parse_pci_addr addr = three_parts (split 58 addr)

hostdev_of : PciSource → LibvirtHostdev
hostdev_of source = record { kind = "pci"; managed = "yes"; source = source }

add_hostdev : Option PciSource → List LibvirtHostdev → List LibvirtHostdev
unfolding hostdev_of
add_hostdev none out = out
add_hostdev (some source) out = hostdev_of source ∷ out

unfoldable pub vfio_gpu_to_hostdevs : List Text → List LibvirtHostdev
unfolding add_hostdev
vfio_gpu_to_hostdevs [] = []
vfio_gpu_to_hostdevs (addr ∷ members) =
    add_hostdev (parse_pci_addr addr) (vfio_gpu_to_hostdevs members)

-- The hostdevs below a `libvirt:` block; a missing block has none.
unfoldable pub devices_hostdevs : Option LibvirtDevices → List LibvirtHostdev
devices_hostdevs none = []
devices_hostdevs (some d) = d.hostdevs

unfoldable pub domain_hostdevs : Option LibvirtDomain → List LibvirtHostdev
unfolding devices_hostdevs
domain_hostdevs none = []
domain_hostdevs (some d) = devices_hostdevs d.devices

unfoldable pub override_hostdevs : Option VmInstanceOverride → List LibvirtHostdev
unfolding domain_hostdevs
override_hostdevs none = []
override_hostdevs (some o) = domain_hostdevs o.libvirt

abbrev pub spec_has_hostdev : VmSpec → Bool
spec_has_hostdev spec = not (is_nil (domain_hostdevs spec.libvirt))

abbrev pub ovr_has_hostdev : Option VmInstanceOverride → Bool
ovr_has_hostdev ovr = not (is_nil (override_hostdevs ovr))

gpu_of : String → Option (Option String) → Option (String × String) → Option (String × String)
gpu_of tok (some (some vendor)) rest = some (tok, vendor)
gpu_of tok _ rest = rest

-- The first token that selects a GPU, with the vendor.
unfoldable pub required_gpu_resource :
    List String → List (String × Option String) → Option (String × String)
unfolding gpu_of
required_gpu_resource [] resources = none
required_gpu_resource (tok ∷ toks) resources =
    let rest = required_gpu_resource toks resources in gpu_of tok (lookup tok resources) rest

unfoldable pub put_devices : List LibvirtHostdev → Option LibvirtDevices → LibvirtDevices
put_devices hostdevs none = record {
  hostdevs = hostdevs;
  filesystems = [];
  graphics = [];
  video = [];
}
put_devices hostdevs (some d) = record d { hostdevs = hostdevs }

unfoldable pub put_domain : List LibvirtHostdev → Option LibvirtDomain → LibvirtDomain
unfolding put_devices
put_domain hostdevs none = record { devices = some (put_devices hostdevs none); qemu_override = [] }
put_domain hostdevs (some d) = record d { devices = some (put_devices hostdevs d.devices) }

unfoldable pub put_override : List LibvirtHostdev → Option VmInstanceOverride → VmInstanceOverride
unfolding put_domain
put_override hostdevs none = record {
  disposable = none;
  lifecycle = "";
  libvirt = some (put_domain hostdevs none);
}
put_override hostdevs (some o) = record o { libvirt = some (put_domain hostdevs o.libvirt) }

-- A claimant without a GPU: stale hostdevs are dropped.
unfoldable pub drop_stale : Option VmInstanceOverride → Option VmInstanceOverride
drop_stale none = none
drop_stale (some o) = if ovr_has_hostdev (some o) then some (put_override [] (some o)) else some o

-- ApplyToVmSpec
unfoldable pub add_devices : LibvirtDevices → Option LibvirtDevices → LibvirtDevices
add_devices od none = record {
  hostdevs = od.hostdevs;
  filesystems = od.filesystems;
  graphics = [];
  video = [];
}
add_devices od (some d) = record d {
  hostdevs = d.hostdevs ++ od.hostdevs;
  filesystems = d.filesystems ++ od.filesystems;
}

unfoldable pub add_domain : LibvirtDevices → Option LibvirtDomain → LibvirtDomain
unfolding add_devices
add_domain od none = record { devices = some (add_devices od none); qemu_override = [] }
add_domain od (some d) = record d { devices = some (add_devices od d.devices) }

unfoldable pub apply_devices : Option LibvirtDevices → VmSpec → VmSpec
unfolding add_domain
apply_devices none spec = spec
apply_devices (some od) spec =
    if is_nil od.hostdevs && is_nil od.filesystems
    then spec
    else record spec { libvirt = some (add_domain od spec.libvirt) }

unfoldable pub apply_domain : Option LibvirtDomain → VmSpec → VmSpec
unfolding apply_devices
apply_domain none spec = spec
apply_domain (some d) spec = apply_devices d.devices spec

unfoldable pub apply_to_vm_spec : Option VmInstanceOverride → VmSpec → VmSpec
unfolding apply_domain
apply_to_vm_spec none spec = spec
apply_to_vm_spec (some o) spec = apply_domain o.libvirt spec

disposable_or : Option Bool → Bool → Bool
disposable_or none disposable = disposable
disposable_or (some b) disposable = b

unfoldable pub apply_to_vm_classification :
    Option VmInstanceOverride → Bool → String → Bool × String
unfolding disposable_or
apply_to_vm_classification none disposable lifecycle = (disposable, lifecycle)
apply_to_vm_classification (some o) disposable lifecycle = (
  disposable_or o.disposable disposable,
  if str_eq o.lifecycle "" then lifecycle else o.lifecycle,
)
