-- ===== src/Gpu/Allocate.antt =====
-- autoAllocateExclusiveGPUs and writeInstanceOverrideHostdevs.
-- The GPU's report, the normal form of a vendor and the choice of a GPU are external
-- (`spec.NormalizePCIVendor`, `spec.SelectGPUByVendor`, DetectVFIO), as are the files. The header of
-- the persisted file is the record of what its text names.
pub mod Attaches
use plugin_vm.Base.{
  ◌≡◌, Bool, true, false, ◌||◌, ℕ, Option, none, some, List, [], ◌∷◌, String, str_eq, if◌then◌else◌,
  length, is_nil, Outcome, ok, err,
}
use plugin_vm.Base.Int.{ℤ}
use plugin_vm.Base.Text.{Text}
use plugin_vm.Spec.{LibvirtHostdev, VmSpec}
use plugin_vm.Backend.{BackendError, Provider, vm_backend_provider_for}
use plugin_vm.Gpu.{
  VmInstanceOverride, vfio_gpu_to_hostdevs, spec_has_hostdev, ovr_has_hostdev,
  required_gpu_resource, put_override, drop_stale,
}

pub record DetectedGpu : Type 0 where
  pub addr : Text
  pub iommu_group : ℤ
  pub group_members : List Text

pub record AllocationHeader : Type 0 where
  pub token : String
  pub vendor : String
  pub addr : Text
  pub iommu_group : ℤ
  pub functions : ℕ

pub data AllocateError : Type 0 where
  backend_without_pci : String → String → String → AllocateError
  no_matching_gpu : String → String → String → AllocateError
  no_functions : String → Text → String → AllocateError
  persist_failed : String → String → AllocateError

pub record GpuSeams (W Report : Type 0) : Type 0 where
  pub normalize_pci_vendor : String → String
  pub detect_vfio : W → Report
  pub select_gpu_by_vendor : Report → String → Option DetectedGpu
  pub override_path : W → String → Outcome String String
  pub mkdir_parent : String → W → W × Option String
  pub marshal : VmInstanceOverride → Outcome String Text
  pub write_file : String → AllocationHeader → Text → W → W × Option String

module _ {W Report : Type 0} (s : GpuSeams W Report) where
  write_data : String → AllocationHeader → Outcome String Text → W → W × Option String
  write_data path header (err e) w = (w, some e)
  write_data path header (ok data_text) w = s.write_file path header data_text w

  write_made :
      String → VmInstanceOverride → AllocationHeader → W × Option String → W × Option String
  unfolding write_data
  write_made path ovr header (w, some e) = (w, some e)
  write_made path ovr header (w, none) = write_data path header (s.marshal ovr) w

  write_at : VmInstanceOverride → AllocationHeader → W → Outcome String String → W × Option String
  unfolding write_made
  write_at ovr header w (err e) = (w, some e)
  write_at ovr header w (ok path) = write_made path ovr header (s.mkdir_parent path w)

  unfoldable pub write_instance_override_hostdevs :
      String → VmInstanceOverride → AllocationHeader → W → W × Option String
  unfolding write_at
  write_instance_override_hostdevs domain_name ovr header w =
      write_at ovr header w (s.override_path w domain_name)

  -- The override that is returned, beside an error: also a failed call returns one.
  abbrev pub Result : Type 0
  Result = W × Option VmInstanceOverride × Option AllocateError

  unfoldable pub persisted : String → VmInstanceOverride → W × Option String → Result
  persisted domain_name ovr (w, none) = (w, some ovr, none)
  persisted domain_name ovr (w, some e) = (w, some ovr, some (persist_failed domain_name e))

  abbrev pub header_of : String → String → DetectedGpu → AllocationHeader
  header_of tok vendor gpu = record {
    token = tok;
    vendor = vendor;
    addr = gpu.addr;
    iommu_group = gpu.iommu_group;
    functions = length (vfio_gpu_to_hostdevs gpu.group_members);
  }

  unfoldable pub with_hostdevs :
      Option VmInstanceOverride
      → String
      → String
      → String
      → DetectedGpu
      → List LibvirtHostdev
      → W
      → Result
  unfolding persisted
  with_hostdevs ovr domain_name tok vendor gpu [] w =
      (w, ovr, some (no_functions domain_name gpu.addr tok))
  with_hostdevs ovr domain_name tok vendor gpu (h ∷ hs) w =
      persisted domain_name (put_override (h ∷ hs) ovr) (
        write_instance_override_hostdevs domain_name (put_override (h ∷ hs) ovr)
          (header_of tok vendor gpu) w)

  unfoldable pub with_gpu :
      Option VmInstanceOverride → String → String → String → W → Option DetectedGpu → Result
  unfolding with_hostdevs
  with_gpu ovr domain_name tok vendor w none =
      (w, ovr, some (no_matching_gpu domain_name tok vendor))
  with_gpu ovr domain_name tok vendor w (some gpu) =
      with_hostdevs ovr domain_name tok vendor gpu (vfio_gpu_to_hostdevs gpu.group_members) w

  module _ (registry : List (String × Provider W)) where
    hostdev_support : Outcome BackendError (Provider W) → Bool
    hostdev_support (err _) = false
    hostdev_support (ok p) = p.supports_pci_hostdev

    -- An empty backend is decided later and is not refused here.
    unfoldable pub backend_takes_hostdev : String → Bool
    unfolding hostdev_support
    backend_takes_hostdev backend =
        str_eq backend "" || hostdev_support (vm_backend_provider_for registry backend)

    unfoldable pub allocate_for :
        VmSpec → Option VmInstanceOverride → String → String → String × String → W → Result
    unfolding with_gpu
    allocate_for spec ovr domain_name backend (tok, vendor) w =
        if spec_has_hostdev spec || ovr_has_hostdev ovr
        then (w, ovr, none)
        else if backend_takes_hostdev backend
        then with_gpu ovr domain_name tok (s.normalize_pci_vendor vendor) w
            (s.select_gpu_by_vendor (s.detect_vfio w) (s.normalize_pci_vendor vendor))
        else (w, ovr, some (backend_without_pci domain_name tok backend))

    unfoldable pub allocate_required :
        VmSpec → Option VmInstanceOverride → String → String → Option (String × String) → W → Result
    unfolding allocate_for drop_stale
    allocate_required spec ovr domain_name backend none w = (w, drop_stale ovr, none)
    allocate_required spec ovr domain_name backend (some req) w =
        allocate_for spec ovr domain_name backend req w

    unfoldable pub auto_allocate_exclusive_gpus :
        VmSpec
        → Option VmInstanceOverride
        → List String
        → List (String × Option String)
        → String
        → String
        → W
        → Result
    unfolding allocate_required
    auto_allocate_exclusive_gpus spec ovr tokens resources domain_name backend w =
        allocate_required spec ovr domain_name backend (required_gpu_resource tokens resources) w
