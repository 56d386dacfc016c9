-- ===== src/Krun/Settings.antt =====
-- krunSettings and krunGuestRam: the defaults, and the split of the memory.
use plugin_vm.Base.{
  ℕ, suc, Bool, true, false, Option, none, some, String, str_eq, if◌then◌else◌, Outcome, ok, err,
}
use plugin_vm.Base.Int.{ℤ, pos, negsuc, ◌-ℤ◌, ltb_ℤ}
use plugin_vm.Base.Text.{codes}
use plugin_vm.Sizes.{parse_ram_to_mb}
use plugin_vm.Spec.{VmKrun, VmSpec}

pub data KrunError : Type 0 where
  negative_headroom : ℤ → KrunError
  no_guest_ram : ℤ → ℤ → KrunError
  nvidia_refused : KrunError
  below_gpu_floor : ℤ → KrunError

abbrev pub krun_default_ram_mib : ℤ
krun_default_ram_mib = pos 4096

abbrev pub krun_default_cpus : ℤ
krun_default_cpus = pos 1

abbrev pub krun_gpu_compute_floor_mib : ℤ
krun_gpu_compute_floor_mib = pos 1024

abbrev pub krun_defaults : VmKrun
krun_defaults = record {
  network = "tsi";
  kernel = "stock";
  gpu = "off";
  gpu_flags = pos 962;
  ram_headroom_mib = pos 256;
  nested_virt = false;
}

-- `if got != zero { k = got }`, for a string and for a number.
abbrev pub string_or : String → String → String
string_or got k = if str_eq got "" then k else got

abbrev pub int_or : ℤ → ℤ → ℤ
int_or (pos ℕ.zero) k = k
int_or (pos (suc n)) k = pos (suc n)
int_or (negsuc n) k = negsuc n

abbrev pub fill_settings : VmKrun → VmKrun
fill_settings got = record {
  network = string_or got.network krun_defaults.network;
  kernel = string_or got.kernel krun_defaults.kernel;
  gpu = string_or got.gpu krun_defaults.gpu;
  gpu_flags = int_or got.gpu_flags krun_defaults.gpu_flags;
  ram_headroom_mib = int_or got.ram_headroom_mib krun_defaults.ram_headroom_mib;
  nested_virt = got.nested_virt;
}

unfoldable pub settings_of : Option VmKrun → VmKrun
settings_of none = krun_defaults
settings_of (some got) = fill_settings got

unfoldable pub krun_settings : Option VmSpec → VmKrun
unfolding settings_of
krun_settings none = krun_defaults
krun_settings (some s) = settings_of s.krun

-- The container's limit: the authored RAM where that is positive.
abbrev pub positive_or : ℤ → ℤ → ℤ
positive_or (pos (suc n)) d = pos (suc n)
positive_or _ d = d

unfoldable pub split_ram : ℤ → ℤ → Outcome KrunError (ℤ × ℤ)
split_ram container headroom =
    let guest = container -ℤ headroom in
    if ltb_ℤ headroom (pos 0)
    then err (negative_headroom headroom)
    else if ltb_ℤ (pos 0) guest
    then ok (container, guest)
    else err (no_guest_ram headroom container)

module _ (resolve_vm_ram : VmSpec → String) where
  unfoldable pub container_ram : Option VmSpec → ℤ
  container_ram none = krun_default_ram_mib
  container_ram (some s) =
      positive_or (parse_ram_to_mb (codes (resolve_vm_ram s))) krun_default_ram_mib

  -- The container's limit and the guest's RAM.
  unfoldable pub krun_guest_ram : Option VmSpec → ℤ → Outcome KrunError (ℤ × ℤ)
  unfolding split_ram
  krun_guest_ram s headroom = split_ram (container_ram s) headroom

unfoldable pub krun_refuse_nvidia : Bool → Outcome KrunError (Unit {0})
krun_refuse_nvidia false = ok tt
krun_refuse_nvidia true = err nvidia_refused

unfoldable pub krun_refuse_gpu_floor : Option VmSpec → ℤ → Outcome KrunError (Unit {0})
krun_refuse_gpu_floor s guest =
    if str_eq (krun_settings s).gpu "virtio"
    then (if ltb_ℤ guest krun_gpu_compute_floor_mib then err (below_gpu_floor guest) else ok tt)
    else ok tt
