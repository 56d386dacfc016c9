-- ===== src/GpuConfig.antt =====
-- candy/plugin-vm/libvirt_gpu_config.go: the rules of the graphics blocks, and the qemu override.
pub mod Sorted
pub mod Graphics
pub mod Carried
pub mod Rules
pub mod Order
use plugin_vm.Base.{
  ℕ, suc, Bool, true, false, ◌&&◌, ◌||◌, not, Option, none, some, List, [], ◌∷◌, String, str_eq,
  if◌then◌else◌, ltb, ◌==◌, is_some, is_nil, map,
}
use plugin_vm.Base.Int.{ℤ, pos, negsuc}
use plugin_vm.Base.Text.{Text, text_eq}
use plugin_vm.Base.Print.{itoa}
use plugin_vm.Spec.{
  LibvirtDomain, LibvirtDevices, LibvirtGraphics, LibvirtGraphicsGl, LibvirtVideo, Scalar, flag,
  whole, fraction, text, other,
}
use plugin_vm.GpuConfig.Sorted.{sort_strings}

pub data GpuConfigError : Type 0 where
  gl_unsupported : ℕ → String → GpuConfigError
  gl_enable_dropped : ℕ → GpuConfigError
  dbus_only : ℕ → String → GpuConfigError
  address_and_p2p : ℕ → GpuConfigError
  gl_without_enable : ℕ → String → GpuConfigError
  unmatched_override : List Text → List Text → GpuConfigError

-- glGraphicsTypes
unfoldable pub gl_graphics_type : String → Bool
gl_graphics_type kind = str_eq kind "spice" || str_eq kind "egl-headless" || str_eq kind "dbus"

-- The checks of a block, by its type and by which of its fields are set.
unfoldable pub gl_checks : ℕ → String → Bool → Bool → Bool → Bool → Option GpuConfigError
unfolding gl_graphics_type
gl_checks i kind gl enable address p2p =
    if gl && not (gl_graphics_type kind)
    then some (gl_unsupported i kind)
    else if str_eq kind "egl-headless" && (gl && enable)
    then some (gl_enable_dropped i)
    else if not (str_eq kind "dbus") && (address || p2p)
    then some (dbus_only i kind)
    else if str_eq kind "dbus" && (address && p2p)
    then some (address_and_p2p i)
    else if (str_eq kind "spice" || str_eq kind "dbus") && (gl && not enable)
    then some (gl_without_enable i kind)
    else none

abbrev pub sets_enable : Option LibvirtGraphicsGl → Bool
sets_enable none = false
sets_enable (some gl) = is_some gl.enable

unfoldable pub validate_graphics_gl : ℕ → LibvirtGraphics → Option GpuConfigError
unfolding gl_checks
validate_graphics_gl i g =
    gl_checks i g.kind (is_some g.gl) (sets_enable g.gl) (not (str_eq g.address "")) (is_some g.p2p)

abbrev pub first_error : Option GpuConfigError → Option GpuConfigError → Option GpuConfigError
first_error (some e) rest = some e
first_error none rest = rest

unfoldable pub validate_all_graphics : ℕ → List LibvirtGraphics → Option GpuConfigError
unfolding validate_graphics_gl
validate_all_graphics i [] = none
validate_all_graphics i (g ∷ rest) =
    first_error (validate_graphics_gl i g) (validate_all_graphics (suc i) rest)

unfoldable pub contains : Text → List Text → Bool
contains key [] = false
contains key (k ∷ keys) = text_eq k key || contains key keys

-- The aliases that are declared, each of them once.
unfoldable pub aliases_of : List LibvirtVideo → List Text
unfolding contains
aliases_of [] = []
aliases_of (v ∷ rest) =
    if is_nil v.alias || contains v.alias (aliases_of rest)
    then aliases_of rest
    else v.alias ∷ aliases_of rest

device_aliases : Option LibvirtDevices → List Text
unfolding aliases_of
device_aliases none = []
device_aliases (some d) = aliases_of d.video

unfoldable pub declared_device_aliases : LibvirtDomain → List Text
unfolding device_aliases
declared_device_aliases lv = device_aliases lv.devices

abbrev pub keys {ℓ} : {V : Type ℓ} → List (Text × V) → List Text
keys m = map (λ kv. kv.0) m

unfoldable pub unmatched_in : List Text → List Text → List Text
unmatched_in declared [] = []
unmatched_in declared (key ∷ rest) =
    if contains key declared then unmatched_in declared rest else key ∷ unmatched_in declared rest

unfoldable pub report_unmatched : List Text → List Text → Option GpuConfigError
report_unmatched declared [] = none
report_unmatched declared (key ∷ rest) =
    some (unmatched_override (sort_strings (key ∷ rest)) (sort_strings declared))

unfoldable pub validate_qemu_override_targets : LibvirtDomain → Option GpuConfigError
unfolding report_unmatched
validate_qemu_override_targets lv =
    report_unmatched (declared_device_aliases lv)
      (unmatched_in (declared_device_aliases lv) (keys lv.qemu_override))

unfoldable pub graphics_errors : Option LibvirtDevices → Option GpuConfigError
unfolding validate_all_graphics
graphics_errors none = none
graphics_errors (some d) = validate_all_graphics 0 d.graphics

unfoldable pub validate_libvirt_gpu_config : Option LibvirtDomain → Option GpuConfigError
unfolding graphics_errors
validate_libvirt_gpu_config none = none
validate_libvirt_gpu_config (some lv) =
    first_error (graphics_errors lv.devices) (validate_qemu_override_targets lv)

pub record OverrideProperty : Type 0 where
  pub name : Text
  pub kind : String
  pub value : String

pub record OverrideDevice : Type 0 where
  pub alias : Text
  pub properties : List OverrideProperty

unfoldable pub int_property_type : ℤ → String
int_property_type (pos n) = "unsigned"
int_property_type (negsuc n) = "signed"

unfoldable pub qemu_property_value : Scalar → String × String
unfolding int_property_type
qemu_property_value (flag true) = ("bool", "true")
qemu_property_value (flag false) = ("bool", "false")
qemu_property_value (whole n) = (int_property_type n, itoa n)
qemu_property_value (fraction s) = ("string", s)
qemu_property_value (text s) = ("string", s)
qemu_property_value (other s) = ("string", s)

unfoldable pub lookup_key {ℓ} : {V : Type ℓ} → Text → List (Text × V) → Option V
lookup_key key [] = none
lookup_key key ((k, v) ∷ rest) = if text_eq k key then some v else lookup_key key rest

-- A property by its name; a missing one is the zero value of `any`, which prints as "<nil>".
unfoldable pub property_of : Text → Option Scalar → OverrideProperty
unfolding qemu_property_value
property_of n none = record { name = n; kind = "string"; value = "<nil>" }
property_of n (some v) = record {
  name = n;
  kind = (qemu_property_value v).0;
  value = (qemu_property_value v).1;
}

unfoldable pub properties_of : List (Text × Scalar) → List OverrideProperty
unfolding property_of
properties_of props = map (λ n. property_of n (lookup_key n props)) (sort_strings (keys props))

unfoldable pub device_of : Text → Option (List (Text × Scalar)) → OverrideDevice
unfolding properties_of
device_of alias none = record { alias = alias; properties = [] }
device_of alias (some props) = record { alias = alias; properties = properties_of props }

unfoldable pub build_override : List (Text × List (Text × Scalar)) → Option (List OverrideDevice)
unfolding device_of
build_override [] = none
build_override (entry ∷ rest) =
    some (map (λ a. device_of a (lookup_key a (entry ∷ rest))) (sort_strings (keys (entry ∷ rest))))

unfoldable pub build_qemu_override : Option LibvirtDomain → Option (List OverrideDevice)
unfolding build_override
build_qemu_override none = none
build_qemu_override (some lv) = build_override lv.qemu_override

-- yesNoOrOmit
unfoldable pub yes_no_or_omit : Option Bool → String
yes_no_or_omit none = ""
yes_no_or_omit (some b) = if b then "yes" else "no"
