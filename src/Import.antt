-- ===== src/Import.antt =====
-- candy/plugin-vm/vm_import.go: the mapping of a libvirt domain, read from its XML, onto a VM spec.
-- The texts of the XML are ASCII where the code folds their case.
pub mod Ram
use plugin_vm.Base.{
  ℕ, ◌+◌, ◌*◌, ◌/◌, ◌%◌, ◌^◌, Bool, true, false, ◌&&◌, ◌||◌, not, Option, none, some, List, [], ◌∷◌,
  ◌++◌, String, ltb, leb, ◌==◌, is_nil, if◌then◌else◌, Outcome, ok, err,
}
use plugin_vm.Base.Int.{ℤ, pos, negsuc, neg, ltb_ℤ}
use plugin_vm.Base.Print.{itoa}
use plugin_vm.Base.Text.{Text, codes, text_eq}
use plugin_vm.Libvirt.Sockets.{after_prefix, contains_text}
use plugin_vm.Sizes.{times}

pub record MemoryForImport : Type 0 where
  pub unit : Text
  pub value : ℤ

pub record LoaderForImport : Type 0 where
  pub secure : Text
  pub path : Text

pub record DiskForImport : Type 0 where
  pub kind : Text
  pub device : Text
  pub driver_type : Text
  pub source_file : Text
  pub target_bus : Text

-- libvirtDomainXMLForImport; an interface is its type.
pub record DomainForImport : Type 0 where
  pub name : Text
  pub memory : MemoryForImport
  pub vcpu : ℤ
  pub machine : Text
  pub loader : Option LoaderForImport
  pub disks : List DiskForImport
  pub interfaces : List Text

pub record PrimaryDiskInfo : Type 0 where
  pub path : Text
  pub format : Text
  pub bus : Text

-- The fields of VmSpec that an import sets; `network` is the mode.
pub record ImportedSpec : Type 0 where
  pub ram : Text
  pub cpus : ℤ
  pub machine : Text
  pub firmware : String
  pub network : Option String
  pub libvirt_name : Text
  pub disk_path : Text
  pub disk_format : Text

pub data ImportError : Type 0 where
  name_required : ImportError
  plugin_failed : String → ImportError

to_lower : ℕ → ℕ
to_lower c = if leb b'A' c && leb c b'Z' then c + 32 else c

unfoldable pub lower : Text → Text
unfolding to_lower
lower [] = []
lower (c ∷ s) = to_lower c ∷ lower s

abbrev is_word : Text → String → Bool
is_word s word = text_eq s (codes word)

-- The first disk of a file, and one whose type or device is not given passes for one.
unfoldable pub map_disk_to_spec : List DiskForImport → PrimaryDiskInfo
unfolding lower
map_disk_to_spec [] = record { path = []; format = []; bus = [] }
map_disk_to_spec (d ∷ disks) =
    let later = map_disk_to_spec disks in
    if not (is_word d.device "disk") && not (is_nil d.device)
    then later
    else if not (is_word d.kind "file") && not (is_nil d.kind)
    then later
    else record { path = d.source_file; format = lower d.driver_type; bus = d.target_bus }

-- A unit that is not known counts as KiB.
unfoldable pub bytes_per_unit : Text → ℕ
unfolding lower
bytes_per_unit unit =
    let u = lower unit in
    if is_word u "mib" || is_word u "mb"
    then 2 ^ 20
    else if is_word u "gib" || is_word u "gb"
    then 2 ^ 30
    else if is_word u "b"
    then 1
    else 2 ^ 10

-- Division of an int64 rounds towards zero.
unfoldable pub ram_text : ℤ → Text
ram_text (pos n) =
    if ltb 0 (n / 2 ^ 30) && n % 2 ^ 30 == 0
    then codes (itoa (pos (n / 2 ^ 30))) ++ b'G' ∷ []
    else codes (itoa (pos (n / 2 ^ 20))) ++ b'M' ∷ []
ram_text (negsuc n) = codes (itoa (neg (pos ((n + 1) / 2 ^ 20)))) ++ b'M' ∷ []

unfoldable pub map_memory_to_spec : MemoryForImport → Text
unfolding bytes_per_unit ram_text
map_memory_to_spec m = ram_text (times m.value (bytes_per_unit m.unit))

unfoldable pub map_vcpu_to_spec : ℤ → ℤ
map_vcpu_to_spec n = if ltb_ℤ (pos 0) n then n else pos 0

abbrev starts_with : Text → Text → Bool
starts_with prefix s = elim (after_prefix prefix s) [ none ↦ false | some rest ↦ true ]

unfoldable pub normalize_imported_machine : Text → Text
unfolding lower contains_text after_prefix
normalize_imported_machine machine =
    let m = lower machine in
    if contains_text m (codes "q35")
    then codes "q35"
    else if contains_text m (codes "i440fx")
    then codes "i440fx"
    else if is_word m "virt"
    then codes "virt"
    else if is_word m "pc" || starts_with (codes "pc-") m
    then codes "pc"
    else []

unfoldable pub firmware_of : Option LoaderForImport → String
unfolding lower contains_text
firmware_of none = "bios"
firmware_of (some loader) =
    if contains_text (lower loader.path) (codes "secboot")
    then "uefi-secure"
    else if is_word loader.secure "yes"
    then "uefi-secure"
    else "uefi-insecure"

unfoldable pub map_network_to_spec : List Text → Option String
unfolding lower
map_network_to_spec [] = none
map_network_to_spec (kind ∷ _) =
    if is_word (lower kind) "user"
    then some "user"
    else if is_word (lower kind) "bridge"
    then some "bridge"
    else if is_word (lower kind) "network"
    then some "nat"
    else none

unfoldable pub spec_of_domain : DomainForImport → ImportedSpec
unfolding map_memory_to_spec map_vcpu_to_spec normalize_imported_machine firmware_of
    map_network_to_spec map_disk_to_spec
spec_of_domain domain =
    let disk = map_disk_to_spec domain.disks in
    record {
      ram = map_memory_to_spec domain.memory;
      cpus = map_vcpu_to_spec domain.vcpu;
      machine = normalize_imported_machine domain.machine;
      firmware = firmware_of domain.loader;
      network = map_network_to_spec domain.interfaces;
      libvirt_name = domain.name;
      disk_path = disk.path;
      disk_format = disk.format;
    }

-- strings.TrimPrefix
trim_prefix : Text → Text → Text
unfolding after_prefix
trim_prefix prefix s = elim (after_prefix prefix s) [ none ↦ s | some rest ↦ rest ]

abbrev name_or : Text → Text → Text
name_or [] fallback = fallback
name_or (c ∷ s) fallback = c ∷ s

-- The name of the entry: the one that is asked for, or that of the domain without its prefix.
unfoldable pub import_name : Text → Text → Text
unfolding trim_prefix
import_name target name = name_or target (name_or (trim_prefix (codes "charly-") name) name)

-- `read_domain` is the domain-xml operation with the XML decoder behind it; the time of the adoption
-- is left out.
unfoldable pub import_from_libvirt :
    (Text → Outcome String DomainForImport)
    → Text
    → Text
    → Outcome ImportError (Text × ImportedSpec)
unfolding import_name spec_of_domain
import_from_libvirt read_domain domain_name target =
    if is_nil domain_name then err name_required else elim (read_domain domain_name) [
      | err e ↦ err (plugin_failed e)
      | ok domain ↦ ok (import_name target domain.name, spec_of_domain domain)
    ]
