-- ===== src/Virtiofs.antt =====
-- candy/plugin-vm/libvirt_yaml_bridge.go: shared memory and the id map of virtiofs shares.
-- The records stand for libvirtxml's structs, with the fields that the code reads and sets; a
-- share's `driver` is the type of its driver, where it has one.
pub mod IdMap
pub mod Shares
use plugin_vm.Base.{
  ◌≡◌, ℕ, Bool, true, false, ◌&&◌, ◌||◌, not, Option, none, some, List, [], ◌∷◌, String, str_eq,
  if◌then◌else◌, map, is_some, suc, ◌+◌, ◌-◌, ◌<◌, leb, ltb,
}
use plugin_vm.Base.Int.{ℤ, pos, negsuc, ◌+ℤ◌, ◌-ℤ◌, wrap64, uint, ltb_ℤ}
use plugin_vm.Base.Text.{Text, codes, split, trim_space, text_eq, atoi}
use plugin_vm.Base.Print.{itoa}

pub record IdMapEntry : Type 0 where
  pub start : ℕ
  pub target : ℕ
  pub count : ℕ

pub record FilesystemIdMap : Type 0 where
  pub uid : List IdMapEntry
  pub gid : List IdMapEntry

pub record XmlFilesystem : Type 0 where
  pub driver : Option String
  pub access_mode : String
  pub id_map : Option FilesystemIdMap

pub record MemoryBacking : Type 0 where
  pub memory_source : Option String
  pub memory_access : Option String

pub record XmlDevices : Type 0 where
  pub filesystems : List XmlFilesystem
  pub video_blobs : List String

pub record XmlDomain : Type 0 where
  pub devices : Option XmlDevices
  pub memory_backing : Option MemoryBacking

unfoldable pub is_virtiofs : Option String → Bool
is_virtiofs none = false
is_virtiofs (some kind) = str_eq kind "virtiofs"

unfoldable pub any_virtiofs : List XmlFilesystem → Bool
unfolding is_virtiofs
any_virtiofs [] = false
any_virtiofs (fs ∷ rest) = is_virtiofs fs.driver || any_virtiofs rest

unfoldable pub any_blob : List String → Bool
any_blob [] = false
any_blob (blob ∷ rest) = str_eq blob "on" || any_blob rest

unfoldable pub shares_memory : XmlDevices → Bool
shares_memory d = any_virtiofs d.filesystems || any_blob d.video_blobs

abbrev pub or_default : Option String → String → Option String
or_default none d = some d
or_default (some s) d = some s

unfoldable pub fill_backing : Option MemoryBacking → MemoryBacking
fill_backing none = record { memory_source = some "memfd"; memory_access = some "shared" }
fill_backing (some b) = record b {
  memory_source = or_default b.memory_source "memfd";
  memory_access = or_default b.memory_access "shared";
}

unfoldable pub backed : XmlDomain → Option XmlDevices → XmlDomain
unfolding shares_memory fill_backing
backed d none = d
backed d (some devices) =
    if shares_memory devices
    then record d { memory_backing = some (fill_backing d.memory_backing) }
    else d

unfoldable pub ensure_shared_memory_backing : XmlDomain → XmlDomain
unfolding backed
ensure_shared_memory_backing d = backed d d.devices

-- A passthrough virtiofs share without an id map.
unfoldable pub wants_id_map : XmlFilesystem → Bool
unfolding is_virtiofs
wants_id_map fs =
    is_virtiofs fs.driver
    && (str_eq fs.access_mode "" || str_eq fs.access_mode "passthrough")
    && not (is_some fs.id_map)

unfoldable pub any_wants : List XmlFilesystem → Bool
any_wants [] = false
any_wants (fs ∷ rest) = wants_id_map fs || any_wants rest

unfoldable pub has_unmapped : Option XmlDevices → Bool
unfolding any_wants
has_unmapped none = false
has_unmapped (some d) = any_wants d.filesystems

unfoldable pub domain_has_unmapped_passthrough_virtiofs : XmlDomain → Bool
unfolding has_unmapped
domain_has_unmapped_passthrough_virtiofs d = has_unmapped d.devices

unfoldable pub set_id_map : FilesystemIdMap → XmlFilesystem → XmlFilesystem
set_id_map m fs = if wants_id_map fs then record fs { id_map = some m } else fs

unfoldable pub set_devices : FilesystemIdMap → XmlDomain → Option XmlDevices → XmlDomain
unfolding set_id_map
set_devices m d none = d
set_devices m d (some devices) = record d {
  devices = some (record devices { filesystems = map (set_id_map m) devices.filesystems });
}

unfoldable pub apply_virtiofs_idmap :
    XmlDomain → Option (List IdMapEntry) → Option (List IdMapEntry) → XmlDomain
unfolding set_devices
apply_virtiofs_idmap d (some uid_map) (some gid_map) =
    set_devices record { uid = uid_map; gid = gid_map } d d.devices
apply_virtiofs_idmap d _ _ = d

unfoldable pub guest_owner_id_map : ℤ → ℤ → ℤ → ℤ → Option (List IdMapEntry)
guest_owner_id_map guest_id host_id sub_start sub_count =
    if ltb_ℤ guest_id (pos 1) || not (ltb_ℤ guest_id sub_count) || ltb_ℤ sub_start (pos 0)
    then none
    else some (
        record { start = 0; target = uint sub_start; count = uint guest_id }
        ∷ record { start = uint guest_id; target = uint host_id; count = 1 }
        ∷ record {
          start = uint (wrap64 (guest_id +ℤ pos 1));
          target = uint (wrap64 (sub_start +ℤ guest_id));
          count = uint (wrap64 (sub_count -ℤ guest_id));
        }
        ∷ [])

sub_id_values : Option ℤ → Option ℤ → Option (ℤ × ℤ) → Option (ℤ × ℤ)
sub_id_values (some s) (some c) rest = if ltb_ℤ (pos 0) c then some (s, c) else rest
sub_id_values _ _ rest = rest

sub_id_fields : Text → Text → List Text → Option (ℤ × ℤ) → Option (ℤ × ℤ)
unfolding sub_id_values
sub_id_fields username uid (f0 ∷ f1 ∷ f2 ∷ []) rest =
    if not (text_eq f0 username) && not (text_eq f0 uid)
    then rest
    else sub_id_values (atoi f1) (atoi f2) rest
sub_id_fields username uid _ rest = rest

unfoldable pub sub_id_lines : Text → Text → List Text → Option (ℤ × ℤ)
unfolding sub_id_fields
sub_id_lines username uid [] = none
sub_id_lines username uid (line ∷ lines) =
    sub_id_fields username uid (split 58 (trim_space line)) (sub_id_lines username uid lines)

-- The first line for the user, by name or by number; `none` is also an unreadable file.
unfoldable pub sub_id_range : Option Text → Text → ℤ → Option (ℤ × ℤ)
unfolding sub_id_lines
sub_id_range none username uid = none
sub_id_range (some file) username uid = sub_id_lines username (codes (itoa uid)) (split 10 file)

maps_of : XmlDomain → ℤ → ℤ → Option (ℤ × ℤ) → Option (ℤ × ℤ) → XmlDomain
maps_of d host_uid host_gid (some (us, uc)) (some (gs, gc)) =
    apply_virtiofs_idmap d (guest_owner_id_map (pos 1000) host_uid us uc)
      (guest_owner_id_map (pos 1000) host_gid gs gc)
maps_of d host_uid host_gid _ _ = d

-- The user's name and numbers, and the two files of subordinate ids, come from the host.
unfoldable pub ensure_virtiofs_idmap :
    Text → ℤ → ℤ → Option Text → Option Text → XmlDomain → XmlDomain
unfolding maps_of
ensure_virtiofs_idmap username host_uid host_gid subuid subgid d =
    if domain_has_unmapped_passthrough_virtiofs d
    then maps_of d host_uid host_gid (sub_id_range subuid username host_uid)
        (sub_id_range subgid username host_gid)
    else d
