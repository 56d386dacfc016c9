-- ===== src/Snapshot.antt =====
-- candy/plugin-vm/vm_snapshot_libvirt.go and vm_snapshot_composites.go: external snapshots through
-- libvirt, and the consistent snapshot.
-- The host is a state `W`; the calls of libvirt, of the guest agent and of the file system are the
-- fields of `SnapshotSeams`.
pub mod External
pub mod Consistent
pub mod Strict
pub mod Composite
use plugin_vm.Base.{
  ℕ, Bool, true, false, ◌&&◌, not, Option, none, some, List, [], ◌∷◌, String, str_eq, if◌then◌else◌,
  Outcome, ok, err,
}

pub data SnapshotError : Type 0 where
  chmod_writable_failed chmod_read_only_failed : String → String → SnapshotError
  connect_failed : String → SnapshotError
  domain_lookup_failed : String → String → SnapshotError
  domain_xml_failed : String → SnapshotError
  no_disk_target no_disk_source : SnapshotError
  create_failed : String → SnapshotError
  create_failed_after_fallback : String → SnapshotError
  snapshot_lookup_failed : String → String → SnapshotError
  revert_failed delete_failed : String → String → SnapshotError
  vm_name_required snapshot_name_required internal_needs_stopped : SnapshotError
  agent_unreachable : String → SnapshotError
  store_failed : String → SnapshotError
  socket_dirs_failed domain_start_failed domain_define_failed : String → SnapshotError

pub record SnapshotCreateOpts : Type 0 where
  pub vm_name : String
  pub snap_name : String
  pub mode : String
  pub description : String
  pub quiesce : Bool

pub record SnapshotEntry : Type 0 where
  pub name : String
  pub libvirt_name : String
  pub mode : String

-- The disks of a domain's XML, in its order.
pub record DiskXml : Type 0 where
  pub device : String
  pub source_file : String
  pub target_dev : String

-- The snapshot's XML: one external qcow2 disk.
pub record SnapshotXmlDesc : Type 0 where
  pub name : String
  pub description : String
  pub disk_name : String
  pub file : String

-- The three libvirt flags that are combined by bit operations, each by itself.
pub record CreateFlags : Type 0 where
  pub disk_only : Bool
  pub quiesce : Bool
  pub atomic : Bool

pub data ChmodError : Type 0 where
  not_exist : ChmodError
  denied : String → ChmodError

-- `domain_disks` is getDomainXML with the parse of its disks: the two errors are one here.
pub record SnapshotSeams (W Dom Snap : Type 0) : Type 0 where
  pub chmod : String → ℕ → W → W × Option ChmodError
  pub connect : W → Option String
  pub lookup_domain : W → String → Outcome String Dom
  pub domain_running : W → Dom → Outcome String Bool
  pub domain_disks : W → Dom → Outcome String (List DiskXml)
  pub snapshot_create_xml : Dom → SnapshotXmlDesc → CreateFlags → W → W × Option String
  pub snapshot_lookup : W → Dom → String → Outcome String Snap
  pub snapshot_delete : Snap → W → W × Option String
  pub revert_to_snapshot : Snap → W → W × Option String
  pub ping_agent : W → Dom → Option String
