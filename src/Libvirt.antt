-- ===== src/Libvirt.antt =====
-- candy/plugin-vm/vm_libvirt.go: the operations on a domain that more than one remote call makes up,
-- over the calls themselves, each of which is bounded (Bounded).
pub mod Sockets
pub mod Bounded
pub mod Ops
pub mod Stopping
pub mod Starting
use plugin_vm.Base.{
  ℕ, Bool, true, false, ◌||◌, not, Option, none, some, List, [], ◌∷◌, ◌++◌, String, if◌then◌else◌,
  Outcome, ok, err,
}
use plugin_vm.Base.Int.{ℤ, pos, ltb_ℤ}
use plugin_vm.Base.Text.{Text, codes, text_eq}
use plugin_vm.Snapshot.{
  SnapshotError, socket_dirs_failed, domain_start_failed, domain_define_failed, SnapshotSeams,
  DiskXml,
}
use plugin_vm.Snapshot.External.{with_snapshot_writable, first_disk_source_file}
use plugin_vm.Libvirt.Sockets.{
  contains_text, extract_graphics_socket_paths, extract_channel_socket_paths,
}

-- libvirt.DomainState
pub data DomainState : Type 0 where
  nostate running blocked paused shutdown shutoff crashed pmsuspended : DomainState
  unknown_state : ℕ → DomainState

abbrev pub is_running : DomainState → Bool
is_running running = true
is_running _ = false

abbrev pub is_shutoff : DomainState → Bool
is_shutoff shutoff = true
is_shutoff _ = false

unfoldable pub domain_state_string : DomainState → String
domain_state_string running = "running"
domain_state_string shutoff = "shut off"
domain_state_string paused = "paused"
domain_state_string shutdown = "shutting down"
domain_state_string crashed = "crashed"
domain_state_string pmsuspended = "suspended"
domain_state_string _ = "unknown"

-- The remote calls beside those of the snapshots, filepath.Dir, os.MkdirAll, and sdk's pollUntil: it
-- waits until a test passes, and says whether it did before the deadline.
pub record LibvirtSeams (W Dom Snap : Type 0) : Type 0 where
  pub snapshots : SnapshotSeams W Dom Snap
  pub open snapshots use *
  pub get_state : W → Dom → Outcome String DomainState
  pub domain_xml : W → Dom → Outcome String Text
  pub shutdown_domain : Dom → W → W × Option String
  pub destroy_domain : Dom → W → W × Option String
  pub create_domain : Dom → W → W × Option String
  pub define_domain : Text → W → W × Outcome String Dom
  pub undefine_domain : Dom → W → W × Option String
  pub snapshot_num : W → Dom → Outcome String ℤ
  pub snapshot_names : W → Dom → ℤ → Outcome String (List String)
  pub parent_dir : Text → Text
  pub mkdir_all : Text → W → W × Option String
  pub poll_until : (W → Bool) → W → W × Bool

-- isSnapshotDisk
unfoldable pub is_snapshot_disk : String → Bool
unfolding contains_text
is_snapshot_disk path = contains_text (codes path) (codes "/snapshots/")

module _ {W Dom Snap : Type 0} (l : LibvirtSeams W Dom Snap) where
  abbrev pub LibvirtRun : Type 0 → Type 0
  LibvirtRun A = W × Outcome SnapshotError A

  -- What a test reads from the state of a domain: an error fails it.
  abbrev pub reads : (DomainState → Bool) → Outcome String DomainState → Bool
  reads test (err e) = false
  reads test (ok st) = test st

  abbrev pub waited : W × Bool → W
  waited (w, passed) = w

  abbrev pub off_at : Dom → W → Bool
  off_at dom v = reads is_shutoff (l.get_state v dom)

  unfoldable pub asked_to_stop : Dom → W × Option String → W
  asked_to_stop dom (w, some e) = w
  asked_to_stop dom (w, none) = waited (l.poll_until (off_at dom) w)

  unfoldable pub forced_off : Dom → W → Outcome String DomainState → W
  forced_off dom w (err e) = w
  forced_off dom w (ok st) = if is_shutoff st then w else (l.destroy_domain dom w).0

  unfoldable pub stop_from : Dom → W → DomainState → W
  unfolding asked_to_stop forced_off
  stop_from dom w st =
      let w' = if is_running st then asked_to_stop dom (l.shutdown_domain dom w) else w in
      if is_shutoff st then w else forced_off dom w' (l.get_state w' dom)

  unfoldable pub graceful_stop_at : Dom → W → Outcome String DomainState → W
  unfolding stop_from
  graceful_stop_at dom w (err e) = w
  graceful_stop_at dom w (ok st) = stop_from dom w st

  unfoldable pub graceful_stop_domain : Dom → W → W
  unfolding graceful_stop_at
  graceful_stop_domain dom w = graceful_stop_at dom w (l.get_state w dom)

  -- removeDomainSnapshots: an error ends it, or skips the snapshot.
  delete_looked_up : W → Outcome String Snap → W
  delete_looked_up w (err e) = w
  delete_looked_up w (ok snap) = (l.snapshot_delete snap w).0

  unfoldable pub delete_each : Dom → List String → W → W
  unfolding delete_looked_up
  delete_each dom [] w = w
  delete_each dom (name ∷ names) w =
      delete_each dom names (delete_looked_up w (l.snapshot_lookup w dom name))

  delete_named : Dom → W → Outcome String (List String) → W
  unfolding delete_each
  delete_named dom w (err e) = w
  delete_named dom w (ok names) = delete_each dom names w

  delete_counted : Dom → W → Outcome String ℤ → W
  unfolding delete_named
  delete_counted dom w (err e) = w
  delete_counted dom w (ok n) =
      if ltb_ℤ (pos 0) n then delete_named dom w (l.snapshot_names w dom n) else w

  unfoldable pub remove_domain_snapshots : Dom → W → W
  unfolding delete_counted
  remove_domain_snapshots dom w = delete_counted dom w (l.snapshot_num w dom)

  -- The directories that need not be made.
  abbrev pub is_plain_dir : Text → Bool
  is_plain_dir dir = text_eq dir [] || text_eq dir (codes ".") || text_eq dir (codes "/")

  made : LibvirtRun (Unit {0}) → (W → LibvirtRun (Unit {0})) → LibvirtRun (Unit {0})
  made (w, err e) next = (w, err e)
  made (w, ok _) next = next w

  mkdir_result : W × Option String → LibvirtRun (Unit {0})
  mkdir_result (w, none) = (w, ok tt)
  mkdir_result (w, some e) = (w, err (socket_dirs_failed e))

  unfoldable pub make_dirs : List Text → W → LibvirtRun (Unit {0})
  unfolding made mkdir_result
  make_dirs [] w = (w, ok tt)
  make_dirs (path ∷ paths) w =
      if is_plain_dir (l.parent_dir path)
      then make_dirs paths w
      else made (mkdir_result (l.mkdir_all (l.parent_dir path) w)) (λ v. make_dirs paths v)

  dirs_of : W → Outcome String Text → LibvirtRun (Unit {0})
  unfolding make_dirs extract_graphics_socket_paths extract_channel_socket_paths
  dirs_of w (err e) = (w, err (socket_dirs_failed e))
  dirs_of w (ok xml) =
      make_dirs (extract_graphics_socket_paths xml ++ extract_channel_socket_paths xml) w

  unfoldable pub ensure_domain_socket_dirs : Dom → W → LibvirtRun (Unit {0})
  unfolding dirs_of
  ensure_domain_socket_dirs dom w = dirs_of w (l.domain_xml w dom)

  create_result : W × Option String → LibvirtRun (Unit {0})
  create_result (w, none) = (w, ok tt)
  create_result (w, some e) = (w, err (domain_start_failed e))

  unfoldable pub created : Dom → LibvirtRun (Unit {0}) → LibvirtRun (Unit {0})
  unfolding create_result
  created dom (w, err e) = (w, err e)
  created dom (w, ok _) = create_result (l.create_domain dom w)

  unfoldable pub start_domain : Dom → W → LibvirtRun (Unit {0})
  unfolding created ensure_domain_socket_dirs
  start_domain dom w = created dom (ensure_domain_socket_dirs dom w)

  -- activeDiskPath as the start operation uses it: an error leaves the path empty.
  path_or_empty : Outcome SnapshotError String → String
  path_or_empty (err e) = ""
  path_or_empty (ok path) = path

  disk_of : Outcome String (List DiskXml) → String
  unfolding path_or_empty
  disk_of (err e) = ""
  disk_of (ok disks) = path_or_empty (first_disk_source_file disks)

  unfoldable pub active_disk_path : W → Dom → String
  unfolding disk_of
  active_disk_path w dom = disk_of (l.domain_disks w dom)

  -- A domain of the name that is there already is stopped and undefined, whatever these calls say.
  undefine_stale : W → Outcome String Dom → W
  unfolding forced_off
  undefine_stale w (err e) = w
  undefine_stale w (ok dom) = (l.undefine_domain dom (forced_off dom w (l.get_state w dom))).0

  start_defined : W × Outcome String Dom → LibvirtRun (Unit {0})
  unfolding start_domain
  start_defined (w, err e) = (w, err (domain_define_failed e))
  start_defined (w, ok dom) = start_domain dom w

  -- `none` stands for the empty name.
  unfoldable pub define_and_start_domain : Text → Option String → W → LibvirtRun (Unit {0})
  unfolding undefine_stale start_defined
  define_and_start_domain xml none w = start_defined (l.define_domain xml w)
  define_and_start_domain xml (some name) w =
      start_defined (l.define_domain xml (undefine_stale w (l.lookup_domain w name)))
