-- ===== src/Snapshot/External.antt =====
-- createExternalSnapshot, revertExternalSnapshot and deleteExternalSnapshot.
use plugin_vm.Base.{
  Bool, true, false, ◌&&◌, not, Option, none, some, List, [], ◌∷◌, String, str_eq, if◌then◌else◌,
  Outcome, ok, err,
}
use plugin_vm.Base.Print.{◌<>◌}
use plugin_vm.Snapshot.{
  SnapshotError, chmod_writable_failed, chmod_read_only_failed, connect_failed,
  domain_lookup_failed, domain_xml_failed, no_disk_target, no_disk_source, create_failed,
  create_failed_after_fallback, snapshot_lookup_failed, revert_failed, delete_failed,
  SnapshotCreateOpts, SnapshotEntry, DiskXml, SnapshotXmlDesc, CreateFlags, ChmodError, not_exist,
  denied, SnapshotSeams,
}

-- The first disk with a target device, whatever kind of disk it is.
unfoldable pub first_disk_target_dev : List DiskXml → Outcome SnapshotError String
first_disk_target_dev [] = err no_disk_target
first_disk_target_dev (d ∷ disks) =
    let rest = first_disk_target_dev disks in
    if str_eq d.target_dev "" then rest else ok d.target_dev

-- The first disk of device `disk` with a source file.
unfoldable pub first_disk_source_file : List DiskXml → Outcome SnapshotError String
first_disk_source_file [] = err no_disk_source
first_disk_source_file (d ∷ disks) =
    let rest = first_disk_source_file disks in
    if str_eq d.device "disk" && not (str_eq d.source_file "") then ok d.source_file else rest

abbrev pub desc_of : SnapshotCreateOpts → String → String → SnapshotXmlDesc
desc_of opts target out_file = record {
  name = opts.snap_name;
  description = opts.description;
  disk_name = target;
  file = out_file;
}

abbrev pub flags_of : Bool → CreateFlags
flags_of quiesce = record { disk_only = true; quiesce = quiesce; atomic = true }

module _ {W Dom Snap : Type 0} (s : SnapshotSeams W Dom Snap) where
  abbrev pub Run : Type 0 → Type 0
  Run A = W × Outcome SnapshotError A

  unfoldable pub writable_result : String → W × Option ChmodError → Run (Unit {0})
  writable_result path (w, none) = (w, ok tt)
  writable_result path (w, some not_exist) = (w, ok tt)
  writable_result path (w, some (denied e)) = (w, err (chmod_writable_failed path e))

  unfoldable pub make_snapshot_writable : String → W → Run (Unit {0})
  unfolding writable_result
  make_snapshot_writable path w = writable_result path (s.chmod path 0o644 w)

  unfoldable pub read_only_result : String → W × Option ChmodError → Run (Unit {0})
  read_only_result path (w, none) = (w, ok tt)
  read_only_result path (w, some not_exist) = (w, err (chmod_read_only_failed path "not exist"))
  read_only_result path (w, some (denied e)) = (w, err (chmod_read_only_failed path e))

  unfoldable pub make_snapshot_read_only : String → W → Run (Unit {0})
  unfolding read_only_result
  make_snapshot_read_only path w = read_only_result path (s.chmod path 0o444 w)

  unfoldable pub fallback_result : W × Option String → Run (Unit {0})
  fallback_result (w, none) = (w, ok tt)
  fallback_result (w, some e) = (w, err (create_failed_after_fallback e))

  -- What follows the first create call: a retry without the flag, an error, or the read-only mode.
  unfoldable pub after_create :
      Bool → Dom → SnapshotXmlDesc → Bool → W × Option String → Run (Unit {0})
  unfolding fallback_result
  after_create strict dom desc quiesce (w, some e) =
      if quiesce && not strict
      then fallback_result (s.snapshot_create_xml dom desc (flags_of false) w)
      else (w, err (create_failed e))
  after_create strict dom desc quiesce (w, none) = make_snapshot_read_only desc.file w

  unfoldable pub create_on :
      Bool → SnapshotCreateOpts → String → Dom → W → Outcome SnapshotError String → Run (Unit {0})
  unfolding after_create
  create_on strict opts out_file dom w (err e) = (w, err e)
  create_on strict opts out_file dom w (ok target) =
      after_create strict dom (desc_of opts target out_file) opts.quiesce
        (s.snapshot_create_xml dom (desc_of opts target out_file) (flags_of opts.quiesce) w)

  unfoldable pub with_disks :
      Bool → SnapshotCreateOpts → String → Dom → W → Outcome String (List DiskXml) → Run (Unit {0})
  unfolding create_on
  with_disks strict opts out_file dom w (err e) = (w, err (domain_xml_failed e))
  with_disks strict opts out_file dom w (ok disks) =
      create_on strict opts out_file dom w (first_disk_target_dev disks)

  unfoldable pub with_domain :
      Bool → SnapshotCreateOpts → String → W → Outcome String Dom → Run (Unit {0})
  unfolding with_disks
  with_domain strict opts out_file w (err e) =
      (w, err (domain_lookup_failed ("charly-" <> opts.vm_name) e))
  with_domain strict opts out_file w (ok dom) =
      with_disks strict opts out_file dom w (s.domain_disks w dom)

  unfoldable pub connected : Bool → SnapshotCreateOpts → String → W → Option String → Run (Unit {0})
  unfolding with_domain
  connected strict opts out_file w (some e) = (w, err (connect_failed e))
  connected strict opts out_file w none =
      with_domain strict opts out_file w (s.lookup_domain w ("charly-" <> opts.vm_name))

  unfoldable pub writable : Bool → SnapshotCreateOpts → String → Run (Unit {0}) → Run (Unit {0})
  unfolding connected
  writable strict opts out_file (w, err e) = (w, err e)
  writable strict opts out_file (w, ok _) = connected strict opts out_file w (s.connect w)

  -- `strict` is the value of the flag `strictQuiesce` during the call.
  unfoldable pub create_external_snapshot : Bool → SnapshotCreateOpts → String → W → Run (Unit {0})
  unfolding writable
  create_external_snapshot strict opts out_file w =
      writable strict opts out_file (make_snapshot_writable out_file w)

  abbrev libvirt_name_of : SnapshotEntry → String
  libvirt_name_of entry = if str_eq entry.libvirt_name "" then entry.name else entry.libvirt_name

  unfoldable pub reverted : String → W × Option String → Run (Unit {0})
  reverted name (w, none) = (w, ok tt)
  reverted name (w, some e) = (w, err (revert_failed name e))

  unfoldable pub revert_found : String → W → Outcome String Snap → Run (Unit {0})
  unfolding reverted
  revert_found name w (err e) = (w, err (snapshot_lookup_failed name e))
  revert_found name w (ok snap) = reverted name (s.revert_to_snapshot snap w)

  unfoldable pub revert_domain : String → SnapshotEntry → W → Outcome String Dom → Run (Unit {0})
  unfolding revert_found
  revert_domain dom_name entry w (err e) = (w, err (domain_lookup_failed dom_name e))
  revert_domain dom_name entry w (ok dom) =
      revert_found (libvirt_name_of entry) w (s.snapshot_lookup w dom (libvirt_name_of entry))

  unfoldable pub revert_external_snapshot : String → SnapshotEntry → W → Run (Unit {0})
  unfolding revert_domain
  revert_external_snapshot vm_name entry w = elim (s.connect w) [
    | some e ↦ (w, err (connect_failed e))
    | none ↦ revert_domain ("charly-" <> vm_name) entry w (s.lookup_domain w ("charly-" <> vm_name))
  ]

  unfoldable pub deleted : String → W × Option String → Run (Unit {0})
  deleted name (w, none) = (w, ok tt)
  deleted name (w, some e) = (w, err (delete_failed name e))

  -- A connection, a domain or a snapshot that is not there is only noted: the files are cleaned up
  -- all the same.
  unfoldable pub delete_found : String → W → Outcome String Snap → Run (Unit {0})
  unfolding deleted
  delete_found name w (err e) = (w, ok tt)
  delete_found name w (ok snap) = deleted name (s.snapshot_delete snap w)

  unfoldable pub delete_domain : SnapshotEntry → W → Outcome String Dom → Run (Unit {0})
  unfolding delete_found
  delete_domain entry w (err e) = (w, ok tt)
  delete_domain entry w (ok dom) =
      delete_found (libvirt_name_of entry) w (s.snapshot_lookup w dom (libvirt_name_of entry))

  unfoldable pub delete_external_snapshot : String → SnapshotEntry → W → Run (Unit {0})
  unfolding delete_domain
  delete_external_snapshot vm_name entry w = elim (s.connect w) [
    | some e ↦ (w, ok tt)
    | none ↦ delete_domain entry w (s.lookup_domain w ("charly-" <> vm_name))
  ]

  -- The keeper-restart dance: the disk is made writable for `f`, and read-only again after it,
  -- whatever `f` returns.
  unfoldable pub restored : Outcome SnapshotError (Unit {0}) → Run (Unit {0}) → Run (Unit {0})
  restored result (w, _) = (w, result)

  unfoldable pub dance : String → (W → Run (Unit {0})) → Run (Unit {0}) → Run (Unit {0})
  unfolding restored
  dance path f (w, err e) = (w, err e)
  dance path f (w, ok _) =
      let (w', result) = f w in restored result (make_snapshot_read_only path w')

  unfoldable pub with_snapshot_writable : String → (W → Run (Unit {0})) → W → Run (Unit {0})
  unfolding dance
  with_snapshot_writable path f w = dance path f (make_snapshot_writable path w)
