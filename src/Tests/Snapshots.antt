-- ===== src/Tests/Snapshots.antt =====
-- Snapshots on a host whose state is the mode of the snapshot's file.
use plugin_vm.Base.{
  ◌≡◌, refl, ℕ, Bool, true, false, ◌&&◌, not, none, some, [], ◌∷◌, String, if◌then◌else◌, ok, err,
}
use plugin_vm.Snapshot.{create_failed, SnapshotCreateOpts, SnapshotEntry, SnapshotSeams}
use plugin_vm.Snapshot.External.{
  Run, desc_of, flags_of, create_external_snapshot, first_disk_target_dev, make_snapshot_writable,
  make_snapshot_read_only,
}
use plugin_vm.Snapshot.Consistent.{create_consistent_snapshot}
use plugin_vm.Snapshot.Strict.{
  IsReady, create_external_snapshot-strict, create_external_snapshot-left_writable,
}
use plugin_vm.Snapshot.Composite.{Requests, create_consistent_snapshot-Requests}

-- A host with one disk; a create call with the quiesce flag succeeds if there is an agent.
abbrev host : Bool → SnapshotSeams ℕ (Unit {0}) (Unit {0})
host agent = record {
  chmod = λ path mode w. (mode, none);
  connect = λ w. none;
  lookup_domain = λ w name. ok tt;
  domain_running = λ w dom. ok true;
  domain_disks = λ w dom.
      ok (record { device = "disk"; source_file = "/vm/disk.qcow2"; target_dev = "vda" } ∷ []);
  snapshot_create_xml =
      λ dom desc flags w. (w, if flags.quiesce && not agent then some "no agent" else none);
  snapshot_lookup = λ w dom name. ok tt;
  snapshot_delete = λ snap w. (w, none);
  revert_to_snapshot = λ snap w. (w, none);
  ping_agent = λ w dom. if agent then none else some "no agent";
}

abbrev golden : SnapshotCreateOpts
golden = record {
  vm_name = "arch";
  snap_name = "golden";
  mode = "external";
  description = "";
  quiesce = true;
}

abbrev file : String
file = "/snapshots/golden/disk.qcow2"

create_external_snapshot-strict_example :
    (w₁ w₂ : ℕ) × (dom : Unit {0}) × (target : String) × IsReady
      (host true)
      golden
      file
      0
      w₁
      dom
      target
    × ((host true).snapshot_create_xml dom (desc_of golden target file) (flags_of true) w₁
        ≡ (w₂, none))
    × (make_snapshot_read_only (host true) file w₂ ≡ (0o444, ok tt))
create_external_snapshot-strict_example =
    create_external_snapshot-strict (host true) golden file 0 0o444 captured
  where
    captured : create_external_snapshot (host true) true golden file 0 ≡ (0o444, ok tt)
    captured =
        unfold create_external_snapshot make_snapshot_writable make_snapshot_read_only
          first_disk_target_dev in
        refl

abbrev mode_of : ℕ → String → ℕ
mode_of w path = w

create_external_snapshot-left_writable_example : mode_of 0o644 file ≡ 0o644
create_external_snapshot-left_writable_example =
    create_external_snapshot-left_writable (host false) golden file mode_of 0 0o644 0o644
      (λ path m w w' e. cc) (λ dom desc flags w w' r e. cc) refl refl (λ dom desc w w' e. cc)
      captured
  where
    captured : create_external_snapshot (host false) false golden file 0 ≡ (0o644, ok tt)
    captured =
        unfold create_external_snapshot make_snapshot_writable make_snapshot_read_only
          first_disk_target_dev in
        refl

-- The strict flag fails where the best-effort call falls back.
strict_fails :
    create_external_snapshot (host false) true golden file 0
    ≡ (0o644, err (create_failed "no agent"))
unfolding create_external_snapshot make_snapshot_writable first_disk_target_dev
strict_fails = refl

abbrev create_snapshot : Bool → SnapshotCreateOpts → ℕ → Run (host true) SnapshotEntry
create_snapshot strict opts w = (
  w,
  ok record {
    name = opts.snap_name;
    libvirt_name = opts.snap_name;
    mode = if opts.quiesce then "quiesced" else "plain";
  },
)

create_consistent_snapshot-Requests_example :
    Requests
      (host true)
      create_snapshot
      golden
      0
      (create_consistent_snapshot (host true) create_snapshot golden 0)
create_consistent_snapshot-Requests_example =
    create_consistent_snapshot-Requests (host true) create_snapshot golden 0 refl refl
