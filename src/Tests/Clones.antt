-- ===== src/Tests/Clones.antt =====
-- A clone of the snapshot "golden" of "arch"; the state is the time at which the overlay was made, 0
-- before.
use plugin_vm.Base.{◌≡◌, refl, if◌then◌else◌, str_eq, ℕ, true, none, some, String, Outcome, ok, err}
use plugin_vm.Clone.{
  CloneSpec, CloneSeams, StatError, not_exist, clone_disk_fresh, build_clone, check_source,
  find_parent, external_parent, guard_stale, materialize, count_reference, seed, build_from,
  counted, filled, in_dir, after_stale, after_disk, after_check, same_abs_path,
}
use plugin_vm.Clone.Built.{IsBuilt, build_clone-IsBuilt}

abbrev overlay_time : ℕ → Outcome StatError ℕ
overlay_time ℕ.zero = err not_exist
overlay_time (ℕ.suc n) = ok 2000000000

abbrev stat : ℕ → String → Outcome StatError ℕ
stat w path = if str_eq path "/snapshots/golden.qcow2" then ok 1500000000 else overlay_time w

abbrev seams : CloneSeams ℕ
seams = record {
  lookup_snapshot =
      λ w vm snap. ok record { mode = "external"; disk_path = "/snapshots/golden.qcow2" };
  promote_snapshot =
      λ vm snap w. (w, ok record { mode = "external"; disk_path = "/snapshots/golden.qcow2" });
  snapshot_backing_stale = λ w parent. ok "";
  vm_disk_dir = λ w name. ok "/image/clone";
  disk_path = λ dir. "/image/clone/disk.qcow2";
  mkdir_all = λ dir w. (w, none);
  stat = stat;
  qemu_img_info =
      λ w path. ok record { backing_file = ""; full_backing = "/snapshots/golden.qcow2" };
  abs_path = λ w path. some path;
  create_overlay = λ disk path w. (1, none);
  increment_refcount = λ vm snap w. (w, none);
  regenerate_seed = λ spec dir w. (w, none);
}

abbrev spec : CloneSpec
spec = record {
  source = record {
    kind = "clone";
    from_vm = "arch";
    from_snapshot = "golden";
    cloud_init_clean = true;
  };
  cloud_init = none;
  ssh = true;
}

build_clone-IsBuilt_example : IsBuilt seams "clone" spec 0 1
build_clone-IsBuilt_example = build_clone-IsBuilt seams "clone" spec 0 1 built
  where
    built : build_clone seams "clone" spec 0 ≡ (1, ok tt)
    built =
        unfold build_clone check_source after_check find_parent external_parent build_from
          after_disk guard_stale after_stale in_dir filled counted materialize clone_disk_fresh
          same_abs_path count_reference seed in
        refl

-- A second build leaves the overlay alone.
fresh : clone_disk_fresh seams 1 "/image/clone/disk.qcow2" "/snapshots/golden.qcow2" ≡ ok true
unfolding clone_disk_fresh same_abs_path
fresh = refl
