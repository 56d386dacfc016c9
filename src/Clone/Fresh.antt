-- ===== src/Clone/Fresh.antt =====
-- cloneDiskFresh: when an overlay may be left alone.
use plugin_vm.Base.{
  ◌≡◌, refl, ap, ◌↔◌, ℕ, Bool, true, false, ◌||◌, not, String, str_eq, if◌then◌else◌, Outcome, ok,
  err, ltb, ◌/◌, ◌≤◌, arith,
}
use plugin_vm.Clone.{
  CloneError, StatError, not_exist, stat_failed, DiskInfo, CloneSeams, same_abs_path, backing_of,
  not_newer, fresh_backing, fresh_stat, clone_disk_fresh,
}

fresh_cases :
    (b l n : Bool)
    → Path (Outcome CloneError Bool) (if b || not l then ok false else ok n) (ok true)
    → (b ≡ false) × (l ≡ true) × (n ≡ true)
fresh_cases true l n h = cc
fresh_cases false false n h = cc
fresh_cases false true n h = (refl, refl, cc)

le_not_newer : (a b : ℕ) → b ≤ a → not (ltb a b) ≡ true
le_not_newer a b h = ground arith

module _ {W : Type 0} (s : CloneSeams W) where
  -- The overlay exists, its backing file is the snapshot's disk, and that disk was not written in a
  -- later second than the overlay.
  pub record IsFresh (w : W) (clone_path snapshot_disk : String) : Type 0 where
    pub clone_time : ℕ
    pub disk_time : ℕ
    pub info : DiskInfo
    pub has_clone : s.stat w clone_path ≡ ok clone_time
    pub has_info : s.qemu_img_info w clone_path ≡ ok info
    pub has_backing : str_eq (backing_of s info) "" ≡ false
    pub is_linked : same_abs_path s w (backing_of s info) snapshot_disk ≡ true
    pub has_disk : s.stat w snapshot_disk ≡ ok disk_time
    pub in_time : disk_time / 1000000000 ≤ clone_time / 1000000000

  IsFresh-time :
      (w : W) (c d : String) (t : ℕ) (info : DiskInfo)
      → s.stat w c ≡ ok t
      → s.qemu_img_info w c ≡ ok info
      → str_eq (backing_of s info) "" ≡ false
      → same_abs_path s w (backing_of s info) d ≡ true
      → (r : Outcome StatError ℕ) → s.stat w d ≡ r
      → not_newer s t r ≡ true
      → IsFresh w c d
  unfolding not_newer
  IsFresh-time w c d t info has_clone has_info backing linked (err e) has_disk h = cc
  IsFresh-time w c d t info has_clone has_info backing linked (ok t') has_disk h = record {
    clone_time = t;
    disk_time = t';
    info = info;
    has_clone = has_clone;
    has_info = has_info;
    has_backing = backing;
    is_linked = linked;
    has_disk = has_disk;
    in_time = ground arith;
  }

  IsFresh-info :
      (w : W) (c d : String) (t : ℕ)
      → s.stat w c ≡ ok t
      → (r : Outcome String DiskInfo) → s.qemu_img_info w c ≡ r
      → fresh_backing s w d t r ≡ ok true
      → IsFresh w c d
  unfolding fresh_backing
  IsFresh-info w c d t has_clone (err e) has_info h = cc
  IsFresh-info w c d t has_clone (ok info) has_info h =
      let found =
        fresh_cases (str_eq (backing_of s info) "") (same_abs_path s w (backing_of s info) d)
          (not_newer s t (s.stat w d)) h in
      IsFresh-time w c d t info has_clone has_info found.0 found.1 _ refl found.2

  IsFresh-found :
      (w : W) (c d : String) (r : Outcome StatError ℕ)
      → s.stat w c ≡ r
      → fresh_stat s w c d r ≡ ok true
      → IsFresh w c d
  unfolding fresh_stat
  IsFresh-found w c d (err not_exist) e h = cc
  IsFresh-found w c d (err (stat_failed x)) e h = cc
  IsFresh-found w c d (ok t) e h = IsFresh-info w c d t e _ refl h

  -- The probe says fresh exactly for an overlay that exists, whose backing file is the snapshot's
  -- disk, and that was not written in an earlier second than that disk.
  pub clone_disk_fresh-IsFresh :
      (w : W) (c d : String) → (clone_disk_fresh s w c d ≡ ok true) ↔ IsFresh w c d
  unfolding clone_disk_fresh fresh_stat fresh_backing not_newer
  clone_disk_fresh-IsFresh w c d = (
    IsFresh-found w c d _ refl,
    λ f.
        rw (f.has_clone, f.has_info, f.has_backing, f.is_linked, f.has_disk)
          (ap ok (le_not_newer _ _ f.in_time)),
  )
