-- ===== src/Clone.antt =====
-- candy/plugin-vm/vm_clone.go: building the disk of a clone from a snapshot.
-- The snapshot registry (`vmshared`), qemu-img, the seed image and the file system are the fields of
-- `CloneSeams` over the host's state; times are nanoseconds.
pub mod Fresh
pub mod External
pub mod Built
use plugin_vm.Base.{
  ℕ, Bool, true, false, ◌||◌, not, Option, none, some, List, [], ◌∷◌, ◌++◌, String, str_eq,
  if◌then◌else◌, Outcome, ok, err, ltb, ◌/◌, is_some,
}
use plugin_vm.Base.Steps.{Step, ◌>>=◌, ◌>>◌, pure, fail, reading}

pub record VmSource : Type 0 where
  pub kind : String
  pub from_vm : String
  pub from_snapshot : String
  pub cloud_init_clean : Bool

-- The spec of the clone; `cloud_init` is the list of its run commands, `ssh` whether it has the
-- block.
pub record CloneSpec : Type 0 where
  pub source : VmSource
  pub cloud_init : Option (List String)
  pub ssh : Bool

pub record CloneSource : Type 0 where
  pub mode : String
  pub disk_path : String

pub record DiskInfo : Type 0 where
  pub backing_file : String
  pub full_backing : String

pub data StatError : Type 0 where
  not_exist : StatError
  stat_failed : String → StatError

pub data CloneError : Type 0 where
  not_a_clone from_vm_required from_snapshot_required : CloneError
  lookup_failed promote_failed freshness_failed no_dir mkdir_failed : String → CloneError
  no_disk_path : CloneError
  stale_snapshot : String → CloneError
  clone_stat_failed probe_failed overlay_failed seed_failed : String → CloneError

-- `disk_path` is the path of disk.qcow2 in the clone's directory, whose parent is that directory;
-- `regenerate_seed` writes seed.iso there. The code puts the clean command into the caller's spec,
-- the model into the spec that it hands on.
pub record CloneSeams (W : Type 0) : Type 0 where
  pub lookup_snapshot : W → String → String → Outcome String CloneSource
  pub promote_snapshot : String → String → W → W × Outcome String CloneSource
  pub snapshot_backing_stale : W → CloneSource → Outcome String String
  pub vm_disk_dir : W → String → Outcome String String
  pub disk_path : String → String
  pub mkdir_all : String → W → W × Option String
  pub stat : W → String → Outcome StatError ℕ
  pub qemu_img_info : W → String → Outcome String DiskInfo
  pub abs_path : W → String → Option String
  pub create_overlay : String → String → W → W × Option String
  pub increment_refcount : String → String → W → W × Option String
  pub regenerate_seed : CloneSpec → String → W → W × Option String

-- A failed call, as an error of this component.
abbrev pub lift {ℓ} : {A : Type ℓ} → (String → CloneError) → Outcome String A → Outcome CloneError A
lift f (ok a) = ok a
lift f (err e) = err (f e)

abbrev pub checked :
    {W : Type 0} → (String → CloneError) → W × Option String → W × Outcome CloneError (Unit {0})
checked f (w, none) = (w, ok tt)
checked f (w, some e) = (w, err (f e))

abbrev pub lifted :
    {W : Type 0} {A : Type 0}
    → (String → CloneError)
    → W × Outcome String A
    → W × Outcome CloneError A
lifted f (w, r) = (w, lift f r)

abbrev pub require : {W : Type 0} → Bool → CloneError → Step W CloneError (Unit {0})
require b e = if b then pure tt else fail e

unfoldable pub contains : String → List String → Bool
contains s [] = false
contains s (x ∷ xs) = str_eq x s || contains s xs

abbrev pub clean_cmd : String
clean_cmd = "cloud-init clean --machine-id --logs"

unfoldable pub append_cloud_init_clean : List String → List String
append_cloud_init_clean existing =
    if contains clean_cmd existing then existing else existing ++ (clean_cmd ∷ [])

module _ {W : Type 0} (s : CloneSeams W) where
  same_paths : Option String → Option String → Bool
  same_paths (some a) (some b) = str_eq a b
  same_paths _ _ = false

  unfoldable pub same_abs_path : W → String → String → Bool
  unfolding same_paths
  same_abs_path w a b = same_paths (s.abs_path w a) (s.abs_path w b)

  abbrev pub backing_of : DiskInfo → String
  backing_of info = if str_eq info.full_backing "" then info.backing_file else info.full_backing

  -- Times are compared in whole seconds.
  unfoldable pub not_newer : ℕ → Outcome StatError ℕ → Bool
  not_newer clone_time (err _) = false
  not_newer clone_time (ok disk_time) = not (ltb (clone_time / 1000000000) (disk_time / 1000000000))

  unfoldable pub fresh_backing : W → String → ℕ → Outcome String DiskInfo → Outcome CloneError Bool
  unfolding not_newer
  fresh_backing w snapshot_disk clone_time (err e) = err (probe_failed e)
  fresh_backing w snapshot_disk clone_time (ok info) =
      if str_eq (backing_of info) "" || not (same_abs_path w (backing_of info) snapshot_disk)
      then ok false
      else ok (not_newer clone_time (s.stat w snapshot_disk))

  unfoldable pub fresh_stat : W → String → String → Outcome StatError ℕ → Outcome CloneError Bool
  unfolding fresh_backing
  fresh_stat w clone_path snapshot_disk (err not_exist) = ok false
  fresh_stat w clone_path snapshot_disk (err (stat_failed e)) = err (clone_stat_failed e)
  fresh_stat w clone_path snapshot_disk (ok time) =
      fresh_backing w snapshot_disk time (s.qemu_img_info w clone_path)

  unfoldable pub clone_disk_fresh : W → String → String → Outcome CloneError Bool
  unfolding fresh_stat
  clone_disk_fresh w clone_path snapshot_disk =
      fresh_stat w clone_path snapshot_disk (s.stat w clone_path)

  -- An internal snapshot is promoted first.
  unfoldable pub external_parent : VmSource → CloneSource → Step W CloneError CloneSource
  external_parent source parent =
      if str_eq parent.mode "internal"
      then (λ w. lifted promote_failed (s.promote_snapshot source.from_vm source.from_snapshot w))
      else pure parent

  unfoldable pub stale_or : String → Step W CloneError (Unit {0})
  stale_or stale = require (str_eq stale "") (stale_snapshot stale)

  unfoldable pub guard_stale : CloneSource → Step W CloneError (Unit {0})
  unfolding stale_or
  guard_stale parent =
      reading (λ w. lift freshness_failed (s.snapshot_backing_stale w parent)) >>= stale_or

  -- A fresh overlay is left alone, any other is created.
  unfoldable pub materialize : String → String → Step W CloneError (Unit {0})
  materialize clone_path disk = reading (λ w. clone_disk_fresh w clone_path disk) >>= λ fresh.
      if fresh then pure tt else λ w. checked overlay_failed (s.create_overlay disk clone_path w)

  -- A failed count is only a warning.
  unfoldable pub count_reference : VmSource → Step W CloneError (Unit {0})
  count_reference source w = ((s.increment_refcount source.from_vm source.from_snapshot w).0, ok tt)

  clean_commands : Option (List String) → List String
  unfolding append_cloud_init_clean
  clean_commands none = append_cloud_init_clean []
  clean_commands (some cmds) = append_cloud_init_clean cmds

  unfoldable pub seeded_spec : CloneSpec → CloneSpec
  unfolding clean_commands
  seeded_spec spec =
      if spec.source.cloud_init_clean
      then record spec { cloud_init = some (clean_commands spec.cloud_init) }
      else spec

  unfoldable pub seed : CloneSpec → String → Step W CloneError (Unit {0})
  unfolding seeded_spec
  seed spec dir =
      if is_some spec.cloud_init || spec.ssh
      then (λ w. checked seed_failed (s.regenerate_seed (seeded_spec spec) dir w))
      else pure tt

  unfoldable pub check_source : VmSource → Step W CloneError (Unit {0})
  check_source source =
      require (str_eq source.kind "clone") not_a_clone
      >> require (not (str_eq source.from_vm "")) from_vm_required
      >> require (not (str_eq source.from_snapshot "")) from_snapshot_required

  unfoldable pub find_parent : VmSource → Step W CloneError CloneSource
  find_parent source =
      reading (λ w. lift lookup_failed (s.lookup_snapshot w source.from_vm source.from_snapshot))
      >>= external_parent source

  unfoldable pub counted : CloneSpec → String → Unit {0} → Step W CloneError (Unit {0})
  counted spec dir _ = count_reference spec.source >>= λ _. seed spec dir

  unfoldable pub filled : CloneSpec → CloneSource → String → Unit {0} → Step W CloneError (Unit {0})
  filled spec parent dir _ = materialize (s.disk_path dir) parent.disk_path >>= counted spec dir

  abbrev pub make_dir : String → Step W CloneError (Unit {0})
  make_dir dir w = checked mkdir_failed (s.mkdir_all dir w)

  unfoldable pub in_dir : CloneSpec → CloneSource → String → Step W CloneError (Unit {0})
  in_dir spec parent dir = make_dir dir >>= filled spec parent dir

  abbrev pub find_dir : String → Step W CloneError String
  find_dir vm_name = reading (λ w. lift no_dir (s.vm_disk_dir w vm_name))

  unfoldable pub after_stale :
      String → CloneSpec → CloneSource → Unit {0} → Step W CloneError (Unit {0})
  after_stale vm_name spec parent _ = find_dir vm_name >>= in_dir spec parent

  unfoldable pub after_disk :
      String → CloneSpec → CloneSource → Unit {0} → Step W CloneError (Unit {0})
  after_disk vm_name spec parent _ = guard_stale parent >>= after_stale vm_name spec parent

  unfoldable pub build_from : String → CloneSpec → CloneSource → Step W CloneError (Unit {0})
  build_from vm_name spec parent =
      require (not (str_eq parent.disk_path "")) no_disk_path >>= after_disk vm_name spec parent

  unfoldable pub after_check : String → CloneSpec → Unit {0} → Step W CloneError (Unit {0})
  after_check vm_name spec _ = find_parent spec.source >>= build_from vm_name spec

  unfoldable pub build_clone : String → CloneSpec → Step W CloneError (Unit {0})
  build_clone vm_name spec = check_source spec.source >>= after_check vm_name spec
