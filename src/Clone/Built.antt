-- ===== src/Clone/Built.antt =====
-- BuildClone: what a build that succeeds has checked and done.
use plugin_vm.Base.{
  ◌≡◌, refl, ap, ◌∙◌, inl, inr, Bool, true, false, ◌||◌, not, Option, none, some, List, [], ◌∷◌,
  ◌++◌, String, str_eq, if◌then◌else◌, Outcome, ok, err, arith, eq_iff, Bool-cases,
}
use plugin_vm.Base.Steps.{after, ◌>>◌, >>=-ok, pure}
use mathlib.Core.Path.{subst}
use plugin_vm.Clone.External.{IsExternal, lift-ok, reading-ok, find_parent-IsExternal}
use plugin_vm.Clone.{
  CloneError, overlay_failed, CloneSpec, CloneSource, CloneSeams, checked, lift, require, contains,
  clean_cmd, append_cloud_init_clean, clone_disk_fresh, guard_stale, stale_or, materialize,
  count_reference, seed, check_source, find_parent, build_from, build_clone, after_disk,
  after_stale, in_dir, filled, counted, find_dir, make_dir, after_check, no_disk_path, no_dir,
}

-- The clean command is in the list once it was added, and is not added twice.
contains-append :
    (xs : List String) (x : String) → str_eq x x ≡ true → contains x (xs ++ (x ∷ [])) ≡ true
unfolding contains
contains-append [] x h = rw h
contains-append (y ∷ xs) x h = rw (contains-append xs x h) (or_true (str_eq y x))
  where
    or_true : (b : Bool) → b || true ≡ true
    or_true true = refl
    or_true false = refl

-- Adding the command twice is adding it once.
pub append_cloud_init_clean-idempotent :
    (cmds : List String)
    → append_cloud_init_clean (append_cloud_init_clean cmds) ≡ append_cloud_init_clean cmds
unfolding append_cloud_init_clean
append_cloud_init_clean-idempotent cmds = elim (Bool-cases (contains clean_cmd cmds)) [
  | inl e ↦ rw (e, e)
  | inr e ↦ rw e (rw (contains-append cmds clean_cmd refl))
]

module _ {W : Type 0} (s : CloneSeams W) where
  -- A fresh overlay is left as it is; any other is created over the snapshot's disk.
  pub data Materialized (clone_path disk : String) (w : W) : W → Type 0 where
    kept : clone_disk_fresh s w clone_path disk ≡ ok true → Materialized clone_path disk w w
    created :
        {w' : W}
        → clone_disk_fresh s w clone_path disk ≡ ok false
        → s.create_overlay disk clone_path w ≡ (w', none)
        → Materialized clone_path disk w w'

  checked-ok :
      (f : String → CloneError) (r : W × Option String) {w' : W}
      → checked f r ≡ (w', ok tt)
      → r ≡ (w', none)
  checked-ok f (w, none) h = cc
  checked-ok f (w, some e) h = cc

  require-ok :
      (b : Bool) (e : CloneError) {w w' : W} → require b e w ≡ (w', ok tt) → (b ≡ true) × (w' ≡ w)
  require-ok true e h = (refl, cc)
  require-ok false e h = cc

  Materialized-by :
      (c d : String) (w w' : W) (r : Outcome CloneError Bool)
      → clone_disk_fresh s w c d ≡ r
      → after
          (λ fresh.
            if fresh then pure tt else (λ w₁. checked overlay_failed (s.create_overlay d c w₁)))
          (w, r)
        ≡ (w', ok tt)
      → Materialized c d w w'
  Materialized-by c d w w' (err e) f h = cc
  Materialized-by c d w w' (ok true) f h =
      let same : w ≡ w' = cc in subst (Materialized c d w) same (kept f)
  Materialized-by c d w w' (ok false) f h = created f (checked-ok overlay_failed _ h)

  materialize-Materialized :
      (c d : String) (w w' : W) → materialize s c d w ≡ (w', ok tt) → Materialized c d w w'
  unfolding materialize
  materialize-Materialized c d w w' h = Materialized-by c d w w' _ refl h

  -- What lies behind a build that succeeds: the snapshot that it found, its disk, and the states
  -- between the steps.
  pub record IsBuilt (vm_name : String) (spec : CloneSpec) (w w' : W) : Type 0 where
    pub found : CloneSource
    pub parent : CloneSource
    pub dir : String
    pub w₁ : W
    pub w₂ : W
    pub w₃ : W
    pub is_clone : str_eq spec.source.kind "clone" ≡ true
    pub is_found : s.lookup_snapshot w spec.source.from_vm spec.source.from_snapshot ≡ ok found
    pub has_parent : IsExternal s spec.source found w w₁ parent
    pub has_disk : str_eq parent.disk_path "" ≡ false
    pub is_current : s.snapshot_backing_stale w₁ parent ≡ ok ""
    pub has_dir : s.vm_disk_dir w₁ vm_name ≡ ok dir
    pub made_dir : s.mkdir_all dir w₁ ≡ (w₂, none)
    pub materialized : Materialized (s.disk_path dir) parent.disk_path w₂ w₃
    pub seeded :
        seed s spec dir (s.increment_refcount spec.source.from_vm spec.source.from_snapshot w₃).0
        ≡ (w', ok tt)

  stale_by :
      (w : W) (r : Outcome CloneError String) {w' : W}
      → after (stale_or s) (w, r) ≡ (w', ok tt)
      → (w' ≡ w) × (r ≡ ok "")
  unfolding stale_or
  stale_by w (err e) h = cc
  stale_by w (ok stale) h =
      let (current, same) = require-ok (str_eq stale "") _ h in
      (same, ap ok ((eq_iff stale "").0 current))

  guard_stale-current :
      (parent : CloneSource) (w : W) {w' : W}
      → guard_stale s parent w ≡ (w', ok tt)
      → (w' ≡ w) × (s.snapshot_backing_stale w parent ≡ ok "")
  unfolding guard_stale
  guard_stale-current parent w h =
      let (same, current) = stale_by w _ h in (same, lift-ok s _ _ current)

  not-true : (b : Bool) → not b ≡ true → b ≡ false
  not-true b h = ground arith

  three-ok :
      (a b c : Bool) (d e f : CloneError) {w w' : W}
      → ((require a d >> require b e) >> require c f) w ≡ (w', ok tt)
      → (a ≡ true) × (w' ≡ w)
  three-ok false b c d e f h = cc
  three-ok true false c d e f h = cc
  three-ok true true false d e f h = cc
  three-ok true true true d e f h = (refl, cc)

  build_from-steps :
      (vm_name : String) (spec : CloneSpec) (parent : CloneSource) (w₀ w w' : W)
      → str_eq spec.source.kind "clone" ≡ true
      → find_parent s spec.source w₀ ≡ (w, ok parent)
      → build_from s vm_name spec parent w ≡ (w', ok tt)
      → IsBuilt vm_name spec w₀ w'
  unfolding build_from after_disk after_stale in_dir filled counted count_reference
  build_from-steps vm_name spec parent w₀ w w' kind found h =
      let (first, is_found, external) = find_parent-IsExternal s spec.source w₀ w parent found in
      let (w₁, _, disk, h₁) =
        >>=-ok (require (not (str_eq parent.disk_path "")) no_disk_path)
          (after_disk s vm_name spec parent) w h in
      let (has_disk, same₁) = require-ok _ _ disk in
      let (w₂, _, guarded, h₂) =
        >>=-ok (guard_stale s parent) (after_stale s vm_name spec parent) w₁ h₁ in
      let (same₂, current) = guard_stale-current parent w₁ guarded in
      let (w₃, dir, found_dir, h₃) = >>=-ok (find_dir s vm_name) (in_dir s spec parent) w₂ h₂ in
      let (same₃, has_dir) = reading-ok s (λ w. lift no_dir (s.vm_disk_dir w vm_name)) found_dir in
      let (w₄, _, made, h₄) = >>=-ok (make_dir s dir) (filled s spec parent dir) w₃ h₃ in
      let (w₅, _, disk_made, h₅) =
        >>=-ok (materialize s (s.disk_path dir) parent.disk_path) (counted s spec dir) w₄ h₄ in
      record {
        found = first;
        parent = parent;
        dir = dir;
        w₁ = w;
        w₂ = w₄;
        w₃ = w₅;
        is_clone = kind;
        is_found = is_found;
        has_parent = external;
        has_disk = not-true _ has_disk;
        is_current = subst (λ x. s.snapshot_backing_stale x parent ≡ ok "") same₁ current;
        has_dir =
            lift-ok s _ _
              (subst (λ x. lift no_dir (s.vm_disk_dir x vm_name) ≡ ok dir) (same₂ ∙ same₁) has_dir);
        made_dir =
            subst (λ x. s.mkdir_all dir x ≡ (w₄, none)) (same₃ ∙ same₂ ∙ same₁)
              (checked-ok _ _ made);
        materialized = materialize-Materialized _ _ w₄ w₅ disk_made;
        seeded = h₅;
      }

  -- A build that succeeds is built over an external snapshot, the one looked up or, where that is
  -- internal, the one that its promotion gave, with a disk that is not stale; and it left the clone's
  -- disk either as it was, being fresh, or created over exactly that disk.
  pub build_clone-IsBuilt :
      (vm_name : String) (spec : CloneSpec) (w w' : W)
      → build_clone s vm_name spec w ≡ (w', ok tt)
      → IsBuilt vm_name spec w w'
  unfolding build_clone check_source after_check
  build_clone-IsBuilt vm_name spec w w' h =
      let (w₁, _, checks, h₁) =
        >>=-ok (check_source s spec.source) (after_check s vm_name spec) w h in
      let (w₂, parent, found, h₂) =
        >>=-ok (find_parent s spec.source) (build_from s vm_name spec) w₁ h₁ in
      let (kind, same) = three-ok _ _ _ _ _ _ checks in
      build_from-steps vm_name spec parent w w₂ w' kind
        (subst (λ x. find_parent s spec.source x ≡ (w₂, ok parent)) same found) h₂
