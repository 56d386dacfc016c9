-- ===== src/DiskLayout/Mounts.antt =====
-- What the scripts of EmitDiskBuildScript mount and unmount, line by line.
use plugin_vm.Base.{
  ◌≡◌, refl, sym, ap, ◌∙◌, true, false, List, [], ◌∷◌, ◌++◌, arith, append_assoc, append-nil,
  is_nil, if◌then◌else◌, Bool-cases, inl, inr, ◌⊎◌, ok, >>=-eq-ok,
}
use plugin_vm.Base.Text.{Text, codes, text_eq, text_eq_iff}
use plugin_vm.DiskLayout.{Subvolume, DiskLayout, is_root, with_defaults, check_subvolumes, mkfs_cmd}
use plugin_vm.DiskLayout.Scripts.{
  Line, mount, umount, shell, others, roots, path_in, mount_roots, mount_others, create_lines,
  umount_others, quiet_others, trap_lines, partition_lines, subvolume_lines, root_lines, esp_lines,
  prelude_lines, finalize_lines, disk_scripts,
}
use plugin_vm.DiskLayout.Rules.{roots_in, IsBuildable, check_subvolumes-inv}

-- A list without the first entry that is the path.
unfoldable pub erase : Text → List Text → List Text
erase p [] = []
erase p (q ∷ qs) = let rest = erase p qs in if text_eq p q then qs else q ∷ rest

-- The paths that a script mounts and does not unmount again, in the order of mounting: a mount adds
-- its path, and an unmount takes it out. This is a reading of the text; whether each unmount would
-- succeed is not asked here.
unfoldable pub left_mounted : List Line → List Text → List Text
left_mounted [] paths = paths
left_mounted (mount words p ∷ ls) paths = left_mounted ls (paths ++ p ∷ [])
left_mounted (umount p ∷ ls) paths = left_mounted ls (erase p paths)
left_mounted (shell text ∷ ls) paths = left_mounted ls paths

-- The paths that a script unmounts, in order.
unfoldable pub unmounted : List Line → List Text
unmounted [] = []
unmounted (mount words p ∷ ls) = unmounted ls
unmounted (umount p ∷ ls) = p ∷ unmounted ls
unmounted (shell text ∷ ls) = unmounted ls

pub left_mounted-append :
    (a b : List Line) (paths : List Text)
    → left_mounted (a ++ b) paths ≡ left_mounted b (left_mounted a paths)
unfolding left_mounted
left_mounted-append [] b paths = refl
left_mounted-append (mount words p ∷ a) b paths = left_mounted-append a b (paths ++ p ∷ [])
left_mounted-append (umount p ∷ a) b paths = left_mounted-append a b (erase p paths)
left_mounted-append (shell text ∷ a) b paths = left_mounted-append a b paths

unfoldable pub paths : Text → List Subvolume → List Text
paths mnt [] = []
paths mnt (sv ∷ rest) = path_in mnt sv ∷ paths mnt rest

quiet_others-left :
    (mnt : Text) (svs : List Subvolume) (ls : List Line) (ps : List Text)
    → left_mounted (quiet_others mnt svs ++ ls) ps ≡ left_mounted ls ps
unfolding left_mounted quiet_others
quiet_others-left mnt [] ls ps = refl
quiet_others-left mnt (sv ∷ svs) ls ps = quiet_others-left mnt svs ls ps

pub create_lines-left :
    (mnt : Text) (svs : List Subvolume) (ls : List Line) (ps : List Text)
    → left_mounted (create_lines mnt svs ++ ls) ps ≡ left_mounted ls ps
unfolding left_mounted create_lines
create_lines-left mnt [] ls ps = refl
create_lines-left mnt (sv ∷ svs) ls ps = create_lines-left mnt svs ls ps

mount_others-left :
    (mnt : Text) (svs : List Subvolume) (ps : List Text)
    → left_mounted (mount_others mnt svs) ps ≡ ps ++ paths mnt svs
unfolding left_mounted mount_others paths
mount_others-left mnt [] ps = sym (append-nil ps)
mount_others-left mnt (sv ∷ svs) ps =
    mount_others-left mnt svs (ps ++ path_in mnt sv ∷ [])
    ∙ append_assoc ps (path_in mnt sv ∷ []) (paths mnt svs)

pub trap_lines-left :
    (l : DiskLayout) (ls : List Line) (ps : List Text)
    → left_mounted (trap_lines l ++ ls) ps ≡ left_mounted ls ps
unfolding left_mounted trap_lines
trap_lines-left l ls ps =
    ap (λ t. left_mounted t ps) (append_assoc (quiet_others l.mnt (others l.subvolumes)) _ ls)
    ∙ quiet_others-left l.mnt (others l.subvolumes) _ ps

pub partition_lines-left :
    (l : DiskLayout) (mkfs : Text) (ls : List Line) (ps : List Text)
    → left_mounted (partition_lines l mkfs ++ ls) ps ≡ left_mounted ls ps
unfolding left_mounted partition_lines
partition_lines-left l mkfs ls ps = refl

roots-none : (svs : List Subvolume) → roots_in svs ≡ 0 → roots svs ≡ []
unfolding roots_in roots
roots-none [] h = refl
roots-none (sv ∷ svs) h = elim (Bool-cases (is_root sv)) [
  | inl r ↦ absurd (omega (arith, rw r at h))
  | inr n ↦ rw n (roots-none svs (omega (arith, rw n at h)))
]

roots-one : (svs : List Subvolume) → roots_in svs ≡ 1 → (sv : Subvolume) × (roots svs ≡ sv ∷ [])
unfolding roots_in roots
roots-one [] h = absurd (omega arith)
roots-one (sv ∷ svs) h = elim (Bool-cases (is_root sv)) [
  | inl r ↦ (sv, rw r (ap (λ t. sv ∷ t) (roots-none svs (omega (arith, rw r at h)))))
  | inr n ↦ rw n (roots-one svs (omega (arith, rw n at h)))
]

-- A layout whose subvolumes are absent, or one root and others.
abbrev pub HasOneRoot : DiskLayout → Type 0
HasOneRoot l =
    (is_nil l.subvolumes ≡ true)
    ⊎ ((sv : Subvolume) × (is_nil l.subvolumes ≡ false) × (roots l.subvolumes ≡ sv ∷ []))

erase_only : (p : Text) → erase p (p ∷ []) ≡ []
unfolding erase
erase_only p = rw ((text_eq_iff p p).1 refl)

is_nil-others : (svs : List Subvolume) → is_nil svs ≡ true → others svs ≡ []
unfolding others
is_nil-others [] h = refl
is_nil-others (sv ∷ svs) h = cc

subvolume_lines-left :
    (l : DiskLayout) (sv : Subvolume)
    → roots l.subvolumes ≡ sv ∷ []
    → left_mounted (subvolume_lines l) [] ≡ l.mnt ∷ paths l.mnt (others l.subvolumes)
unfolding left_mounted subvolume_lines mount_roots
subvolume_lines-left l sv one =
    create_lines-left l.mnt l.subvolumes _ (l.mnt ∷ [])
    ∙ ap
        (λ t.
          left_mounted
            (mount_roots l.mnt (roots l.subvolumes) ++ mount_others l.mnt (others l.subvolumes)) t)
        (erase_only l.mnt)
    ∙ rw one (mount_others-left l.mnt (others l.subvolumes) (l.mnt ∷ []))

root_lines-left :
    (l : DiskLayout)
    → HasOneRoot l
    → left_mounted (root_lines l) [] ≡ l.mnt ∷ paths l.mnt (others l.subvolumes)
unfolding root_lines left_mounted paths
root_lines-left l (inl none) = rw (none, is_nil-others l.subvolumes none)
root_lines-left l (inr (sv, some, one)) = rw some (subvolume_lines-left l sv one)

-- Behind the prelude the root is mounted, then the subvolumes as they are declared, then the ESP.
pub prelude_lines-left :
    (l : DiskLayout) (mkfs : Text)
    → HasOneRoot l
    → left_mounted (prelude_lines l mkfs) []
      ≡ l.mnt ∷ (paths l.mnt (others l.subvolumes) ++ (l.mnt ++ l.esp_mount_point) ∷ [])
unfolding left_mounted prelude_lines
prelude_lines-left l mkfs h =
    trap_lines-left l _ []
    ∙ partition_lines-left l mkfs (root_lines l ++ esp_lines l) []
    ∙ left_mounted-append (root_lines l) (esp_lines l) []
    ∙ ap (λ ps. ps ++ (l.mnt ++ l.esp_mount_point) ∷ []) (root_lines-left l h)

umount_others-unmounted :
    (mnt : Text) (svs : List Subvolume) (ls : List Line)
    → unmounted (umount_others mnt svs ++ ls) ≡ paths mnt svs ++ unmounted ls
unfolding unmounted umount_others paths
umount_others-unmounted mnt [] ls = refl
umount_others-unmounted mnt (sv ∷ svs) ls =
    ap (λ t. path_in mnt sv ∷ t) (umount_others-unmounted mnt svs ls)

-- The finalization unmounts the ESP, then the subvolumes as they are declared, then the root.
pub finalize_lines-unmounted :
    (l : DiskLayout)
    → unmounted (finalize_lines l)
      ≡ (l.mnt ++ l.esp_mount_point) ∷ (paths l.mnt (others l.subvolumes) ++ l.mnt ∷ [])
unfolding unmounted finalize_lines
finalize_lines-unmounted l =
    ap (λ t. (l.mnt ++ l.esp_mount_point) ∷ t)
      (umount_others-unmounted l.mnt (others l.subvolumes) _)

-- The scripts of an accepted layout are those of its defaults, with one root.
pub disk_scripts-inv :
    (l : DiskLayout) {p f : List Line}
    → disk_scripts l ≡ ok (p, f)
    → (mkfs : Text) × HasOneRoot (with_defaults l)
      × (p ≡ prelude_lines (with_defaults l) mkfs)
      × (f ≡ finalize_lines (with_defaults l))
unfolding disk_scripts
disk_scripts-inv l {p} {f} h =
    let (done, checked, rest) = >>=-eq-ok (check_subvolumes (with_defaults l)) _ h in
    let (mkfs, known, made) = >>=-eq-ok (mkfs_cmd (with_defaults l).rootfs) _ rest in
    (mkfs, one_root (check_subvolumes-inv (with_defaults l) checked), cc, cc)
  where
    one_root :
        ((with_defaults l).subvolumes ≡ [])
          ⊎ (((with_defaults l).rootfs ≡ codes "btrfs") × IsBuildable (with_defaults l).subvolumes)
        → HasOneRoot (with_defaults l)
    one_root (inl e) = inl (rw e)
    one_root (inr (b, h)) = elim (Bool-cases (is_nil (with_defaults l).subvolumes)) [
      | inl empty ↦ inl empty
      | inr full ↦
          let (sv, e) = roots-one (with_defaults l).subvolumes h.one_root in inr (sv, full, e)
    ]
