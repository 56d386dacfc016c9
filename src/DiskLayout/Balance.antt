-- ===== src/DiskLayout/Balance.antt =====
-- EmitDiskBuildScript: the scripts of a layout without nested paths, run.
use plugin_vm.Base.{
  ◌≡◌, refl, sym, ap, ◌∙◌, inl, inr, Bool-cases, false, some, List, [], ◌∷◌, ◌++◌, arith, ok, All,
  is_nil,
}
use plugin_vm.Base.Text.{Text, text_eq_iff}
use mathlib.Core.Path.{subst}
use plugin_vm.DiskLayout.{Subvolume, DiskLayout, with_defaults}
use plugin_vm.DiskLayout.Scripts.{
  Line, umount, others, roots, mount_roots, mount_others, create_lines, quiet_others, trap_lines,
  partition_lines, subvolume_lines, root_lines, esp_lines, prelude_lines, umount_others,
  finalize_lines, disk_scripts,
}
use plugin_vm.DiskLayout.Mounts.{
  left_mounted, left_mounted-append, trap_lines-left, create_lines-left, unmounted, paths,
  finalize_lines-unmounted, prelude_lines-left, disk_scripts-inv,
}
use plugin_vm.DiskLayout.Nesting.{Beneath, IsFlat, disk_scripts-nested}
use plugin_vm.DiskLayout.Run.{
  occurrences, occurrences-append, beneath, busy, run_mounts, run_mounts-append, run_mounts-left,
  unmounted-nil, NoMount, run_mounts-releases,
}

quiet_others-unmounted : (mnt : Text) (svs : List Subvolume) → unmounted (quiet_others mnt svs) ≡ []
unfolding unmounted quiet_others
quiet_others-unmounted mnt [] = refl
quiet_others-unmounted mnt (sv ∷ svs) = quiet_others-unmounted mnt svs

create_lines-unmounted : (mnt : Text) (svs : List Subvolume) → unmounted (create_lines mnt svs) ≡ []
unfolding unmounted create_lines
create_lines-unmounted mnt [] = refl
create_lines-unmounted mnt (sv ∷ svs) = create_lines-unmounted mnt svs

mount_others-unmounted : (mnt : Text) (svs : List Subvolume) → unmounted (mount_others mnt svs) ≡ []
unfolding unmounted mount_others
mount_others-unmounted mnt [] = refl
mount_others-unmounted mnt (sv ∷ svs) = mount_others-unmounted mnt svs

mount_roots-unmounted : (mnt : Text) (svs : List Subvolume) → unmounted (mount_roots mnt svs) ≡ []
unfolding unmounted mount_roots
mount_roots-unmounted mnt [] = refl
mount_roots-unmounted mnt (sv ∷ svs) = mount_roots-unmounted mnt svs

trap_lines-unmounted : (l : DiskLayout) → unmounted (trap_lines l) ≡ []
unfolding unmounted trap_lines
trap_lines-unmounted l =
    unmounted-nil (quiet_others l.mnt (others l.subvolumes)) _
      (quiet_others-unmounted l.mnt (others l.subvolumes)) refl

-- The script runs, and leaves mounted what it mounts and does not unmount.
abbrev Runs : List Line → List Text → Type 0
Runs a ps = run_mounts a ps ≡ some (left_mounted a ps)

Runs-append :
    (a b : List Line) (ps : List Text) → Runs a ps → Runs b (left_mounted a ps) → Runs (a ++ b) ps
Runs-append a b ps h k =
    run_mounts-append a b ps (left_mounted a ps) h ∙ k ∙ ap some (sym (left_mounted-append a b ps))

trap_lines-alone : (l : DiskLayout) (ps : List Text) → left_mounted (trap_lines l) ps ≡ ps
unfolding left_mounted
trap_lines-alone l ps = sym (left_mounted-append (trap_lines l) [] ps) ∙ trap_lines-left l [] ps

create_lines-alone :
    (mnt : Text) (svs : List Subvolume) (ps : List Text)
    → left_mounted (create_lines mnt svs) ps ≡ ps
unfolding left_mounted
create_lines-alone mnt svs ps =
    sym (left_mounted-append (create_lines mnt svs) [] ps) ∙ create_lines-left mnt svs [] ps

not-beneath_self : (p : Text) → beneath p p ≡ false
unfolding beneath
not-beneath_self [] = refl
not-beneath_self (c ∷ p) = rw (not-beneath_self p) (ground arith)

-- The top level is unmounted while it alone is mounted.
top-Runs : (u : Text) (rest : List Line) → unmounted rest ≡ [] → Runs (umount u ∷ rest) (u ∷ [])
unfolding run_mounts left_mounted busy occurrences
top-Runs u rest quiet =
    rw ((text_eq_iff u u).1 refl, not-beneath_self u) (run_mounts-left rest [] quiet)

subvolume_lines-Runs : (l : DiskLayout) → Runs (subvolume_lines l) []
unfolding run_mounts left_mounted subvolume_lines
subvolume_lines-Runs l =
    Runs-append (create_lines l.mnt l.subvolumes) _ (l.mnt ∷ [])
      (run_mounts-left (create_lines l.mnt l.subvolumes) (l.mnt ∷ [])
        (create_lines-unmounted l.mnt l.subvolumes))
      (subst (Runs (umount l.mnt ∷ rest)) (sym (create_lines-alone l.mnt l.subvolumes (l.mnt ∷ [])))
        (top-Runs l.mnt rest quiet))
  where
    rest : List Line
    rest = mount_roots l.mnt (roots l.subvolumes) ++ mount_others l.mnt (others l.subvolumes)

    quiet : unmounted rest ≡ []
    quiet =
        unmounted-nil (mount_roots l.mnt (roots l.subvolumes)) _
          (mount_roots-unmounted l.mnt (roots l.subvolumes))
          (mount_others-unmounted l.mnt (others l.subvolumes))

root_lines-Runs : (l : DiskLayout) → Runs (root_lines l) []
unfolding run_mounts left_mounted root_lines
root_lines-Runs l = elim (Bool-cases (is_nil l.subvolumes)) [
  | inl none_given ↦ rw none_given refl
  | inr given ↦ rw given (subvolume_lines-Runs l)
]

esp_lines-Runs : (l : DiskLayout) (ps : List Text) → Runs (esp_lines l) ps
unfolding run_mounts left_mounted
esp_lines-Runs l ps = refl

partition_lines-Runs :
    (l : DiskLayout) (mkfs : Text) (ps : List Text) → Runs (partition_lines l mkfs) ps
unfolding run_mounts left_mounted partition_lines
partition_lines-Runs l mkfs ps = refl

partition_lines-alone :
    (l : DiskLayout) (mkfs : Text) (ps : List Text) → left_mounted (partition_lines l mkfs) ps ≡ ps
unfolding left_mounted partition_lines
partition_lines-alone l mkfs ps = refl

prelude_lines-Runs : (l : DiskLayout) (mkfs : Text) → Runs (prelude_lines l mkfs) []
unfolding run_mounts left_mounted prelude_lines
prelude_lines-Runs l mkfs =
    Runs-append (trap_lines l) (partition_lines l mkfs ++ (root_lines l ++ esp_lines l)) []
      (run_mounts-left (trap_lines l) [] (trap_lines-unmounted l))
      (subst (Runs (partition_lines l mkfs ++ (root_lines l ++ esp_lines l)))
        (sym (trap_lines-alone l []))
        (Runs-append (partition_lines l mkfs) (root_lines l ++ esp_lines l) []
          (partition_lines-Runs l mkfs [])
          (subst (Runs (root_lines l ++ esp_lines l)) (sym (partition_lines-alone l mkfs [])) (
            Runs-append (root_lines l) (esp_lines l) [] (root_lines-Runs l)
              (esp_lines-Runs l (left_mounted (root_lines l) []))))))

umount_others-NoMount :
    (mnt : Text) (svs : List Subvolume) (ls : List Line)
    → NoMount ls
    → NoMount (umount_others mnt svs ++ ls)
unfolding umount_others
umount_others-NoMount mnt [] ls h = h
umount_others-NoMount mnt (sv ∷ svs) ls h = umount_others-NoMount mnt svs ls h

finalize_lines-NoMount : (l : DiskLayout) → NoMount (finalize_lines l)
unfolding finalize_lines
finalize_lines-NoMount l = umount_others-NoMount l.mnt (others l.subvolumes) _ tt

-- The same paths, with the first and the last changed over.
occurrences-ends :
    (p a e : Text) (ps : List Text)
    → occurrences p (a ∷ (ps ++ e ∷ [])) ≡ occurrences p (e ∷ (ps ++ a ∷ []))
unfolding occurrences
occurrences-ends p a e ps =
    omega (arith, occurrences-append p ps (e ∷ []), occurrences-append p ps (a ∷ []))

-- Under `set -e` the scripts of an accepted layout in which no subvolume lies beneath another one or
-- beneath the ESP run to their end and leave nothing mounted, where the install body between them
-- runs, and leaves the mounts as it found them, and all commands but the unmounts succeed. Each
-- unmount is of a path that is mounted and not in use, also where two subvolumes have one path.
pub disk_scripts-unmounts :
    (l : DiskLayout) (p body f : List Line)
    → disk_scripts l ≡ ok (p, f)
    → IsFlat (others (with_defaults l).subvolumes)
    → All
        (λ (sv : Subvolume). ¬ Beneath sv.mount_point (with_defaults l).esp_mount_point)
        (others (with_defaults l).subvolumes)
    → ((ps : List Text) → run_mounts p [] ≡ some ps → run_mounts body ps ≡ some ps)
    → run_mounts (p ++ (body ++ f)) [] ≡ some []
disk_scripts-unmounts l p body f made flat above_esp kept =
    let (mkfs, root, ep, ef) = disk_scripts-inv l made in
    let d = with_defaults l in
    let esp = d.mnt ++ d.esp_mount_point in
    let inner = paths d.mnt (others d.subvolumes) in
    let mounts = d.mnt ∷ (inner ++ esp ∷ []) in
    let ran : run_mounts p [] ≡ some mounts =
      ap (λ t. run_mounts t []) ep
      ∙ prelude_lines-Runs d mkfs
      ∙ ap some (prelude_lines-left d mkfs root) in
    let released : unmounted f ≡ esp ∷ (inner ++ d.mnt ∷ []) =
      ap unmounted ef ∙ finalize_lines-unmounted d in
    run_mounts-append p (body ++ f) [] mounts ran
    ∙ run_mounts-append body f mounts mounts (kept mounts ran)
    ∙ run_mounts-releases f mounts (subst NoMount (sym ef) (finalize_lines-NoMount d))
        ((disk_scripts-nested l p f made).1 (flat, above_esp)).1
        (λ q. occurrences-ends q d.mnt esp inner ∙ ap (occurrences q) (sym released))
