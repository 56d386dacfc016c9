-- ===== src/Tests/DiskLayouts.antt =====
-- Layouts: a btrfs root with two subvolumes, one with a nested pair, and one without a root.
use plugin_vm.Base.{
  ◌≡◌, ◌↔◌, refl, List, [], ◌∷◌, ◌++◌, All, none, some, sym, ◌∙◌, ok, err, Succeeds,
}
use plugin_vm.Base.Int.{pos}
use plugin_vm.Base.Text.{Text, codes, text_eq}
use plugin_vm.DiskLayout.{
  Subvolume, DiskLayout, disk_layout_from_distro, with_defaults, not_one_root,
}
use plugin_vm.DiskLayout.Scripts.{
  Line, mount, umount, others, disk_scripts, prelude_lines, finalize_lines, render,
}
use plugin_vm.DiskLayout.Rules.{IsLayout, disk_scripts-Succeeds_iff}
use mathlib.Core.Path.{subst}
use mathlib.Core.Option.{some-injective}
use plugin_vm.DiskLayout.Mounts.{erase, left_mounted, unmounted}
use plugin_vm.DiskLayout.Run.{run_mounts, busy, beneath, occurrences}
use plugin_vm.DiskLayout.Balance.{disk_scripts-unmounts}
use plugin_vm.DiskLayout.Nesting.{Beneath, NoneHidden, InnerFirst, IsFlat, disk_scripts-nested}

abbrev top : Subvolume
top = record { name = codes "@"; mount_point = codes "/"; mount_options = codes "noatime" }

abbrev home : Subvolume
home = record { name = codes "@h"; mount_point = codes "/h"; mount_options = [] }

abbrev layout_of : List Subvolume → DiskLayout
layout_of svs = record {
  size_bytes_or_suffix = codes "9G";
  rootfs = codes "btrfs";
  esp_size_mib = pos 0;
  mnt = [];
  esp_mount_point = codes "/b";
  subvolumes = svs;
}

abbrev flat : DiskLayout
flat = layout_of (home ∷ top ∷ [])

abbrev flat_prelude : List Line
flat_prelude = prelude_lines (with_defaults flat) (codes "mkfs.btrfs -f")

flat_scripts : disk_scripts flat ≡ ok (flat_prelude, finalize_lines (with_defaults flat))
unfolding disk_scripts text_eq
flat_scripts = refl

disk_scripts-Succeeds_iff_example : Succeeds (disk_scripts flat) ↔ IsLayout (with_defaults flat)
disk_scripts-Succeeds_iff_example = disk_scripts-Succeeds_iff flat

-- The install body mounts `/proc` in the root, and unmounts it.
abbrev body : List Line
body = mount (codes "-t proc proc") (codes "/mnt/proc") ∷ umount (codes "/mnt/proc") ∷ []

disk_scripts-unmounts_example :
    run_mounts (flat_prelude ++ (body ++ finalize_lines (with_defaults flat))) [] ≡ some []
unfolding with_defaults others text_eq
disk_scripts-unmounts_example =
    disk_scripts-unmounts flat flat_prelude body (finalize_lines (with_defaults flat)) flat_scripts
      (tt, tt) (apart, tt) kept
  where
    apart : ¬ Beneath (codes "/h") (codes "/b")
    apart (rest, e) = cc

    ran : run_mounts flat_prelude [] ≡ some (codes "/mnt" ∷ codes "/mnt/h" ∷ codes "/mnt/b" ∷ [])
    ran = unfold run_mounts prelude_lines busy beneath occurrences erase text_eq in refl

    left :
        run_mounts body (codes "/mnt" ∷ codes "/mnt/h" ∷ codes "/mnt/b" ∷ [])
        ≡ some (codes "/mnt" ∷ codes "/mnt/h" ∷ codes "/mnt/b" ∷ [])
    left = unfold run_mounts busy beneath occurrences erase text_eq in refl

    kept : (ps : List Text) → run_mounts flat_prelude [] ≡ some ps → run_mounts body ps ≡ some ps
    kept ps e = subst (λ qs. run_mounts body qs ≡ some qs) (some-injective _ _ (sym ran ∙ e)) left

disk_scripts-nested_example :
    (NoneHidden (left_mounted flat_prelude [])
      × InnerFirst (unmounted (finalize_lines (with_defaults flat))))
    ↔ (IsFlat (others (with_defaults flat).subvolumes)
        × All
            (λ (sv : Subvolume). ¬ Beneath sv.mount_point (with_defaults flat).esp_mount_point)
            (others (with_defaults flat).subvolumes))
disk_scripts-nested_example =
    disk_scripts-nested flat flat_prelude (finalize_lines (with_defaults flat)) flat_scripts

-- The finalization of a layout that the checks accept, where it unmounts `/v` before `/v/l`.
nested_unmounts :
    unmounted (
      finalize_lines (
        with_defaults (
          layout_of (
            top
            ∷ record { name = codes "@v"; mount_point = codes "/v"; mount_options = [] }
            ∷ record { name = codes "@l"; mount_point = codes "/v/l"; mount_options = [] }
            ∷ []))))
    ≡ codes "/mnt/b" ∷ codes "/mnt/v" ∷ codes "/mnt/v/l" ∷ codes "/mnt" ∷ []
unfolding unmounted finalize_lines with_defaults text_eq
nested_unmounts = refl

-- That run ends at the unmount of `/v`, which is in use.
nested_fails :
    run_mounts
      (umount (codes "/mnt/v") ∷ umount (codes "/mnt/v/l") ∷ [])
      (codes "/mnt" ∷ codes "/mnt/v" ∷ codes "/mnt/v/l" ∷ [])
    ≡ none
unfolding run_mounts busy beneath occurrences erase text_eq
nested_fails = refl

rootless : disk_scripts (layout_of (home ∷ [])) ≡ err (not_one_root 0)
unfolding disk_scripts text_eq
rootless = refl

-- The last lines of a script without subvolumes.
plain_finalize :
    render (finalize_lines (disk_layout_from_distro none (codes "1G") (codes "xfs") (codes "/m")))
    ≡ codes
        "# <<< install rootfs >>>\nsync\numount /m\numount /m\nlosetup -d \"$LOOP\"\ntrap - EXIT\nqemu-img convert -O qcow2 \"$RAW\" /out/disk.qcow2\nrm -f \"$RAW\"\n"
unfolding render finalize_lines disk_layout_from_distro
plain_finalize = refl
