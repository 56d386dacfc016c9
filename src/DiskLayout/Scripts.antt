-- ===== src/DiskLayout/Scripts.antt =====
-- candy/plugin-vm/vm_disk_layout.go: the two templates, line by line, and EmitDiskBuildScript.
use plugin_vm.Base.{
  List, [], ◌∷◌, ◌++◌, map, is_nil, if◌then◌else◌, String, Outcome, ok, ◌>>=◌, ◌>>◌,
}
use plugin_vm.Base.Print.{itoa}
use plugin_vm.Base.Text.{Text, codes}
use plugin_vm.DiskLayout.{
  Subvolume, DiskLayout, DiskLayoutError, with_defaults, is_root, check_subvolumes, mkfs_cmd,
}

-- A line of a script: the commands that mount and unmount, with the path and the words before it,
-- and any other text.
pub data Line : Type 0 where
  mount : Text → Text → Line
  umount : Text → Line
  shell : Text → Line

unfoldable pub show_line : Line → Text
show_line (mount words path) = codes "mount " ++ (words ++ b' ' ∷ path)
show_line (umount path) = codes "umount " ++ path
show_line (shell text) = text

unfoldable pub render : List Line → Text
unfolding show_line
render [] = []
render (l ∷ ls) = show_line l ++ 10 ∷ render ls

-- The subvolumes for which the templates test `ne .MountPoint "/"`, and those for which `eq`.
unfoldable pub others : List Subvolume → List Subvolume
unfolding is_root
others [] = []
others (sv ∷ rest) = let more = others rest in if is_root sv then more else sv ∷ more

unfoldable pub roots : List Subvolume → List Subvolume
unfolding is_root
roots [] = []
roots (sv ∷ rest) = let more = roots rest in if is_root sv then sv ∷ more else more

abbrev quiet_umount : Text → Line
quiet_umount path = shell (codes "  umount " ++ (path ++ codes " 2>/dev/null || true"))

-- The words of a mount of one subvolume.
subvolume_words : Subvolume → Text
subvolume_words sv =
    codes "-o subvol="
    ++ (sv.name
        ++ ((if is_nil sv.mount_options then [] else b',' ∷ sv.mount_options)
            ++ codes " \"${LOOP}p2\""))

abbrev pub path_in : Text → Subvolume → Text
path_in mnt sv = mnt ++ sv.mount_point

unfoldable pub mount_roots : Text → List Subvolume → List Line
unfolding subvolume_words
mount_roots mnt [] = []
mount_roots mnt (sv ∷ rest) = mount (subvolume_words sv) mnt ∷ mount_roots mnt rest

unfoldable pub mount_others : Text → List Subvolume → List Line
unfolding subvolume_words
mount_others mnt [] = []
mount_others mnt (sv ∷ rest) =
    shell (codes "mkdir -p " ++ path_in mnt sv)
    ∷ mount (subvolume_words sv) (path_in mnt sv)
    ∷ mount_others mnt rest

unfoldable pub create_lines : Text → List Subvolume → List Line
create_lines mnt [] = []
create_lines mnt (sv ∷ rest) =
    shell (codes "btrfs subvolume create " ++ (mnt ++ b'/' ∷ sv.name)) ∷ create_lines mnt rest

unfoldable pub umount_others : Text → List Subvolume → List Line
umount_others mnt [] = []
umount_others mnt (sv ∷ rest) = umount (path_in mnt sv) ∷ umount_others mnt rest

unfoldable pub quiet_others : Text → List Subvolume → List Line
quiet_others mnt [] = []
quiet_others mnt (sv ∷ rest) = quiet_umount (path_in mnt sv) ∷ quiet_others mnt rest

abbrev lines : List String → List Line
lines = map (λ s. shell (codes s))

unfoldable pub trap_lines : DiskLayout → List Line
unfolding others quiet_others
trap_lines l =
    shell (codes "trap '")
    ∷ quiet_umount (l.mnt ++ l.esp_mount_point)
    ∷ (quiet_others l.mnt (others l.subvolumes)
        ++ (quiet_umount l.mnt
            ∷ lines ("  losetup -d \"$LOOP\" 2>/dev/null || true" ∷ "' EXIT" ∷ [])))

esp_size : DiskLayout → Text
esp_size l = codes (itoa l.esp_size_mib)

unfoldable pub partition_lines : DiskLayout → Text → List Line
unfolding esp_size
partition_lines l mkfs =
    lines ("parted -s \"$LOOP\" \\" ∷ "  mklabel gpt \\" ∷ [])
    ++ (shell (codes "  mkpart ESP fat32 1MiB " ++ (esp_size l ++ codes "MiB \\"))
        ∷ shell (codes "  set 1 esp on \\")
        ∷ shell (codes "  mkpart root " ++ (l.rootfs ++ b' ' ∷ (esp_size l ++ codes "MiB 100%")))
        ∷ shell (codes "partprobe \"$LOOP\" || true")
        ∷ shell (codes "mkfs.fat -F32 \"${LOOP}p1\"")
        ∷ shell (mkfs ++ codes " \"${LOOP}p2\"")
        ∷ shell (codes "mkdir -p " ++ l.mnt)
        ∷ [])

-- The top level is mounted only to create the subvolumes in it.
unfoldable pub subvolume_lines : DiskLayout → List Line
unfolding create_lines mount_roots mount_others others roots
subvolume_lines l =
    lines (
      "# btrfs subvolume layout. The top level (subvolid=5) is mounted first ONLY to create the"
      ∷ "# subvolumes, then unmounted -- a subvolume cannot be created through a mount that is"
      ∷ "# already pinned to a different subvolume, and mounting the root subvolume directly would"
      ∷ "# leave nowhere to create its siblings." ∷ [])
    ++ (mount (codes "\"${LOOP}p2\"") l.mnt
        ∷ (create_lines l.mnt l.subvolumes
            ++ (umount l.mnt
                ∷ (mount_roots l.mnt (roots l.subvolumes)
                    ++ mount_others l.mnt (others l.subvolumes)))))

unfoldable pub root_lines : DiskLayout → List Line
unfolding subvolume_lines
root_lines l =
    if is_nil l.subvolumes then mount (codes "\"${LOOP}p2\"") l.mnt ∷ [] else subvolume_lines l

abbrev pub esp_lines : DiskLayout → List Line
esp_lines l =
    shell (codes "mkdir -p " ++ (l.mnt ++ l.esp_mount_point))
    ∷ mount (codes "\"${LOOP}p1\"") (l.mnt ++ l.esp_mount_point)
    ∷ shell (codes "# >>> install rootfs <<<")
    ∷ []

-- diskBuildScriptTmpl
unfoldable pub prelude_lines : DiskLayout → Text → List Line
unfolding trap_lines partition_lines root_lines
prelude_lines l mkfs =
    lines ("set -euo pipefail" ∷ "mkdir -p /out" ∷ "RAW=/out/disk.raw" ∷ [])
    ++ (shell (codes "truncate -s " ++ (l.size_bytes_or_suffix ++ codes " \"$RAW\""))
        ∷ shell (codes "LOOP=$(losetup --find --show --partscan \"$RAW\")")
        ∷ (trap_lines l ++ (partition_lines l mkfs ++ (root_lines l ++ esp_lines l))))

-- diskBuildFinalizeTmpl
unfoldable pub finalize_lines : DiskLayout → List Line
unfolding umount_others others
finalize_lines l =
    lines ("# <<< install rootfs >>>" ∷ "sync" ∷ [])
    ++ (umount (l.mnt ++ l.esp_mount_point)
        ∷ (umount_others l.mnt (others l.subvolumes)
            ++ (umount l.mnt
                ∷ lines (
                    "losetup -d \"$LOOP\"" ∷ "trap - EXIT"
                    ∷ "qemu-img convert -O qcow2 \"$RAW\" /out/disk.qcow2" ∷ "rm -f \"$RAW\""
                    ∷ []))))

-- The two scripts of a layout, or the reason to refuse it.
unfoldable pub disk_scripts : DiskLayout → Outcome DiskLayoutError (List Line × List Line)
unfolding with_defaults check_subvolumes mkfs_cmd
disk_scripts l = do
  let d = with_defaults l
  check_subvolumes d
  mkfs ← mkfs_cmd d.rootfs
  ok (prelude_lines d mkfs, finalize_lines d)

-- EmitDiskBuildScript
unfoldable pub emit_disk_build_script : DiskLayout → Outcome DiskLayoutError (Text × Text)
unfolding render disk_scripts
emit_disk_build_script l = disk_scripts l >>= λ scripts. ok (render scripts.0, render scripts.1)
