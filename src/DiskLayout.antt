-- ===== src/DiskLayout.antt =====
-- candy/plugin-vm/vm_disk_layout.go: DiskLayoutFromDistro, and the defaults and the checks of
-- EmitDiskBuildScript. Paths and names are texts.
pub mod Scripts
pub mod Rules
pub mod Mounts
pub mod Nesting
pub mod Run
pub mod Balance
use plugin_vm.Base.{
  ℕ, ◌+◌, Bool, true, false, ◌&&◌, not, Option, none, some, List, [], ◌∷◌, ◌++◌, map, ◌==◌, is_nil,
  if◌then◌else◌, String, Outcome, ok, err, ◌>>=◌, ◌>>◌,
}
use plugin_vm.Base.Int.{ℤ, pos, ltb_ℤ}
use plugin_vm.Base.Print.{itoa}
use plugin_vm.Base.Text.{Text, codes, text_eq}

pub record Subvolume : Type 0 where
  pub name : Text
  pub mount_point : Text
  pub mount_options : Text

pub record DiskLayout : Type 0 where
  pub size_bytes_or_suffix : Text
  pub rootfs : Text
  pub esp_size_mib : ℤ
  pub mnt : Text
  pub esp_mount_point : Text
  pub subvolumes : List Subvolume

pub data DiskLayoutError : Type 0 where
  subvolumes_require_btrfs : Text → DiskLayoutError
  subvolume_without_name : DiskLayoutError
  mount_point_not_absolute : Text → Text → DiskLayoutError
  not_one_root : ℕ → DiskLayoutError
  unsupported_rootfs : Text → DiskLayoutError

-- DistroDef.DiskLayout
pub record DistroDiskLayout : Type 0 where
  pub esp_mount_point : Text
  pub subvolume : List Subvolume

-- A distribution that is not given and one without a layout are both none.
unfoldable pub disk_layout_from_distro : Option DistroDiskLayout → Text → Text → Text → DiskLayout
disk_layout_from_distro none size rootfs mnt = record {
  size_bytes_or_suffix = size;
  rootfs = rootfs;
  esp_size_mib = pos 0;
  mnt = mnt;
  esp_mount_point = [];
  subvolumes = [];
}
disk_layout_from_distro (some d) size rootfs mnt = record {
  size_bytes_or_suffix = size;
  rootfs = rootfs;
  esp_size_mib = pos 0;
  mnt = mnt;
  esp_mount_point = d.esp_mount_point;
  subvolumes = d.subvolume;
}

abbrev pub text_or : Text → Text → Text
text_or [] fallback = fallback
text_or (c ∷ s) fallback = c ∷ s

abbrev is_zero : ℤ → Bool
is_zero n = ltb_ℤ n (pos 1) && not (ltb_ℤ n (pos 0))

-- The values that stand for the fields which are not set.
unfoldable pub with_defaults : DiskLayout → DiskLayout
with_defaults l = record l {
  rootfs = text_or l.rootfs (codes "ext4");
  esp_size_mib = if is_zero l.esp_size_mib then pos 512 else l.esp_size_mib;
  mnt = text_or l.mnt (codes "/mnt");
  esp_mount_point = text_or l.esp_mount_point (codes "/boot/efi");
}

abbrev pub is_absolute : Text → Bool
is_absolute [] = false
is_absolute (c ∷ s) = c == b'/'

unfoldable pub is_root : Subvolume → Bool
is_root sv = text_eq sv.mount_point (codes "/")

-- The checks of one subvolume after the other, and how many are mounted at the root.
unfoldable pub count_roots : List Subvolume → Outcome DiskLayoutError ℕ
unfolding is_root
count_roots [] = ok 0
count_roots (sv ∷ rest) =
    let roots = count_roots rest in
    if is_nil sv.name
    then err subvolume_without_name
    else if not (is_absolute sv.mount_point)
    then err (mount_point_not_absolute sv.name sv.mount_point)
    else roots >>= λ n. ok ((if is_root sv then 1 else 0) + n)

unfoldable pub check_subvolumes : DiskLayout → Outcome DiskLayoutError (Unit {0})
unfolding count_roots
check_subvolumes l =
    if is_nil l.subvolumes
    then ok tt
    else if not (text_eq l.rootfs (codes "btrfs"))
    then err (subvolumes_require_btrfs l.rootfs)
    else count_roots l.subvolumes >>= λ n. if n == 1 then ok tt else err (not_one_root n)

unfoldable pub mkfs_cmd : Text → Outcome DiskLayoutError Text
mkfs_cmd rootfs =
    if text_eq rootfs (codes "ext4")
    then ok (codes "mkfs.ext4 -F")
    else if text_eq rootfs (codes "xfs")
    then ok (codes "mkfs.xfs -f")
    else if text_eq rootfs (codes "btrfs")
    then ok (codes "mkfs.btrfs -f")
    else err (unsupported_rootfs rootfs)
