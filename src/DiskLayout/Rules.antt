-- ===== src/DiskLayout/Rules.antt =====
-- EmitDiskBuildScript: which layouts are accepted.
use plugin_vm.Base.{
  ℕ, ◌+◌, ◌≡◌, ◌⊎◌, ◌↔◌, refl, inl, inr, true, false, List, [], ◌∷◌, arith, ◌==◌, is_nil, All,
  if◌then◌else◌, ok, err, Succeeds, Bool-cases, >>=-eq-ok,
}
use plugin_vm.Base.Text.{Text, codes, text_eq, text_eq_iff}
use plugin_vm.DiskLayout.{
  Subvolume, DiskLayout, is_absolute, is_root, count_roots, check_subvolumes, mkfs_cmd,
  with_defaults, DiskLayoutError,
}
use plugin_vm.DiskLayout.Scripts.{disk_scripts}

-- A subvolume with a name, mounted at an absolute path.
abbrev pub IsNamed : Subvolume → Type 0
IsNamed sv = (is_nil sv.name ≡ false) × (is_absolute sv.mount_point ≡ true)

-- How many subvolumes are mounted at the root.
unfoldable pub roots_in : List Subvolume → ℕ
roots_in [] = 0
roots_in (sv ∷ rest) = (if is_root sv then 1 else 0) + roots_in rest

count_roots-ok : (svs : List Subvolume) → All IsNamed svs → count_roots svs ≡ ok (roots_in svs)
unfolding count_roots roots_in
count_roots-ok [] h = refl
count_roots-ok (sv ∷ rest) ((n, a), h) = rw (n, a, count_roots-ok rest h)

count_roots-inv :
    (svs : List Subvolume) {n : ℕ} → count_roots svs ≡ ok n → All IsNamed svs × (n ≡ roots_in svs)
unfolding count_roots roots_in
count_roots-inv [] h = (tt, ground arith)
count_roots-inv (sv ∷ rest) h = elim (Bool-cases (is_nil sv.name)) [
  | inl unnamed ↦ absurd (cc (rw unnamed at h))
  | inr named ↦ elim (Bool-cases (is_absolute sv.mount_point)) [
    | inr relative ↦ absurd (cc (rw (named, relative) at h))
    | inl absolute ↦
        let (m, counted, added) =
          >>=-eq-ok (count_roots rest) (λ m. ok ((if is_root sv then 1 else 0) + m))
            (rw (named, absolute) at h) in
        let (fine, e) = count_roots-inv rest counted in
        (((named, absolute), fine), ground (arith, e))
  ]
]

-- The subvolumes can be built: named, absolute, and one of them is the root.
pub record IsBuildable (svs : List Subvolume) : Type 0 where
  pub named : All IsNamed svs
  pub one_root : roots_in svs ≡ 1

-- A file system for which there is a command; subvolumes only on btrfs, and only if they can be
-- built.
pub record IsLayout (l : DiskLayout) : Type 0 where
  pub rootfs_known :
      (l.rootfs ≡ codes "ext4") ⊎ (l.rootfs ≡ codes "xfs") ⊎ (l.rootfs ≡ codes "btrfs")
  pub subvolumes_fit : (l.subvolumes ≡ []) ⊎ ((l.rootfs ≡ codes "btrfs") × IsBuildable l.subvolumes)

mkfs_cmd-ok :
    (r : Text)
    → (r ≡ codes "ext4") ⊎ (r ≡ codes "xfs") ⊎ (r ≡ codes "btrfs")
    → Succeeds (mkfs_cmd r)
unfolding mkfs_cmd text_eq
mkfs_cmd-ok r (inl e) = rw e (_, refl)
mkfs_cmd-ok r (inr (inl e)) = rw e (_, refl)
mkfs_cmd-ok r (inr (inr e)) = rw e (_, refl)

mkfs_cmd-inv :
    (r : Text) {m : Text}
    → mkfs_cmd r ≡ ok m
    → (r ≡ codes "ext4") ⊎ (r ≡ codes "xfs") ⊎ (r ≡ codes "btrfs")
unfolding mkfs_cmd
mkfs_cmd-inv r h = elim (Bool-cases (text_eq r (codes "ext4"))) [
  | inl e ↦ inl ((text_eq_iff r (codes "ext4")).0 e)
  | inr n ↦ elim (Bool-cases (text_eq r (codes "xfs"))) [
    | inl e ↦ inr (inl ((text_eq_iff r (codes "xfs")).0 e))
    | inr n' ↦ elim (Bool-cases (text_eq r (codes "btrfs"))) [
      | inl e ↦ inr (inr ((text_eq_iff r (codes "btrfs")).0 e))
      | inr n'' ↦ absurd (cc (rw (n, n', n'') at h))
    ]
  ]
]

check_subvolumes-ok :
    (l : DiskLayout)
    → (l.subvolumes ≡ []) ⊎ ((l.rootfs ≡ codes "btrfs") × IsBuildable l.subvolumes)
    → check_subvolumes l ≡ ok tt
unfolding check_subvolumes
check_subvolumes-ok l (inl e) = rw e
check_subvolumes-ok l (inr (b, h)) = elim (Bool-cases (is_nil l.subvolumes)) [
  | inl empty ↦ rw empty
  | inr full ↦ rw (
    full,
    (text_eq_iff l.rootfs (codes "btrfs")).1 b,
    count_roots-ok l.subvolumes h.named,
    h.one_root,
  )
]

is_nil-nil {ℓ} : {A : Type ℓ} (xs : List A) → is_nil xs ≡ true → xs ≡ []
is_nil-nil [] h = refl
is_nil-nil (x ∷ xs) h = cc

pub check_subvolumes-inv :
    (l : DiskLayout)
    → check_subvolumes l ≡ ok tt
    → (l.subvolumes ≡ []) ⊎ ((l.rootfs ≡ codes "btrfs") × IsBuildable l.subvolumes)
unfolding check_subvolumes
check_subvolumes-inv l h = elim (Bool-cases (is_nil l.subvolumes)) [
  | inl empty ↦ inl (is_nil-nil l.subvolumes empty)
  | inr full ↦ elim (Bool-cases (text_eq l.rootfs (codes "btrfs"))) [
    | inr other ↦ absurd (cc (rw (full, other) at h))
    | inl btrfs ↦
        let (n, counted, one) =
          >>=-eq-ok (count_roots l.subvolumes)
            (λ n. if n == 1 then ok tt else err (DiskLayoutError.not_one_root n))
            (rw (full, btrfs) at h) in
        let (fine, e) = count_roots-inv l.subvolumes counted in
        inr (
          (text_eq_iff l.rootfs (codes "btrfs")).0 btrfs,
          record { named = fine; one_root = ground (arith, e) },
        )
  ]
]

-- The scripts are made exactly for a layout that can be built: a root file system among ext4, xfs
-- and btrfs, with subvolumes only on btrfs, each of them named and mounted at an absolute path, and
-- exactly one at the root.
pub disk_scripts-Succeeds_iff :
    (l : DiskLayout) → Succeeds (disk_scripts l) ↔ IsLayout (with_defaults l)
unfolding disk_scripts
disk_scripts-Succeeds_iff l = (
  (λ (_, h).
      let (done, checked, rest) = >>=-eq-ok (check_subvolumes (with_defaults l)) _ h in
      let (mkfs, known, _) = >>=-eq-ok (mkfs_cmd (with_defaults l).rootfs) _ rest in
      record {
        rootfs_known = mkfs_cmd-inv (with_defaults l).rootfs known;
        subvolumes_fit = check_subvolumes-inv (with_defaults l) checked;
      }),
  (λ h.
      rw
        (
          check_subvolumes-ok (with_defaults l) h.subvolumes_fit,
          (mkfs_cmd-ok (with_defaults l).rootfs h.rootfs_known).1,
        )
        (_, refl)),
)
