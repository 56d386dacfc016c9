-- ===== src/DiskLayout/Nesting.antt =====
-- EmitDiskBuildScript: the order of mounting and unmounting where one path lies beneath another.
use plugin_vm.Base.{
  ◌≡◌, ◌↔◌, sym, ap, ◌∙◌, List, [], ◌∷◌, ◌++◌, arith, append_assoc, length, length-append, All,
  All-append, ok,
}
use plugin_vm.Base.Text.{Text}
use plugin_vm.DiskLayout.{Subvolume, DiskLayout, with_defaults}
use plugin_vm.DiskLayout.Scripts.{Line, others, disk_scripts}
use plugin_vm.DiskLayout.Mounts.{
  left_mounted, paths, unmounted, finalize_lines-unmounted, prelude_lines-left, disk_scripts-inv,
}

-- The first path lies in the directory that is the second.
abbrev pub Beneath : Text → Text → Type 0
Beneath p q = (rest : Text) × (p ≡ q ++ b'/' ∷ rest)

-- No path is mounted over by a later mount that it lies beneath.
abbrev pub NoneHidden : List Text → Type 0
NoneHidden [] = Unit
NoneHidden (p ∷ ps) = All (λ q. ¬ Beneath p q) ps × NoneHidden ps

-- No path is unmounted before one that lies beneath it.
abbrev pub InnerFirst : List Text → Type 0
InnerFirst [] = Unit
InnerFirst (p ∷ ps) = All (λ q. ¬ Beneath q p) ps × InnerFirst ps

-- No two subvolumes lie one beneath the other.
abbrev pub IsFlat : List Subvolume → Type 0
IsFlat [] = Unit
IsFlat (sv ∷ rest) =
    All (λ t. (¬ Beneath sv.mount_point t.mount_point) × (¬ Beneath t.mount_point sv.mount_point))
      rest
    × IsFlat rest

append-injective {ℓ} : {A : Type ℓ} (m a b : List A) → m ++ a ≡ m ++ b → a ≡ b
append-injective [] a b h = h
append-injective (x ∷ m) a b h = append-injective m a b (cc)

Beneath-cancel : (m p q : Text) → Beneath (m ++ p) (m ++ q) ↔ Beneath p q
Beneath-cancel m p q = (
  (λ (r, e). (r, append-injective m p (q ++ b'/' ∷ r) (e ∙ append_assoc m q (b'/' ∷ r)))),
  (λ (r, e). (r, ap (λ t. m ++ t) e ∙ sym (append_assoc m q (b'/' ∷ r)))),
)

-- A directory does not lie beneath a path in it.
not-Beneath_inner : (m p : Text) → ¬ Beneath m (m ++ p)
not-Beneath_inner m p (r, e) =
    absurd (omega (arith, ap length e, length-append (m ++ p) (b'/' ∷ r), length-append m p))

NoneHidden-split :
    (ps : List Text) (e : Text)
    → NoneHidden (ps ++ e ∷ [])
    → NoneHidden ps × All (λ p. ¬ Beneath p e) ps
NoneHidden-split [] e h = (tt, tt)
NoneHidden-split (p ∷ ps) e (here, more) =
    let (fine, above) = NoneHidden-split ps e more in
    let (kept, last) = All-split ps here in ((kept, fine), (last, above))
  where
    All-split :
        (qs : List Text)
        → All (λ q. ¬ Beneath p q) (qs ++ e ∷ [])
        → All (λ q. ¬ Beneath p q) qs × (¬ Beneath p e)
    All-split [] h = (tt, h.0)
    All-split (q ∷ qs) (h, k) = let (kept, last) = All-split qs k in ((h, kept), last)

NoneHidden-join :
    (ps : List Text) (e : Text)
    → NoneHidden ps
    → All (λ p. ¬ Beneath p e) ps
    → NoneHidden (ps ++ e ∷ [])
NoneHidden-join [] e h k = (tt, tt)
NoneHidden-join (p ∷ ps) e (here, more) (last, above) =
    (All-append (λ q. ¬ Beneath p q) ps (e ∷ []) here (last, tt), NoneHidden-join ps e more above)

InnerFirst-split : (ps : List Text) (m : Text) → InnerFirst (ps ++ m ∷ []) → InnerFirst ps
InnerFirst-split [] m h = tt
InnerFirst-split (p ∷ ps) m (here, more) = (All-front ps here, InnerFirst-split ps m more)
  where
    All-front :
        (qs : List Text) → All (λ q. ¬ Beneath q p) (qs ++ m ∷ []) → All (λ q. ¬ Beneath q p) qs
    All-front [] h = tt
    All-front (q ∷ qs) (h, k) = (h, All-front qs k)

module _ (m : Text) where
  -- The directory is beneath none of the paths in it.
  root_above : (svs : List Subvolume) → All (λ p. ¬ Beneath m p) (paths m svs)
  unfolding paths
  root_above [] = tt
  root_above (sv ∷ svs) = (not-Beneath_inner m sv.mount_point, root_above svs)

  InnerFirst-join :
      (svs : List Subvolume) → InnerFirst (paths m svs) → InnerFirst (paths m svs ++ m ∷ [])
  unfolding paths
  InnerFirst-join [] h = (tt, tt)
  InnerFirst-join (sv ∷ svs) (here, more) = (
    All-append (λ q. ¬ Beneath q (m ++ sv.mount_point)) (paths m svs) (m ∷ []) here
        (not-Beneath_inner m sv.mount_point, tt),
    InnerFirst-join svs more,
  )

  apart :
      (sv : Subvolume) (svs : List Subvolume)
      → All (λ q. ¬ Beneath (m ++ sv.mount_point) q) (paths m svs)
      → All (λ q. ¬ Beneath q (m ++ sv.mount_point)) (paths m svs)
      → All
          (λ (t : Subvolume).
            (¬ Beneath sv.mount_point t.mount_point) × (¬ Beneath t.mount_point sv.mount_point))
          svs
  unfolding paths
  apart sv [] h k = tt
  apart sv (t ∷ svs) (h, hs) (k, ks) = (
    (
      (λ b. h ((Beneath-cancel m sv.mount_point t.mount_point).1 b)),
      (λ b. k ((Beneath-cancel m t.mount_point sv.mount_point).1 b)),
    ),
    apart sv svs hs ks,
  )

  apart-inv :
      (sv : Subvolume) (svs : List Subvolume)
      → All
          (λ (t : Subvolume).
            (¬ Beneath sv.mount_point t.mount_point) × (¬ Beneath t.mount_point sv.mount_point))
          svs
      → All (λ q. ¬ Beneath (m ++ sv.mount_point) q) (paths m svs)
        × All (λ q. ¬ Beneath q (m ++ sv.mount_point)) (paths m svs)
  unfolding paths
  apart-inv sv [] h = (tt, tt)
  apart-inv sv (t ∷ svs) ((h, k), rest) =
      let (hs, ks) = apart-inv sv svs rest in
      (
        ((λ b. h ((Beneath-cancel m sv.mount_point t.mount_point).0 b)), hs),
        ((λ b. k ((Beneath-cancel m t.mount_point sv.mount_point).0 b)), ks),
      )

  IsFlat-orders :
      (svs : List Subvolume) → IsFlat svs ↔ (NoneHidden (paths m svs) × InnerFirst (paths m svs))
  unfolding paths
  IsFlat-orders [] = ((λ _. (tt, tt)), (λ _. tt))
  IsFlat-orders (sv ∷ svs) = (
    (λ (here, more).
        let (hs, ks) = apart-inv sv svs here in
        let (a, b) = (IsFlat-orders svs).0 more in ((hs, a), (ks, b))),
    (λ ((hs, a), (ks, b)). (apart sv svs hs ks, (IsFlat-orders svs).1 (a, b))),
  )

  -- The ESP's path, beside those of the subvolumes.
  above_esp :
      (e : Text) (svs : List Subvolume)
      → All (λ p. ¬ Beneath p (m ++ e)) (paths m svs)
        ↔ All (λ (sv : Subvolume). ¬ Beneath sv.mount_point e) svs
  unfolding paths
  above_esp e [] = ((λ h. tt), (λ h. tt))
  above_esp e (sv ∷ svs) = (
    (λ (h, k). ((λ b. h ((Beneath-cancel m sv.mount_point e).1 b)), (above_esp e svs).0 k)),
    (λ (h, k). ((λ b. h ((Beneath-cancel m sv.mount_point e).0 b)), (above_esp e svs).1 k)),
  )

-- The two scripts of an accepted layout are in order, so that no mount is hidden by a later one and
-- no path is unmounted before one beneath it, exactly when no subvolume lies beneath another one or
-- beneath the ESP: the subvolumes are unmounted in the order in which they are mounted, so a nested
-- pair fails on one side whichever way it is declared.
pub disk_scripts-nested :
    (l : DiskLayout) (p f : List Line)
    → disk_scripts l ≡ ok (p, f)
    → (NoneHidden (left_mounted p []) × InnerFirst (unmounted f)) ↔ (
        IsFlat (others (with_defaults l).subvolumes)
        × All
            (λ (sv : Subvolume). ¬ Beneath sv.mount_point (with_defaults l).esp_mount_point)
            (others (with_defaults l).subvolumes))
disk_scripts-nested l p f made =
    let (mkfs, root, ep, ef) = disk_scripts-inv l made in
    let d = with_defaults l in
    let svs = others d.subvolumes in
    let m = d.mnt in
    let esp = m ++ d.esp_mount_point in
    let ps = paths m svs in
    rw
      (
        ap (λ t. left_mounted t []) ep ∙ prelude_lines-left d mkfs root,
        ap unmounted ef ∙ finalize_lines-unmounted d,
      )
      (
        (λ ((_, mounts), (_, releases)).
            let (hidden, above) = NoneHidden-split ps esp mounts in
            (
              (IsFlat-orders m svs).1 (hidden, InnerFirst-split ps m releases),
              (above_esp m d.esp_mount_point svs).0 above,
            )),
        (λ (flat, above).
            let (hidden, inner) = (IsFlat-orders m svs).0 flat in
            let high = (above_esp m d.esp_mount_point svs).1 above in
            (
              (
                All-append (λ q. ¬ Beneath m q) ps (esp ∷ []) (root_above m svs)
                    (not-Beneath_inner m d.esp_mount_point, tt),
                NoneHidden-join ps esp hidden high,
              ),
              (
                All-append (λ q. ¬ Beneath q esp) ps (m ∷ []) high
                    (not-Beneath_inner m d.esp_mount_point, tt),
                InnerFirst-join m svs inner,
              ),
            )),
      )
