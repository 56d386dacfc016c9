-- ===== src/DiskLayout/Run.antt =====
-- The scripts of EmitDiskBuildScript under `set -e`: which of their unmounts fail, and what a run
-- leaves mounted. A path stands for a mount on it, once for each of the mounts there.
use plugin_vm.Base.{
  ℕ, ◌+◌, ◌-◌, ◌<◌, ◌≡◌, refl, ap, ◌∙◌, Bool, true, false, ◌&&◌, ◌||◌, not, Option, none, some,
  List, [], ◌∷◌, ◌++◌, ltb, ◌==◌, arith, if◌then◌else◌, All, Bool-cases, inl, inr, length,
  length-append,
}
use mathlib.Core.Option.{some-injective}
use plugin_vm.Base.Text.{Text, text_eq, text_eq_iff}
use plugin_vm.DiskLayout.Scripts.{Line, mount, umount, shell}
use plugin_vm.DiskLayout.Mounts.{erase, left_mounted, unmounted}
use plugin_vm.DiskLayout.Nesting.{Beneath, InnerFirst}

unfoldable pub occurrences : Text → List Text → ℕ
occurrences p [] = 0
occurrences p (q ∷ qs) = (if text_eq p q then 1 else 0) + occurrences p qs

pub occurrences-append :
    (p : Text) (a b : List Text) → occurrences p (a ++ b) ≡ occurrences p a + occurrences p b
unfolding occurrences
occurrences-append p [] b = omega arith
occurrences-append p (q ∷ a) b = omega (arith, occurrences-append p a b)

pub occurrences-erase :
    (p u : Text) (qs : List Text)
    → occurrences p (erase u qs) ≡ occurrences p qs - (if text_eq p u then 1 else 0)
unfolding occurrences erase
occurrences-erase p u [] = ground arith
occurrences-erase p u (q ∷ qs) =
    ground (arith, text_eq_iff p u, text_eq_iff u q, text_eq_iff p q, occurrences-erase p u qs)

-- The first path lies in the directory that is the second.
unfoldable pub beneath : Text → Text → Bool
beneath [] dir = false
beneath (c ∷ p) [] = c == b'/'
beneath (c ∷ p) (d ∷ dir) = let rest = beneath p dir in c == d && rest

-- A mount on the path is in use while another one is in it.
unfoldable pub busy : Text → List Text → Bool
unfolding beneath
busy dir [] = false
busy dir (p ∷ ps) = let rest = busy dir ps in beneath p dir || rest

-- The mounts behind a script that runs under `set -e`: an unmount of a path that is not mounted, or
-- that is in use, fails and ends it. All other commands are taken to succeed.
unfoldable pub run_mounts : List Line → List Text → Option (List Text)
unfolding busy occurrences erase
run_mounts [] ps = some ps
run_mounts (mount words p ∷ ls) ps = run_mounts ls (ps ++ p ∷ [])
run_mounts (umount p ∷ ls) ps =
    let rest = run_mounts ls (erase p ps) in
    if ltb 0 (occurrences p ps) && not (busy p ps) then rest else none
run_mounts (shell text ∷ ls) ps = run_mounts ls ps

pub run_mounts-append :
    (a b : List Line) (ps qs : List Text)
    → run_mounts a ps ≡ some qs
    → run_mounts (a ++ b) ps ≡ run_mounts b qs
unfolding run_mounts
run_mounts-append [] b ps qs h = ap (run_mounts b) (some-injective _ _ h)
run_mounts-append (mount words p ∷ a) b ps qs h = run_mounts-append a b (ps ++ p ∷ []) qs h
run_mounts-append (shell text ∷ a) b ps qs h = run_mounts-append a b ps qs h
run_mounts-append (umount p ∷ a) b ps qs h =
    elim (Bool-cases (ltb 0 (occurrences p ps) && not (busy p ps))) [
      | inl free ↦ rw free (run_mounts-append a b (erase p ps) qs (rw free at h))
      | inr bound ↦ absurd (cc (rw bound at h))
    ]

-- A script without unmounts runs, and leaves what it mounts.
pub run_mounts-left :
    (a : List Line) (ps : List Text) → unmounted a ≡ [] → run_mounts a ps ≡ some (left_mounted a ps)
unfolding run_mounts unmounted left_mounted
run_mounts-left [] ps h = refl
run_mounts-left (mount words p ∷ a) ps h = run_mounts-left a (ps ++ p ∷ []) h
run_mounts-left (shell text ∷ a) ps h = run_mounts-left a ps h
run_mounts-left (umount p ∷ a) ps h = cc

unmounted-append : (a b : List Line) → unmounted (a ++ b) ≡ unmounted a ++ unmounted b
unfolding unmounted
unmounted-append [] b = refl
unmounted-append (mount words p ∷ a) b = unmounted-append a b
unmounted-append (shell text ∷ a) b = unmounted-append a b
unmounted-append (umount p ∷ a) b = ap (λ t. p ∷ t) (unmounted-append a b)

pub unmounted-nil :
    (a b : List Line) → unmounted a ≡ [] → unmounted b ≡ [] → unmounted (a ++ b) ≡ []
unmounted-nil a b h k = unmounted-append a b ∙ rw (h, k) refl

cong : {c d : ℕ} {p q : Text} → c ≡ d → p ≡ q → Path Text (c ∷ p) (d ∷ q)
cong e k = cc

beneath-Beneath : (p dir : Text) → beneath p dir ≡ true → Beneath p dir
unfolding beneath
beneath-Beneath [] dir h = cc
beneath-Beneath (c ∷ p) [] h = let e : c ≡ b'/' = ground arith in (p, ap (λ x. x ∷ p) e)
beneath-Beneath (c ∷ p) (d ∷ dir) h =
    let both : (c ≡ d) × (beneath p dir ≡ true) = ground arith in
    let (rest, under) = beneath-Beneath p dir both.1 in (rest, cong both.0 under)

not-Beneath_self : (p : Text) → ¬ Beneath p p
not-Beneath_self p (r, e) = absurd (omega (arith, ap length e, length-append p (b'/' ∷ r)))

not-busy :
    (u : Text) (ps : List Text)
    → ((p : Text) → 0 < occurrences p ps → ¬ Beneath p u)
    → busy u ps ≡ false
unfolding busy occurrences
not-busy u [] h = refl
not-busy u (q ∷ ps) h = elim (Bool-cases (beneath q u)) [
  | inl under ↦ absurd (h q (ground (arith, text_eq_iff q q)) (beneath-Beneath q u under))
  | inr apart ↦ rw apart (not-busy u ps (λ p some_of. h p (omega arith)))
]

All-occurs : (P : Text → Type 0) (p : Text) (qs : List Text) → All P qs → 0 < occurrences p qs → P p
unfolding occurrences
All-occurs P p [] all some_of = absurd (omega arith)
All-occurs P p (q ∷ qs) (first, rest) some_of = elim (Bool-cases (text_eq p q)) [
  | inl e ↦ rw ((text_eq_iff p q).0 e) first
  | inr e ↦ All-occurs P p qs rest (omega (arith, rw e at some_of))
]

abbrev pub NoMount : List Line → Type 0
NoMount [] = Unit
NoMount (mount words p ∷ ls) = ⊥
NoMount (umount p ∷ ls) = NoMount ls
NoMount (shell text ∷ ls) = NoMount ls

none_left : (ps : List Text) → ((p : Text) → occurrences p ps ≡ 0) → ps ≡ []
unfolding occurrences
none_left [] h = refl
none_left (p ∷ ps) h = absurd (ground (arith, h p, text_eq_iff p p))

-- A script that only unmounts runs, and leaves nothing mounted, where it unmounts each mount once and
-- the inner ones first.
pub run_mounts-releases :
    (f : List Line) (ps : List Text)
    → NoMount f
    → InnerFirst (unmounted f)
    → ((p : Text) → occurrences p ps ≡ occurrences p (unmounted f))
    → run_mounts f ps ≡ some []
unfolding run_mounts unmounted occurrences
run_mounts-releases [] ps quiet inner same = ap some (none_left ps same)
run_mounts-releases (mount words p ∷ f) ps quiet inner same = absurd quiet
run_mounts-releases (shell text ∷ f) ps quiet inner same = run_mounts-releases f ps quiet inner same
run_mounts-releases (umount u ∷ f) ps quiet (first, inner) same =
    rw (is_mounted, not-busy u ps apart)
      (run_mounts-releases f (erase u ps) quiet inner
        (λ p. omega (arith, occurrences-erase p u ps, same p)))
  where
    is_mounted : ltb 0 (occurrences u ps) ≡ true
    is_mounted = ground (arith, same u, text_eq_iff u u)

    apart : (p : Text) → 0 < occurrences p ps → ¬ Beneath p u
    apart p some_of = elim (Bool-cases (text_eq p u)) [
      | inl e ↦ rw ((text_eq_iff p u).0 e) (not-Beneath_self u)
      | inr e ↦
          All-occurs (λ q. ¬ Beneath q u) p (unmounted f) first
            (let n : occurrences p ps ≡ 0 + occurrences p (unmounted f) = rw e at (same p) in
              omega arith)
    ]
