-- ===== src/Base/Split.antt =====
-- strings.Split: what it gives for a text without the separator, and that joining undoes it.
use Prim.Native.Nat.{ℕ}
use mathlib.Core.Path.{◌≡◌, refl, sym, ap, ◌∙◌}
use mathlib.Core.Bool.{true, false}
use mathlib.Core.List.{List, [], ◌∷◌, ◌++◌, reverse, reverse-cons, append-nil, append_assoc}
use mathlib.Core.Logic.{inl, inr}
use native.Mathlib.Omega.{arith}
use plugin_vm.Base.Tests.{◌==◌, Bool-cases, ==_iff}
use plugin_vm.Base.Lists.{All}
use plugin_vm.Base.Text.{Text, split, split_at}

-- No code point of the text is the separator.
abbrev pub Lacks : ℕ → Text → Type 0
Lacks sep s = All (λ c. (c == sep) ≡ false) s

pub ==_refl : (c : ℕ) → (c == c) ≡ true
==_refl c = ground arith

reverse_step : (c : ℕ) (cur s : Text) → reverse (c ∷ cur) ++ s ≡ reverse cur ++ (c ∷ s)
reverse_step c cur s = rw (reverse-cons c cur) (append_assoc (reverse cur) (c ∷ []) s)

split_at_first :
    (sep : ℕ) (cur a b : Text)
    → Lacks sep a
    → split_at sep cur (a ++ sep ∷ b) ≡ (reverse cur ++ a) ∷ split sep b
unfolding split_at split
split_at_first sep cur [] b h =
    rw (==_refl sep) (ap (λ t. t ∷ split sep b) (sym (append-nil (reverse cur))))
split_at_first sep cur (c ∷ a) b (n, h) =
    rw n (split_at_first sep (c ∷ cur) a b h ∙ ap (λ t. t ∷ split sep b) (reverse_step c cur a))

split_at_last :
    (sep : ℕ) (cur a : Text) → Lacks sep a → split_at sep cur a ≡ (reverse cur ++ a) ∷ []
unfolding split_at
split_at_last sep cur [] h = ap (λ t. t ∷ []) (sym (append-nil (reverse cur)))
split_at_last sep cur (c ∷ a) (n, h) =
    rw n (split_at_last sep (c ∷ cur) a h ∙ ap (λ t. t ∷ []) (reverse_step c cur a))

pub split_first : (sep : ℕ) (a b : Text) → Lacks sep a → split sep (a ++ sep ∷ b) ≡ a ∷ split sep b
unfolding split
split_first sep a b h = split_at_first sep [] a b h

pub split_last : (sep : ℕ) (a : Text) → Lacks sep a → split sep a ≡ a ∷ []
unfolding split
split_last sep a h = split_at_last sep [] a h

-- strings.Join
abbrev pub join : ℕ → List Text → Text
join sep [] = []
join sep (a ∷ []) = a
join sep (a ∷ b ∷ rest) = a ++ sep ∷ join sep (b ∷ rest)

join_more :
    (sep : ℕ) (a : Text) (cur s : Text)
    → join sep (a ∷ split_at sep cur s) ≡ a ++ sep ∷ join sep (split_at sep cur s)
unfolding split_at
join_more sep a cur [] = refl
join_more sep a cur (c ∷ s) = elim (Bool-cases (c == sep)) [
  | inl e ↦ rw e
  | inr e ↦ rw e (join_more sep a (c ∷ cur) s)
]

join-split_at : (sep : ℕ) (cur s : Text) → join sep (split_at sep cur s) ≡ reverse cur ++ s
unfolding split_at
join-split_at sep cur [] = sym (append-nil (reverse cur))
join-split_at sep cur (c ∷ s) = elim (Bool-cases (c == sep)) [
  | inl e ↦ rw e (
      join_more sep (reverse cur) [] s
      ∙ ap (λ t. reverse cur ++ sep ∷ t) (join-split_at sep [] s)
      ∙ ap (λ x. reverse cur ++ x ∷ s) (sym ((==_iff c sep).0 e)))
  | inr e ↦ rw e (join-split_at sep (c ∷ cur) s ∙ reverse_step c cur s)
]

pub join-split : (sep : ℕ) (s : Text) → join sep (split sep s) ≡ s
unfolding split
join-split sep s = join-split_at sep [] s
