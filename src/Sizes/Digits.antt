-- ===== src/Sizes/Digits.antt =====
-- Facts about texts of digits: what the number readers and the trimming functions do with them.
use plugin_vm.Base.{
  ℕ, ◌+◌, ◌-◌, ◌*◌, ◌<◌, ◌^◌, ◌≡◌, refl, Bool, true, false, none, some, [], ◌∷◌, ◌++◌, arith, ◌==◌,
  if◌then◌else◌, All, All-reverse, Bool-cases, inl, inr,
}
use mathlib.Core.List.{reverse, reverse-append, reverse-reverse}
use plugin_vm.Base.Int.{pos}
use plugin_vm.Base.Text.{
  Text, is_digit, digits_value, decimal, atoi, trim_left, trim_right, trim_space, is_space, ends_in,
}

-- What is read as a number is made of digits.
abbrev pub AllDigits : Text → Type 0
AllDigits = All (λ c. is_digit c ≡ true)

pub digits_value-AllDigits :
    (acc : ℕ) (s : Text) (n : ℕ) → digits_value acc s ≡ some n → AllDigits s
unfolding digits_value
digits_value-AllDigits acc [] n h = tt
digits_value-AllDigits acc (c ∷ s) n h = elim (Bool-cases (is_digit c)) [
  | inl d ↦ (d, digits_value-AllDigits (acc * 10 + (c - b'0')) s n (ground arith))
  | inr d ↦ absurd (none_of c d h)
]
  where
    none_of :
        (c : ℕ)
        → is_digit c ≡ false
        → (if is_digit c then digits_value (acc * 10 + (c - b'0')) s else none) ≡ some n
        → ⊥
    none_of c d h = ground arith

pub decimal-AllDigits : (s : Text) {n : ℕ} → decimal s ≡ some n → AllDigits s
unfolding decimal
decimal-AllDigits [] h = tt
decimal-AllDigits (c ∷ s) h = digits_value-AllDigits 0 (c ∷ s) _ h

pub decimal-nil : decimal [] ≡ none
unfolding decimal
decimal-nil = refl

-- A number in range is read by Atoi.
pub atoi-decimal : (s : Text) {n : ℕ} → decimal s ≡ some n → n < 2 ^ 63 → atoi s ≡ some (pos n)
unfolding atoi is_digit
atoi-decimal [] h lt = absurd (ground (arith, decimal-nil))
atoi-decimal (c ∷ s) h lt = ground (arith, (decimal-AllDigits (c ∷ s) h).0)

pub ends_in-append : (s : Text) (c d : ℕ) → ends_in (s ++ c ∷ []) d ≡ (c == d)
unfolding ends_in
ends_in-append [] c d = refl
ends_in-append (x ∷ []) c d = refl
ends_in-append (x ∷ y ∷ s) c d = ends_in-append (y ∷ s) c d

pub ends_in_digit : (s : Text) (d : ℕ) → AllDigits s → is_digit d ≡ false → ends_in s d ≡ false
unfolding ends_in is_digit
ends_in_digit [] d h e = refl
ends_in_digit (x ∷ []) d h e = ground arith
ends_in_digit (x ∷ y ∷ s) d h e = ends_in_digit (y ∷ s) d h.1 e

pub trim_left_none : (p : ℕ → Bool) (s : Text) → All (λ c. p c ≡ false) s → trim_left p s ≡ s
unfolding trim_left
trim_left_none p [] h = refl
trim_left_none p (c ∷ s) h = rw (h.0)

-- A letter behind digits is trimmed away, and the digits are kept.
pub trim_right_letter :
    (p : ℕ → Bool) (s : Text) (c : ℕ)
    → p c ≡ true
    → All (λ d. p d ≡ false) s
    → trim_right p (s ++ c ∷ []) ≡ s
unfolding trim_right trim_left
trim_right_letter p s c h k =
    rw (reverse-append s (c ∷ []))
      (rw h (rw (trim_left_none p (reverse s) (All-reverse _ s k)) (reverse-reverse s)))

pub All-mono : {P Q : ℕ → Type 0} (s : Text) → ((c : ℕ) → P c → Q c) → All P s → All Q s
All-mono [] f h = tt
All-mono (c ∷ s) f (p, h) = (f c p, All-mono s f h)

-- Texts with no digit, which no number reader accepts.
abbrev pub NoDigits : Text → Type 0
NoDigits = All (λ c. is_digit c ≡ false)

trim_left-All : (P : ℕ → Type 0) (p : ℕ → Bool) (s : Text) → All P s → All P (trim_left p s)
unfolding trim_left
trim_left-All P p [] h = tt
trim_left-All P p (c ∷ s) (q, h) = elim (Bool-cases (p c)) [
  | inl e ↦ rw e (trim_left-All P p s h)
  | inr e ↦ rw e (q, h)
]

pub trim_right-All : (P : ℕ → Type 0) (p : ℕ → Bool) (s : Text) → All P s → All P (trim_right p s)
unfolding trim_right
trim_right-All P p s h =
    All-reverse _ (trim_left p (reverse s)) (trim_left-All P p (reverse s) (All-reverse _ s h))

pub trim_space-All : (P : ℕ → Type 0) (s : Text) → All P s → All P (trim_space s)
unfolding trim_space trim_right
trim_space-All P s h =
    trim_right-All P is_space (trim_left is_space s) (trim_left-All P is_space s h)

decimal-NoDigits : (s : Text) → NoDigits s → decimal s ≡ none
unfolding decimal digits_value
decimal-NoDigits [] h = refl
decimal-NoDigits (c ∷ s) h = rw (h.0)

pub atoi-NoDigits : (s : Text) → NoDigits s → atoi s ≡ none
unfolding atoi
atoi-NoDigits [] h = refl
atoi-NoDigits (c ∷ s) h = ground (arith, decimal-NoDigits s h.1, decimal-NoDigits (c ∷ s) h)
