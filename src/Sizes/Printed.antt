-- ===== src/Sizes/Printed.antt =====
-- A number in decimal: the readers of a size read back what strconv.Itoa prints.
use Prim.Native.Char.{code}
use plugin_vm.Base.{
  ℕ, zero, suc, ◌+◌, ◌-◌, ◌*◌, ◌/◌, ◌%◌, ◌≤◌, ◌<◌, ◌≡◌, refl, ap, ◌∙◌, true, false, some, [], ◌∷◌,
  ◌++◌, String, ltb, arith, Bool-cases, inl, inr, All, All-append, All-reverse, passes_below,
  passes_below_at,
}
use text.Mathlib.TextLemmas.{nil-append, cons-append}
use mathlib.Core.List.{reverse, reverse-reverse}
use plugin_vm.Base.Int.{pos}
use plugin_vm.Base.Print.{◌<>◌, digit, print_from, itoa}
use plugin_vm.Base.Text.{
  Text, codes, text_eq, text_eq_iff, is_digit, is_space, digits_value, decimal, trim_right,
  trim_space,
}
use plugin_vm.Sizes.Digits.{decimal-AllDigits, trim_left_none, All-mono}

codes-append : (s t : String) → codes (s <> t) ≡ codes s ++ codes t
codes-append String.[] t = ap codes (nil-append t)
codes-append (String.◌∷◌ c s) t =
    ap codes (cons-append c s t) ∙ ap (λ r. code c ∷ r) (codes-append s t)

digits_value-append :
    (acc : ℕ) (s : Text) (c : ℕ) {m : ℕ}
    → digits_value acc s ≡ some m
    → is_digit c ≡ true
    → digits_value acc (s ++ c ∷ []) ≡ some (m * 10 + (c - b'0'))
unfolding digits_value
digits_value-append acc [] c h d = rw d (ap (λ k. some (k * 10 + (c - b'0'))) (cc))
digits_value-append acc (x ∷ s) c h d = elim (Bool-cases (is_digit x)) [
  | inl e ↦ rw e (digits_value-append (acc * 10 + (x - b'0')) s c (rw e at h) d)
  | inr e ↦ absurd (cc (rw e at h))
]

decimal-append :
    (s : Text) (c : ℕ) {m : ℕ}
    → decimal s ≡ some m
    → is_digit c ≡ true
    → decimal (s ++ c ∷ []) ≡ some (m * 10 + (c - b'0'))
unfolding decimal
decimal-append [] c h d = absurd (cc)
decimal-append (x ∷ s) c h d = digits_value-append 0 (x ∷ s) c h d

codes-digit : (n : ℕ) → n < 10 → codes (digit n) ≡ (b'0' + n) ∷ []
unfolding digit
codes-digit n h = (text_eq_iff (codes (digit n)) ((b'0' + n) ∷ [])).0 (
    passes_below_at (λ k. text_eq (codes (digit k)) ((b'0' + k) ∷ [])) 10 n h
      (unfold passes_below text_eq in refl))

decimal-digit : (n : ℕ) → n < 10 → decimal (codes (digit n)) ≡ some n
unfolding decimal digits_value is_digit
decimal-digit n h = rw (codes-digit n h) (ground arith)

is_digit-print : (n : ℕ) → n < 10 → is_digit (b'0' + n) ≡ true
unfolding is_digit
is_digit-print n h = ground arith

decimal-print_from : (f n : ℕ) → n ≤ f → decimal (codes (print_from f n)) ≡ some n
unfolding print_from
decimal-print_from zero n h = decimal-digit n (omega arith)
decimal-print_from (suc f) n h = elim (Bool-cases (ltb n 10)) [
  | inl small ↦ rw small (decimal-digit n (ground arith))
  | inr big ↦
      rw
        (
          big,
          codes-append (print_from f (n / 10)) (digit (n % 10)),
          codes-digit (n % 10) (omega arith),
        )
        (decimal-append (codes (print_from f (n / 10))) (b'0' + n % 10)
            (decimal-print_from f (n / 10) (ground arith)) (is_digit-print (n % 10) (omega arith))
          ∙ ap some (omega arith))
]

pub decimal-itoa : (n : ℕ) → decimal (codes (itoa (pos n))) ≡ some n
unfolding itoa
decimal-itoa n = decimal-print_from n n (omega arith)

-- A text without white space has none to trim.
trim_space-none : (s : Text) → All (λ c. is_space c ≡ false) s → trim_space s ≡ s
unfolding trim_space trim_right
trim_space-none s h =
    ap (trim_right is_space) (trim_left_none is_space s h)
    ∙ ap reverse (trim_left_none is_space (reverse s) (All-reverse _ s h))
    ∙ reverse-reverse s

digit-no_space : (c : ℕ) → is_digit c ≡ true → is_space c ≡ false
unfolding is_digit is_space
digit-no_space c h = ground arith

pub trim_space-decimal :
    (ds : Text) (c : ℕ) {n : ℕ}
    → decimal ds ≡ some n
    → is_space c ≡ false
    → trim_space (ds ++ c ∷ []) ≡ ds ++ c ∷ []
trim_space-decimal ds c h e =
    trim_space-none (ds ++ c ∷ [])
      (All-append _ ds (c ∷ []) (All-mono ds digit-no_space (decimal-AllDigits ds h)) (e, tt))
