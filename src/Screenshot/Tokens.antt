-- ===== src/Screenshot/Tokens.antt =====
-- readPPMToken: what it skips, and the token that it gives.
use plugin_vm.Base.{
  ℕ, ◌≡◌, refl, sym, ap, ◌∙◌, true, false, some, [], ◌∷◌, ◌++◌, arith, append_assoc, append-nil,
  ◌==◌, is_nil, All,
}
use mathlib.Core.List.{reverse, reverse-cons}
use plugin_vm.Base.Text.{Text, decimal, is_digit}
use plugin_vm.Screenshot.{blanks, token, comment, is_blank, token_from, read_ppm_token}
use plugin_vm.Sizes.Digits.{AllDigits, decimal-AllDigits}

-- What may stand before a token: white space, and comments of bytes that are not a line feed.
pub data Gap : Type 0 where
  nothing : Gap
  blank : ℕ → Gap → Gap
  remark : Text → Gap → Gap

abbrev pub gap_bytes : Gap → Text
gap_bytes nothing = []
gap_bytes (blank b g) = b ∷ gap_bytes g
gap_bytes (remark t g) = b'#' ∷ (t ++ 10 ∷ gap_bytes g)

abbrev pub IsGap : Gap → Type 0
IsGap nothing = Unit
IsGap (blank b g) = (is_blank b ≡ true) × IsGap g
IsGap (remark t g) = All (λ c. (c == 10) ≡ false) t × IsGap g

-- A byte that stands in a token.
abbrev pub IsInner : ℕ → Type 0
IsInner c = (is_blank c ≡ false) × ((c == b'#') ≡ false)

comment_skipped :
    (t : Text) (out s : Text)
    → All (λ c. (c == 10) ≡ false) t
    → token_from comment out (t ++ 10 ∷ s) ≡ token_from blanks out s
unfolding token_from
comment_skipped [] out s h = refl
comment_skipped (c ∷ t) out s (n, h) = rw n (comment_skipped t out s h)

pub gap_skipped :
    (g : Gap) (s : Text)
    → IsGap g
    → token_from blanks [] (gap_bytes g ++ s) ≡ token_from blanks [] s
unfolding token_from
gap_skipped nothing s h = refl
gap_skipped (blank b g) s (n, h) = rw n (gap_skipped g s h)
gap_skipped (remark t g) s (n, h) =
    ap (token_from comment []) (append_assoc t (10 ∷ gap_bytes g) s)
    ∙ comment_skipped t [] (gap_bytes g ++ s) n
    ∙ gap_skipped g s h

token_kept :
    (t out : Text) (b : ℕ) (s : Text)
    → All IsInner t
    → is_blank b ≡ true
    → is_nil out ≡ false
    → token_from token out (t ++ b ∷ s) ≡ some (reverse out ++ t, s)
unfolding token_from
token_kept [] out b s h e n = rw (e, n) (ap (λ r. some (r, s)) (sym (append-nil (reverse out))))
token_kept (c ∷ t) out b s ((x, y), h) e n =
    rw (x, y)
      (token_kept t (c ∷ out) b s h e refl
        ∙ ap (λ r. some (r, s)) (rw (reverse-cons c out) (append_assoc (reverse out) (c ∷ []) t)))

-- A token is read from behind any white space and comments, to the first white space after it,
-- which is taken from the stream too.
pub read_ppm_token_lem :
    (g : Gap) (t : Text) (b : ℕ) (s : Text)
    → IsGap g
    → is_nil t ≡ false
    → All IsInner t
    → is_blank b ≡ true
    → read_ppm_token (gap_bytes g ++ (t ++ b ∷ s)) ≡ some (t, s)
unfolding read_ppm_token token_from
read_ppm_token_lem g [] b s gap h inner e = cc
read_ppm_token_lem g (c ∷ t) b s gap h ((x, y), inner) e =
    gap_skipped g ((c ∷ t) ++ b ∷ s) gap ∙ rw (x, y) (token_kept t (c ∷ []) b s inner e refl)

digit-IsInner : (c : ℕ) → is_digit c ≡ true → IsInner c
unfolding is_blank is_digit
digit-IsInner c h = (ground arith, ground arith)

AllDigits-IsInner : (t : Text) → AllDigits t → All IsInner t
AllDigits-IsInner [] h = tt
AllDigits-IsInner (c ∷ t) (d, h) = (digit-IsInner c d, AllDigits-IsInner t h)

decimal-not_nil : (t : Text) {n : ℕ} → decimal t ≡ some n → is_nil t ≡ false
unfolding decimal
decimal-not_nil [] h = absurd (cc)
decimal-not_nil (c ∷ t) h = refl

-- A decimal number is such a token.
pub read_ppm_token-decimal :
    (g : Gap) (t : Text) {n : ℕ} (b : ℕ) (s : Text)
    → IsGap g
    → decimal t ≡ some n
    → is_blank b ≡ true
    → read_ppm_token (gap_bytes g ++ (t ++ b ∷ s)) ≡ some (t, s)
read_ppm_token-decimal g t b s gap h e =
    read_ppm_token_lem g t b s gap (decimal-not_nil t h)
      (AllDigits-IsInner t (decimal-AllDigits t h)) e
