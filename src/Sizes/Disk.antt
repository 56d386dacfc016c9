-- ===== src/Sizes/Disk.antt =====
-- The disk size: each unit's value at 64 bits, and what is refused.
use plugin_vm.Base.{
  ℕ, ◌*◌, ◌<◌, ◌≤◌, ◌^◌, ◌≡◌, refl, ap, sym, ◌∙◌, ◌≢◌, false, some, [], ◌∷◌, ◌++◌, lt→ltb, arith,
  ok,
}
use mathlib.Core.Path.{subst}
use plugin_vm.Base.Int.{pos, wrap64, wrap64_of_fits}
use plugin_vm.Base.Text.{Text, codes, is_digit, decimal, trim_space}
use plugin_vm.Sizes.{
  span_digits, upper, multiplier, multiplier_in, multipliers, with_multiplier, with_suffix,
  trimmed_disk_size, parse_disk_size_bytes,
}
use plugin_vm.Sizes.Digits.{AllDigits, decimal-AllDigits}

-- The units of a size, by their spelling in upper case.
pub data DiskUnit : Type 0 where
  bare k kib m mib g gib t tib p pib kb mb gb tb : DiskUnit

abbrev pub spelling : DiskUnit → Text
spelling bare = []
spelling k = codes "K"
spelling kib = codes "KIB"
spelling m = codes "M"
spelling mib = codes "MIB"
spelling g = codes "G"
spelling gib = codes "GIB"
spelling t = codes "T"
spelling tib = codes "TIB"
spelling p = codes "P"
spelling pib = codes "PIB"
spelling kb = codes "KB"
spelling mb = codes "MB"
spelling gb = codes "GB"
spelling tb = codes "TB"

abbrev pub bytes_per : DiskUnit → ℕ
bytes_per bare = 1
bytes_per k = 1024
bytes_per kib = 1024
bytes_per m = 1024 ^ 2
bytes_per mib = 1024 ^ 2
bytes_per g = 1024 ^ 3
bytes_per gib = 1024 ^ 3
bytes_per t = 1024 ^ 4
bytes_per tib = 1024 ^ 4
bytes_per p = 1024 ^ 5
bytes_per pib = 1024 ^ 5
bytes_per kb = 1000
bytes_per mb = 1000 ^ 2
bytes_per gb = 1000 ^ 3
bytes_per tb = 1000 ^ 4

abbrev HeadNotDigit : Text → Type 0
HeadNotDigit [] = Unit
HeadNotDigit (c ∷ s) = is_digit c ≡ false

span_digits-append :
    (ds suffix : Text)
    → AllDigits ds
    → HeadNotDigit suffix
    → span_digits (ds ++ suffix) ≡ (ds, suffix)
unfolding span_digits
span_digits-append [] [] h e = refl
span_digits-append [] (c ∷ s) h e = rw e
span_digits-append (d ∷ ds) suffix h e = rw (h.0, span_digits-append ds suffix h.1 e)

letter_head :
    (suffix : Text) (c : ℕ) (s : Text) → 58 ≤ c → upper suffix ≡ c ∷ s → HeadNotDigit suffix
unfolding upper is_digit
letter_head [] c s l h = tt
letter_head (d ∷ suffix) c s l h = ground arith

unit_head : (unit : DiskUnit) (suffix : Text) → upper suffix ≡ spelling unit → HeadNotDigit suffix
unit_head bare [] h = tt
unit_head bare (c ∷ s) h = absurd (unfold upper in cc)
unit_head _ suffix h = letter_head suffix _ _ (omega arith) h

table :
    (unit : DiskUnit)
    → unit ≢ bare
    → multiplier_in multipliers (spelling unit) ≡ some (bytes_per unit)
unfolding multiplier_in
table bare h = absurd (h refl)
table k h = refl
table _ h = refl

unit_multiplier :
    (unit : DiskUnit) (c : ℕ) (s : Text)
    → upper (c ∷ s) ≡ spelling unit
    → multiplier (c ∷ s) ≡ some (bytes_per unit)
unfolding multiplier
unit_multiplier unit c s h =
    subst (λ u. multiplier_in multipliers u ≡ some (bytes_per unit)) (sym h)
      (table unit (λ e. not_nil (rw e at h)))
  where
    not_nil : upper (c ∷ s) ≡ [] → ⊥
    not_nil e = unfold upper in cc

bare_of_nil : (unit : DiskUnit) → [] ≡ spelling unit → unit ≡ bare
bare_of_nil bare h = refl
bare_of_nil _ h = cc

with_unit :
    (orig suffix : Text) (unit : DiskUnit) (n : ℕ)
    → upper suffix ≡ spelling unit
    → n < 2 ^ 63
    → with_suffix orig (pos n) suffix ≡ ok (wrap64 (pos (n * bytes_per unit)))
unfolding with_suffix with_multiplier
with_unit orig [] unit n h lt =
    rw (bare_of_nil unit (unfold upper in h))
      (ap ok (sym (wrap64_of_fits n lt) ∙ ap (λ j. wrap64 (pos j)) (omega arith)))
with_unit orig (c ∷ s) unit n h lt = rw (unit_multiplier unit c s h)

trimmed_unit :
    (orig ds suffix : Text) (unit : DiskUnit) (n : ℕ)
    → upper suffix ≡ spelling unit
    → decimal ds ≡ some n
    → n < 2 ^ 63
    → trimmed_disk_size orig (ds ++ suffix) ≡ ok (wrap64 (pos (n * bytes_per unit)))
unfolding trimmed_disk_size with_suffix
trimmed_unit orig [] suffix unit n unit_named number fits = absurd (unfold decimal in cc)
trimmed_unit orig (d ∷ ds) suffix unit n unit_named number fits =
    rw
      (span_digits-append (d ∷ ds) suffix (decimal-AllDigits (d ∷ ds) number)
        (unit_head unit suffix unit_named))
      (rw number (rw (lt→ltb _ _ fits) (with_unit orig suffix unit n unit_named fits)))

-- Digits with a unit behind them in upper or lower case, whatever white space surrounds them, are
-- their number of the unit in bytes, of which the low 64 bits are kept; there is no error where
-- the product does not fit.
pub parse_disk_size_bytes_units :
    (s ds suffix : Text) (unit : DiskUnit) (n : ℕ)
    → trim_space s ≡ ds ++ suffix
    → upper suffix ≡ spelling unit
    → decimal ds ≡ some n
    → n < 2 ^ 63
    → parse_disk_size_bytes s ≡ ok (wrap64 (pos (n * bytes_per unit)))
unfolding parse_disk_size_bytes
parse_disk_size_bytes_units s ds suffix unit n trimmed unit_named number fits =
    rw trimmed (trimmed_unit s ds suffix unit n unit_named number fits)

vanishes : (j : ℕ) → wrap64 (pos (j * 2 ^ 24 * 1024 ^ 4)) ≡ pos 0
unfolding wrap64
vanishes j = ground arith

-- Every multiple of 2 ^ 24 TiB is read as a disk of 0 bytes, and so passes for a valid size.
pub parse_disk_size_bytes_wraps :
    (s ds suffix : Text) (j : ℕ)
    → trim_space s ≡ ds ++ suffix
    → upper suffix ≡ spelling t
    → decimal ds ≡ some (j * 2 ^ 24)
    → j * 2 ^ 24 < 2 ^ 63
    → parse_disk_size_bytes s ≡ ok (pos 0)
parse_disk_size_bytes_wraps s ds suffix j trimmed unit_named number fits =
    parse_disk_size_bytes_units s ds suffix t (j * 2 ^ 24) trimmed unit_named number fits
    ∙ ap ok (vanishes j)
