-- ===== src/Sizes/Ram.antt =====
-- The RAM size: each unit's value, and the default.
use plugin_vm.Base.{
  ℕ, ◌*◌, ◌<◌, ◌^◌, ◌≡◌, refl, ap, ◌∙◌, true, false, ◌||◌, some, [], ◌∷◌, ◌++◌, arith, ◌==◌, All,
  append-nil,
}
use plugin_vm.Base.Int.{pos, wrap64, wrap64_of_fits}
use plugin_vm.Base.Text.{Text, is_digit, decimal, atoi, trim_space, ends_in}
use plugin_vm.Sizes.{parse_ram_to_mb, trimmed_ram_to_mb, trim_letter}
use plugin_vm.Sizes.Digits.{
  NoDigits, decimal-AllDigits, atoi-decimal, ends_in-append, ends_in_digit, trim_right_letter,
  All-mono, trim_right-All, trim_space-All, atoi-NoDigits,
}

-- The spellings of a unit, and its size in MiB.
pub data RamUnit : Type 0 where
  gib gib_lower mib mib_lower bare : RamUnit

abbrev pub letter : RamUnit → Text
letter gib = b'G' ∷ []
letter gib_lower = b'g' ∷ []
letter mib = b'M' ∷ []
letter mib_lower = b'm' ∷ []
letter bare = []

abbrev pub mib_per : RamUnit → ℕ
mib_per gib = 1024
mib_per gib_lower = 1024
mib_per mib = 1
mib_per mib_lower = 1
mib_per bare = 1

-- The unit's letter stands at the end, and what stands before it is read.
module _ (ds : Text) {n : ℕ} (number : decimal ds ≡ some n) (fits : n < 2 ^ 63) where
  digit_not :
      (u l : ℕ) → is_digit u ≡ false → is_digit l ≡ false → All (λ d. (d == u || d == l) ≡ false) ds
  unfolding is_digit
  digit_not u l hu hl =
      All-mono {P = λ c. is_digit c ≡ true} ds (λ c h. ground arith) (decimal-AllDigits ds number)

  reads_letter :
      (u l c : ℕ)
      → is_digit u ≡ false
      → is_digit l ≡ false
      → (c == u || c == l) ≡ true
      → atoi (trim_letter u l (ds ++ c ∷ [])) ≡ some (pos n)
  reads_letter u l c hu hl hc =
      rw (trim_right_letter (λ d. d == u || d == l) ds c hc (digit_not u l hu hl))
        (atoi-decimal ds number fits)

  reads_gib :
      (c : ℕ)
      → (c == b'G' || c == b'g') ≡ true
      → trimmed_ram_to_mb (ds ++ c ∷ []) ≡ wrap64 (pos (n * 1024))
  unfolding trimmed_ram_to_mb
  reads_gib c h = rw (
    ends_in-append ds c b'G',
    ends_in-append ds c b'g',
    h,
    reads_letter b'G' b'g' c (unfold is_digit in refl) (unfold is_digit in refl) h,
  )

  reads_mib :
      (c : ℕ)
      → (c == b'G' || c == b'g') ≡ false
      → (c == b'M' || c == b'm') ≡ true
      → trimmed_ram_to_mb (ds ++ c ∷ []) ≡ pos n
  unfolding trimmed_ram_to_mb
  reads_mib c g h =
      rw (ends_in-append ds c b'G', ends_in-append ds c b'g', g)
        (rw (
          ends_in-append ds c b'M',
          ends_in-append ds c b'm',
          h,
          reads_letter b'M' b'm' c (unfold is_digit in refl) (unfold is_digit in refl) h,
        ))

  ends_not : (u : ℕ) → is_digit u ≡ false → ends_in ds u ≡ false
  ends_not u h = ends_in_digit ds u (decimal-AllDigits ds number) h

  reads_bare : trimmed_ram_to_mb ds ≡ pos n
  unfolding trimmed_ram_to_mb
  reads_bare =
      rw (ends_not b'G' (unfold is_digit in refl), ends_not b'g' (unfold is_digit in refl))
        (rw (
          ends_not b'M' (unfold is_digit in refl),
          ends_not b'm' (unfold is_digit in refl),
          atoi-decimal ds number fits,
        ))

reads_unit :
    (ds : Text) (unit : RamUnit) (n : ℕ)
    → decimal ds ≡ some n
    → n * 1024 < 2 ^ 63
    → trimmed_ram_to_mb (ds ++ letter unit) ≡ pos (n * mib_per unit)
reads_unit ds gib n number fits =
    reads_gib ds number (omega arith) b'G' refl ∙ wrap64_of_fits (n * 1024) fits
reads_unit ds gib_lower n number fits =
    reads_gib ds number (omega arith) b'g' refl ∙ wrap64_of_fits (n * 1024) fits
reads_unit ds mib n number fits =
    reads_mib ds number (omega arith) b'M' refl refl ∙ ap pos (omega arith)
reads_unit ds mib_lower n number fits =
    reads_mib ds number (omega arith) b'm' refl refl ∙ ap pos (omega arith)
reads_unit ds bare n number fits =
    rw (append-nil ds) (reads_bare ds number (omega arith) ∙ ap pos (omega arith))

-- Digits with a unit behind them, whatever white space surrounds them, are their number of the
-- unit in MiB, if that fits an `int`.
pub parse_ram_to_mb_units :
    (ram ds : Text) (unit : RamUnit) (n : ℕ)
    → trim_space ram ≡ ds ++ letter unit
    → decimal ds ≡ some n
    → n * 1024 < 2 ^ 63
    → parse_ram_to_mb ram ≡ pos (n * mib_per unit)
unfolding parse_ram_to_mb
parse_ram_to_mb_units ram ds unit n trimmed number fits =
    rw trimmed (reads_unit ds unit n number fits)

-- A text with no digit in it, the empty text among them, means 4096 MiB.
pub parse_ram_to_mb_default : (ram : Text) → NoDigits ram → parse_ram_to_mb ram ≡ pos 4096
unfolding parse_ram_to_mb
parse_ram_to_mb_default ram h =
    let t = trim_space-All _ ram h in
    rw
      (atoi-NoDigits (trim_letter b'G' b'g' (trim_space ram))
        (trim_right-All _ _ (trim_space ram) t))
      (rw
        (atoi-NoDigits (trim_letter b'M' b'm' (trim_space ram))
          (trim_right-All _ _ (trim_space ram) t))
        (rw (atoi-NoDigits (trim_space ram) t) (ground arith)))
