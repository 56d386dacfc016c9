-- ===== src/Screenshot/Pixels.antt =====
-- decode_ppm: the picture is what was written, and what a stream that ends early gives.
use plugin_vm.Base.{
  ℕ, zero, suc, ◌+◌, ◌*◌, ◌^◌, ◌<◌, ◌≡◌, refl, ap, ◌∙◌, some, List, [], ◌∷◌, ◌++◌, arith,
  append_assoc, length, All, ok,
}
use plugin_vm.Base.Int.{pos}
use plugin_vm.Base.Text.{Text, codes, decimal, is_digit, text_eq}
use plugin_vm.Screenshot.{
  Pixel, read_row, read_rows, prepend, prepend_row, then_rows, atoi_value, decode_sized, decode_ppm,
  read_ppm_token, is_blank,
}
use plugin_vm.Screenshot.Tokens.{
  Gap, nothing, gap_bytes, IsGap, read_ppm_token_lem, read_ppm_token-decimal,
}
use plugin_vm.Sizes.Digits.{decimal-AllDigits, decimal-nil}

abbrev pub pixel_bytes : List Pixel → Text
pixel_bytes [] = []
pixel_bytes (p ∷ ps) = p.r ∷ p.g ∷ p.b ∷ pixel_bytes ps

abbrev pub picture_bytes : List (List Pixel) → Text
picture_bytes [] = []
picture_bytes (row ∷ rows) = pixel_bytes row ++ picture_bytes rows

read_row_lem :
    (y x n : ℕ) (row : List Pixel) (s : Text)
    → length row ≡ n
    → read_row y x n (pixel_bytes row ++ s) ≡ ok (row, s)
unfolding read_row
read_row_lem y x zero [] s e = refl
read_row_lem y x zero (p ∷ row) s e = absurd (omega arith)
read_row_lem y x (suc n) [] s e = absurd (omega arith)
read_row_lem y x (suc n) (p ∷ row) s e =
    ap (prepend p) (read_row_lem y (x + 1) n row s (omega arith))

-- What the header says, within the range of `int`.
atoi_value-decimal : (t : Text) {n : ℕ} → decimal t ≡ some n → n < 2 ^ 63 → atoi_value t ≡ pos n
unfolding atoi_value is_digit
atoi_value-decimal [] h lt = absurd (ground (arith, decimal-nil))
atoi_value-decimal (c ∷ t) h lt = ground (arith, (decimal-AllDigits (c ∷ t) h).0)

decode_sized_lem :
    (w h : ℕ) (s : Text)
    → 0 < w
    → 0 < h
    → 4 * w * h < 2 ^ 63
    → decode_sized (pos w) (pos h) (pos 255) s ≡ read_rows w 0 h s
unfolding decode_sized
decode_sized_lem w h s pw ph small = ground arith

-- A picture file: its size as two numbers, and what may stand before each number of the header.
abbrev pub ppm_bytes : Gap → Text → Gap → Text → Gap → Text → Text
ppm_bytes g w g' h g'' s =
    codes "P6"
    ++ 10
      ∷ (gap_bytes g
          ++ (w ++ b' ' ∷ (gap_bytes g' ++ (h ++ 10 ∷ (gap_bytes g'' ++ (codes "255" ++ 10 ∷ s))))))

abbrev pub AreGaps : Gap → Gap → Gap → Type 0
AreGaps g g' g'' = IsGap g × IsGap g' × IsGap g''

decode_ppm_lem :
    (g g' g'' : Gap) (ws hs : Text) (w h : ℕ) (s : Text)
    → AreGaps g g' g''
    → decimal ws ≡ some w
    → decimal hs ≡ some h
    → decode_ppm (ppm_bytes g ws g' hs g'' s)
      ≡ decode_sized (atoi_value ws) (atoi_value hs) (pos 255) s
unfolding decode_ppm is_blank text_eq atoi_value decimal
decode_ppm_lem g g' g'' ws hs w h s (i, i', i'') ew eh = rw (magic, width, height, maxval) refl
  where
    after_height : Text
    after_height = gap_bytes g'' ++ (codes "255" ++ 10 ∷ s)

    after_width : Text
    after_width = gap_bytes g' ++ (hs ++ 10 ∷ after_height)

    after_magic : Text
    after_magic = gap_bytes g ++ (ws ++ b' ' ∷ after_width)

    magic : read_ppm_token (codes "P6" ++ 10 ∷ after_magic) ≡ some (codes "P6", after_magic)
    magic =
        read_ppm_token_lem nothing (codes "P6") 10 after_magic tt refl
          ((refl, refl), ((refl, refl), tt)) refl

    width : read_ppm_token after_magic ≡ some (ws, after_width)
    width = read_ppm_token-decimal g ws b' ' after_width i ew refl

    height : read_ppm_token after_width ≡ some (hs, after_height)
    height = read_ppm_token-decimal g' hs 10 after_height i' eh refl

    maxval : read_ppm_token after_height ≡ some (codes "255", s)
    maxval =
        read_ppm_token_lem g'' (codes "255") 10 s i'' refl
          ((refl, refl), ((refl, refl), ((refl, refl), tt))) refl

-- A picture of `w` columns and `h` rows, with each size in decimal, whose four bytes for each pixel
-- fit an `int`.
pub record IsSized (ws hs : Text) (rows : List (List Pixel)) (w : ℕ) : Type 0 where
  pub width : decimal ws ≡ some w
  pub height : decimal hs ≡ some (length rows)
  pub wide : 0 < w
  pub high : 0 < length rows
  pub small : 4 * w * length rows < 2 ^ 63

decode_ppm-sized :
    (g g' g'' : Gap) (ws hs : Text) (rows : List (List Pixel)) (w : ℕ) (s : Text)
    → AreGaps g g' g''
    → IsSized ws hs rows w
    → decode_ppm (ppm_bytes g ws g' hs g'' s) ≡ read_rows w 0 (length rows) s
decode_ppm-sized g g' g'' ws hs rows w s gaps sized =
    decode_ppm_lem g g' g'' ws hs w (length rows) s gaps sized.width sized.height
    ∙ rw
        (
          atoi_value-decimal ws sized.width (fits w (length rows) sized.high sized.small),
          atoi_value-decimal hs sized.height (fits' w (length rows) sized.wide sized.small),
        )
        (decode_sized_lem w (length rows) s sized.wide sized.high sized.small)
  where
    fits : (a b : ℕ) → 0 < b → 4 * a * b < 2 ^ 63 → a < 2 ^ 63
    fits a b p q = grind arith

    fits' : (a b : ℕ) → 0 < a → 4 * a * b < 2 ^ 63 → b < 2 ^ 63
    fits' a b p q = grind arith

read_row_cut :
    (y x n : ℕ) (row : List Pixel) (r : ℕ)
    → length row + 1 ≡ n
    → read_row y x n (pixel_bytes row ++ r ∷ [])
      ≡ ok (row ++ record { r = r; g = 0; b = 0 } ∷ [], [])
unfolding read_row
read_row_cut y x zero row r e = absurd (omega arith)
read_row_cut y x (suc zero) [] r e = refl
read_row_cut y x (suc (suc n)) [] r e = absurd (omega arith)
read_row_cut y x (suc n) (p ∷ row) r e =
    ap (prepend p) (read_row_cut y (x + 1) n row r (omega arith))

read_rows_cut :
    (w y : ℕ) (rows : List (List Pixel)) (row : List Pixel) (r : ℕ)
    → All (λ row. length row ≡ w) rows
    → length row + 1 ≡ w
    → read_rows w y (length (rows ++ row ∷ [])) (picture_bytes rows ++ (pixel_bytes row ++ r ∷ []))
      ≡ ok (rows ++ (row ++ record { r = r; g = 0; b = 0 } ∷ []) ∷ [])
unfolding read_rows
read_rows_cut w y [] row r h e =
    ap (then_rows (λ rest. read_rows w (y + 1) 0 rest)) (read_row_cut y 0 w row r e)
read_rows_cut w y (top ∷ rows) row r (e', h) e =
    ap (then_rows (λ rest. read_rows w (y + 1) (length (rows ++ row ∷ [])) rest)) (
      ap (read_row y 0 w)
        (append_assoc (pixel_bytes top) (picture_bytes rows) (pixel_bytes row ++ r ∷ []))
      ∙ read_row_lem y 0 w top (picture_bytes rows ++ (pixel_bytes row ++ r ∷ [])) e')
    ∙ ap (prepend_row top) (read_rows_cut w (y + 1) rows row r h e)

-- A stream that ends two bytes early is no error: the last pixel is taken for one without green and
-- blue.
pub decode_ppm-cut :
    (g g' g'' : Gap) (ws hs : Text) (rows : List (List Pixel)) (row : List Pixel) (w r : ℕ)
    → AreGaps g g' g''
    → IsSized ws hs (rows ++ row ∷ []) w
    → All (λ row. length row ≡ w) rows
    → length row + 1 ≡ w
    → decode_ppm (ppm_bytes g ws g' hs g'' (picture_bytes rows ++ (pixel_bytes row ++ r ∷ [])))
      ≡ ok (rows ++ (row ++ record { r = r; g = 0; b = 0 } ∷ []) ∷ [])
decode_ppm-cut g g' g'' ws hs rows row w r gaps sized even last =
    decode_ppm-sized g g' g'' ws hs (rows ++ row ∷ []) w
      (picture_bytes rows ++ (pixel_bytes row ++ r ∷ [])) gaps sized
    ∙ read_rows_cut w 0 rows row r even last
