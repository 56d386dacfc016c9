-- ===== src/Screenshot.antt =====
-- candy/plugin-vm/libvirt_ops.go: captureDomainScreenshot, which reads the PPM picture that libvirt
-- streams, and readPPMToken. The stream is the list of the bytes that DomainScreenshot wrote.
pub mod Tokens
pub mod Pixels
use plugin_vm.Base.{
  ℕ, zero, suc, ◌+◌, ◌*◌, ◌^◌, Bool, true, false, ◌&&◌, ◌||◌, not, Option, none, some, List, [],
  ◌∷◌, String, ltb, leb, ◌==◌, str_eq, is_nil, if◌then◌else◌, Outcome, ok, err, ◌>>=◌,
}
use mathlib.Core.List.{reverse}
use plugin_vm.Base.Int.{ℤ, pos, neg, negsuc, pos_part, ltb_ℤ}
use plugin_vm.Base.Text.{Text, codes, decimal, text_eq}

-- `huge_dimensions` is the panic of image.NewRGBA.
pub data ScreenshotError : Type 0 where
  unexpected_eof : ScreenshotError
  not_p6 : Text → ScreenshotError
  invalid_dimensions : ℤ → ℤ → ScreenshotError
  unsupported_maxval : ℤ → ScreenshotError
  huge_dimensions : ScreenshotError
  short_pixels : ℕ → ℕ → ScreenshotError
  stream_failed : String → ScreenshotError
  virsh_failed : String → String → ScreenshotError

unfoldable pub is_blank : ℕ → Bool
is_blank b = b == b' ' || b == 9 || b == 10 || b == 13

-- Where the reader stands: `blanks` is skipWhitespace, `comment` the inner loop behind a `#`.
pub data Reading : Type 0 where
  blanks token comment : Reading

-- The place of the reader behind a byte, and what it has of the token.
unfoldable pub next_reading : Reading → ℕ → Reading
unfolding is_blank
next_reading comment b = if b == 10 then blanks else comment
next_reading blanks b = if is_blank b then blanks else if b == b'#' then comment else token
next_reading token b = if b == b'#' then comment else token

unfoldable pub next_out : Reading → ℕ → Text → Text
unfolding is_blank
next_out comment b out = out
next_out blanks b out = if is_blank b || b == b'#' then out else b ∷ out
next_out token b out = if is_blank b || b == b'#' then out else b ∷ out

unfoldable pub ends_token : Reading → ℕ → Text → Bool
unfolding is_blank
ends_token comment b out = false
ends_token blanks b out = false
ends_token token b out = is_blank b && not (is_nil out)

-- readPPMToken: the token and what is left of the stream, or its end. `out` is in reverse.
unfoldable pub token_from : Reading → Text → Text → Option (Text × Text)
unfolding next_reading next_out ends_token
token_from at out [] = none
token_from at out (b ∷ s) =
    let rest = token_from (next_reading at b) (next_out at b out) s in
    if ends_token at b out then some (reverse out, s) else rest

unfoldable pub read_ppm_token : Text → Option (Text × Text)
unfolding token_from
read_ppm_token s = token_from blanks [] s

-- The value of strconv.Atoi where the error is dropped: 0 for what is no number, and the bound of
-- the type for a number outside it.
abbrev clamped : Bool → ℕ → ℤ
clamped false n = if ltb n (2 ^ 63) then pos n else pos 0x7fffffffffffffff
clamped true n = if leb n (2 ^ 63) then neg (pos n) else negsuc 0x7fffffffffffffff

abbrev value_of : Bool → Option ℕ → ℤ
value_of negative none = pos 0
value_of negative (some n) = clamped negative n

unfoldable pub atoi_value : Text → ℤ
unfolding decimal
atoi_value [] = pos 0
atoi_value (c ∷ s) =
    if c == b'-'
    then value_of true (decimal s)
    else if c == b'+'
    then value_of false (decimal s)
    else value_of false (decimal (c ∷ s))

-- color.RGBA with A: 255.
pub record Pixel : Type 0 where
  pub r : ℕ
  pub g : ℕ
  pub b : ℕ

abbrev pub Row : Type 0
Row = Outcome ScreenshotError (List Pixel × Text)

abbrev pub prepend : Pixel → Row → Row
prepend p (err e) = err e
prepend p (ok (row, s)) = ok (p ∷ row, s)

-- One row from column `x` on, with the columns left. An error of the second or the third byte of a
-- pixel is dropped: the byte is 0.
unfoldable pub read_row : ℕ → ℕ → ℕ → Text → Row
read_row y x zero s = ok ([], s)
read_row y x (suc n) [] = err (short_pixels x y)
read_row y x (suc n) (r ∷ []) = prepend (record { r = r; g = 0; b = 0 }) (read_row y (x + 1) n [])
read_row y x (suc n) (r ∷ g ∷ []) =
    prepend (record { r = r; g = g; b = 0 }) (read_row y (x + 1) n [])
read_row y x (suc n) (r ∷ g ∷ b ∷ s) =
    prepend (record { r = r; g = g; b = b }) (read_row y (x + 1) n s)

abbrev pub Picture : Type 0
Picture = Outcome ScreenshotError (List (List Pixel))

abbrev pub prepend_row : List Pixel → Picture → Picture
prepend_row row (err e) = err e
prepend_row row (ok rows) = ok (row ∷ rows)

abbrev pub then_rows : (Text → Picture) → Row → Picture
then_rows next (err e) = err e
then_rows next (ok (row, s)) = prepend_row row (next s)

unfoldable pub read_rows : ℕ → ℕ → ℕ → Text → Picture
unfolding read_row
read_rows w y zero s = ok []
read_rows w y (suc n) s = then_rows (λ rest. read_rows w (y + 1) n rest) (read_row y 0 w s)

unfoldable pub found_or_eof : Option (Text × Text) → Outcome ScreenshotError (Text × Text)
found_or_eof none = err unexpected_eof
found_or_eof (some found) = ok found

token_or_eof : Text → Outcome ScreenshotError (Text × Text)
unfolding found_or_eof
token_or_eof s = found_or_eof (read_ppm_token s)

-- image.NewRGBA panics where four bytes for each pixel do not fit an `int`.
unfoldable pub decode_sized : ℤ → ℤ → ℤ → Text → Picture
unfolding read_rows
decode_sized w h maxval s =
    if not (ltb_ℤ (pos 0) w) || not (ltb_ℤ (pos 0) h)
    then err (invalid_dimensions w h)
    else if not (ltb_ℤ maxval (pos 256) && ltb_ℤ (pos 254) maxval)
    then err (unsupported_maxval maxval)
    else if leb (2 ^ 63) (4 * pos_part w * pos_part h)
    then err huge_dimensions
    else read_rows (pos_part w) 0 (pos_part h) s

-- The picture, row by row.
unfoldable pub decode_ppm : Text → Picture
unfolding token_or_eof decode_sized text_eq atoi_value
decode_ppm s = do
  (magic, s₁) ← token_or_eof s
  (w, s₂) ← if text_eq magic (codes "P6") then token_or_eof s₁ else err (not_p6 magic)
  (h, s₃) ← token_or_eof s₂
  (maxval, s₄) ← token_or_eof s₃
  decode_sized (atoi_value w) (atoi_value h) (atoi_value maxval) s₄

-- The bounded stream call and the fallback through the virsh command line.
abbrev fallback : String → String → Outcome String (List (List Pixel)) → Picture
fallback name e (err ferr) = err (virsh_failed e ferr)
fallback name e (ok img) = ok img

unfoldable pub capture_domain_screenshot :
    String → Outcome String Text → (String → Outcome String (List (List Pixel))) → Picture
capture_domain_screenshot name (ok stream) via_virsh = decode_ppm stream
capture_domain_screenshot name (err e) via_virsh =
    if str_eq name "" then err (stream_failed e) else fallback name e (via_virsh name)
