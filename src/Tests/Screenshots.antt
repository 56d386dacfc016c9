-- ===== src/Tests/Screenshots.antt =====
-- Pictures: one of two rows, with a comment in its header, and the same stream two bytes short.
use plugin_vm.Base.{◌≡◌, refl, [], ◌∷◌, ◌++◌, List, arith, ok, err}
use plugin_vm.Base.Text.{codes, decimal}
use plugin_vm.Screenshot.{
  Pixel, decode_ppm, read_ppm_token, is_blank, huge_dimensions, not_p6, short_pixels,
}
use plugin_vm.Screenshot.Tokens.{Gap, nothing, blank, remark}
use plugin_vm.Screenshot.Pixels.{
  ppm_bytes, picture_bytes, pixel_bytes, AreGaps, IsSized, decode_ppm-cut,
}

abbrev grey : Pixel
grey = record { r = 7; g = 8; b = 9 }

abbrev red : Pixel
red = record { r = 200; g = 0; b = 0 }

abbrev two_rows : List (List Pixel)
two_rows = (grey ∷ red ∷ []) ∷ (red ∷ grey ∷ []) ∷ []

abbrev noted : Gap
noted = remark (codes " v") (blank 10 nothing)

gaps : AreGaps noted nothing nothing
unfolding is_blank
gaps = ((((refl, (refl, tt)), (refl, tt))), tt, tt)

decode_ppm-cut_example :
    decode_ppm (
      ppm_bytes noted
        (codes "2")
        nothing
        (codes "2")
        nothing
        (picture_bytes ((grey ∷ red ∷ []) ∷ []) ++ (pixel_bytes (red ∷ []) ++ 7 ∷ [])))
    ≡ ok ((grey ∷ red ∷ []) ∷ (red ∷ record { r = 7; g = 0; b = 0 } ∷ []) ∷ [])
decode_ppm-cut_example =
    decode_ppm-cut noted nothing nothing (codes "2") (codes "2") ((grey ∷ red ∷ []) ∷ []) (red ∷ [])
      2 7 gaps cut_sized (refl, tt) (omega arith)
  where
    cut_sized : IsSized (codes "2") (codes "2") ((grey ∷ red ∷ []) ∷ (red ∷ []) ∷ []) 2
    cut_sized =
        unfold decimal in
        record {
          width = refl;
          height = refl;
          wide = omega arith;
          high = omega arith;
          small = omega arith;
        }

wrong_magic : decode_ppm (codes "P5 1 1 255 x") ≡ err (not_p6 (codes "P5"))
unfolding decode_ppm read_ppm_token
wrong_magic = refl

too_short : decode_ppm (codes "P6 1 1 255 ") ≡ err (short_pixels 0 0)
unfolding decode_ppm read_ppm_token
too_short = refl

-- image.NewRGBA panics on the sizes of this header.
too_large : decode_ppm (codes "P6 9000000000 9000000000 255 ") ≡ err huge_dimensions
unfolding decode_ppm read_ppm_token
too_large = refl
