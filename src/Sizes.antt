-- ===== src/Sizes.antt =====
-- candy/plugin-vm/vm.go (parseRAMtoMB) and candy/plugin-vm/vm_disk_layout.go (parseDiskSizeBytes):
-- the two readers of a size. An `int` and an `int64` are integers, kept to 64 bits where the code
-- multiplies.
pub mod Digits
pub mod Printed
pub mod Ram
pub mod Disk
use plugin_vm.Base.{
  ℕ, ◌+◌, ◌-◌, ◌*◌, ◌^◌, Bool, false, ◌&&◌, ◌||◌, String, Option, none, some, List, [], ◌∷◌, leb,
  ◌==◌, if◌then◌else◌, Outcome, ok, err,
}
use plugin_vm.Base.Int.{ℤ, pos, negsuc, neg, wrap64}
use plugin_vm.Base.Text.{
  Text, codes, text_eq, is_digit, trim_right, trim_space, ends_in, atoi, decimal, signed,
}

-- An `int` product with a positive constant.
abbrev pub times : ℤ → ℕ → ℤ
times (pos n) k = wrap64 (pos (n * k))
times (negsuc n) k = wrap64 (neg (pos ((n + 1) * k)))

-- The reads of `parseRAMtoMB` one after another: each falls to the next where it does not apply.
or_else : Option ℤ → ℤ → ℤ
or_else none d = d
or_else (some n) d = n

ram_in_unit : Text → ℕ → ℕ → Option ℤ → Option ℤ
ram_in_unit ram upper lower n = if ends_in ram upper || ends_in ram lower then n else none

map_times : ℕ → Option ℤ → Option ℤ
map_times k none = none
map_times k (some n) = some (times n k)

abbrev trim_letter : ℕ → ℕ → Text → Text
trim_letter upper lower s = trim_right (λ c. c == upper || c == lower) s

trimmed_ram_to_mb : Text → ℤ
unfolding or_else ram_in_unit map_times
trimmed_ram_to_mb ram =
    or_else (ram_in_unit ram b'G' b'g' (map_times 1024 (atoi (trim_letter b'G' b'g' ram)))) (
      or_else (ram_in_unit ram b'M' b'm' (atoi (trim_letter b'M' b'm' ram)))
        (or_else (atoi ram) (pos 4096)))

unfoldable pub parse_ram_to_mb : Text → ℤ
unfolding trimmed_ram_to_mb
parse_ram_to_mb ram = trimmed_ram_to_mb (trim_space ram)

pub data DiskSizeError : Type 0 where
  empty_size : DiskSizeError
  no_numeric_prefix number_out_of_range : Text → DiskSizeError
  unknown_suffix : Text → Text → DiskSizeError

-- The numeric prefix of a size, and what follows it.
pub span_digits : Text → Text × Text
unfolding is_digit
span_digits [] = ([], [])
span_digits (c ∷ s) =
    let (ds, rest) = span_digits s in if is_digit c then (c ∷ ds, rest) else ([], c ∷ s)

-- strings.ToUpper, as far as the suffixes see it: beside a to z, the dotless i becomes one of
-- their letters.
to_upper : ℕ → ℕ
to_upper c = if leb b'a' c && leb c b'z' then c - 32 else if c == 0x131 then b'I' else c

unfoldable pub upper : Text → Text
unfolding to_upper
upper [] = []
upper (c ∷ s) = to_upper c ∷ upper s

multiplier_in : List (String × ℕ) → Text → Option ℕ
unfolding text_eq
multiplier_in [] s = none
multiplier_in ((name, m) ∷ rest) s = if text_eq (codes name) s then some m else multiplier_in rest s

-- The `switch` on the upper-case suffix.
abbrev multipliers : List (String × ℕ)
multipliers =
    ("K", 2 ^ 10)
    ∷ ("KIB", 2 ^ 10)
    ∷ ("M", 2 ^ 20)
    ∷ ("MIB", 2 ^ 20)
    ∷ ("G", 2 ^ 30)
    ∷ ("GIB", 2 ^ 30)
    ∷ ("T", 2 ^ 40)
    ∷ ("TIB", 2 ^ 40)
    ∷ ("P", 2 ^ 50)
    ∷ ("PIB", 2 ^ 50)
    ∷ ("KB", 1000)
    ∷ ("MB", 1000 * 1000)
    ∷ ("GB", 1000 * 1000 * 1000)
    ∷ ("TB", 1000 * 1000 * 1000 * 1000)
    ∷ []

unfoldable pub multiplier : Text → Option ℕ
unfolding multiplier_in
multiplier suffix = multiplier_in multipliers (upper suffix)

with_multiplier : Text → Text → ℤ → Option ℕ → Outcome DiskSizeError ℤ
with_multiplier orig suffix num none = err (unknown_suffix orig suffix)
with_multiplier orig suffix num (some m) = ok (times num m)

with_suffix : Text → ℤ → Text → Outcome DiskSizeError ℤ
unfolding with_multiplier
with_suffix orig num [] = ok num
with_suffix orig num (c ∷ s) = with_multiplier orig (c ∷ s) num (multiplier (c ∷ s))

with_number : Text → Text → Option ℤ → Outcome DiskSizeError ℤ
unfolding with_suffix
with_number orig suffix none = err (number_out_of_range orig)
with_number orig suffix (some num) = with_suffix orig num suffix

prefixed_disk_size : Text → Text × Text → Outcome DiskSizeError ℤ
unfolding with_number
prefixed_disk_size orig ([], rest) = err (no_numeric_prefix orig)
prefixed_disk_size orig (d ∷ ds, rest) = with_number orig rest (signed false (decimal (d ∷ ds)))

trimmed_disk_size : Text → Text → Outcome DiskSizeError ℤ
unfolding prefixed_disk_size
trimmed_disk_size orig [] = err empty_size
trimmed_disk_size orig (c ∷ s) = prefixed_disk_size orig (span_digits (c ∷ s))

unfoldable pub parse_disk_size_bytes : Text → Outcome DiskSizeError ℤ
unfolding trimmed_disk_size
parse_disk_size_bytes s = trimmed_disk_size s (trim_space s)
