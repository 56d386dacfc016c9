-- ===== src/Base/Print.antt =====
-- Joining strings, printing integers in decimal, and strings.Fields.
use Prim.Native.Char.{code}
use Prim.Native.Nat.{ℕ, zero, suc, ◌/◌, ◌%◌}
use Prim.Native.String
use Prim.Native.String.{String}
use mathlib.Core.List.{List, [], ◌∷◌}
use plugin_vm.Base.Int.{ℤ, pos, negsuc}
use plugin_vm.Base.Tests.{ltb, ◌==◌, if◌then◌else◌}
use plugin_vm.Base.Text.{is_space}

infixr 66 ◌<>◌
abbrev pub ◌<>◌ : String → String → String
s <> t = String.◌++◌ s t

unfoldable pub digit : ℕ → String
digit n =
    if n == 0
    then "0"
    else if n == 1
    then "1"
    else if n == 2
    then "2"
    else if n == 3
    then "3"
    else if n == 4
    then "4"
    else if n == 5
    then "5"
    else if n == 6
    then "6"
    else if n == 7
    then "7"
    else if n == 8
    then "8"
    else "9"

-- Fuel above the number is enough: each round divides it by ten.
unfoldable pub print_from : ℕ → ℕ → String
unfolding digit
print_from zero n = digit n
print_from (suc f) n =
    let rest = print_from f (n / 10) in if ltb n 10 then digit n else rest <> digit (n % 10)

-- strconv.Itoa
unfoldable pub itoa : ℤ → String
unfolding print_from
itoa (pos n) = print_from n n
itoa (negsuc n) = "-" <> print_from (suc n) (suc n)

abbrev flush : String → List String → List String
flush String.[] words = words
flush (String.◌∷◌ c s) words = String.◌∷◌ c s ∷ words

fields_from : String → String → List String
unfolding is_space
fields_from cur String.[] = flush cur []
fields_from cur (String.◌∷◌ c s) =
    let next = fields_from "" s in
    let longer = fields_from (cur <> String.◌∷◌ c String.[]) s in
    if is_space (code c) then flush cur next else longer

-- strings.Fields
unfoldable pub fields : String → List String
unfolding fields_from
fields s = fields_from "" s
