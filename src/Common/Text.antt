-- ===== src/Common/Text.antt =====
-- What the program uses of fmt and strconv: decimal numerals (%d, Itoa) and quoted texts (%q).
use Prim.Native.Nat.{ℕ, zero, suc, ◌+◌, ◌/◌, ◌%◌}
use Prim.Native.Char.{Char, code}
use Prim.Native.String.{String}
pub use Prim.Native.String.{◌++◌}
use mathlib.Core.Path.{◌≡◌, refl}
use mathlib.Core.Bool.{◌||◌}
use mathlib.Core.List.{List, [], ◌∷◌}
use ccas.Common.Tests.{ltb, eqb, if◌then◌else◌}

nth : List String → ℕ → String
nth [] i = ""
nth (s ∷ r) zero = s
nth (s ∷ r) (suc i) = nth r i

-- The hexadecimal digit of a number below 16.
unfoldable pub digit : ℕ → String
unfolding nth
digit = nth (
    "0" ∷ "1" ∷ "2" ∷ "3" ∷ "4" ∷ "5" ∷ "6" ∷ "7" ∷ "8" ∷ "9" ∷ "a" ∷ "b" ∷ "c" ∷ "d" ∷ "e" ∷ "f"
    ∷ [])

-- `fuel` bounds the digits that are left; a number has fewer digits than its successor counts.
unfoldable pub digits_from : ℕ → ℕ → String → String
unfolding digit
digits_from zero n out = out
digits_from (suc fuel) n out =
    let rest = digits_from fuel (n / 10) (digit (n % 10) ++ out) in
    if ltb n 10 then digit n ++ out else rest

-- The verb %d of a number that is not negative.
unfoldable pub decimal : ℕ → String
unfolding digits_from
decimal n = digits_from (n + 1) n ""

-- One character under the verb %q. Beyond ASCII every character is taken as printable.
quote_char : Char → String
unfolding digit
quote_char c =
    let n = code c in
    if eqb n 34
    then "\\\""
    else if eqb n 92
    then "\\\\"
    else if eqb n 7
    then "\\a"
    else if eqb n 8
    then "\\b"
    else if eqb n 9
    then "\\t"
    else if eqb n 10
    then "\\n"
    else if eqb n 11
    then "\\v"
    else if eqb n 12
    then "\\f"
    else if eqb n 13
    then "\\r"
    else if ltb n 32 || eqb n 127
    then "\\x" ++ (digit (n / 16) ++ digit (n % 16))
    else String.◌∷◌ c ""

quote_body : String → String
unfolding quote_char
quote_body String.[] = "\""
quote_body (String.◌∷◌ c s) = quote_char c ++ quote_body s

-- The verb %q of a text.
unfoldable pub quote : String → String
unfolding quote_body
quote s = "\"" ++ quote_body s

decimal_test : decimal 18446744073709551615 ≡ "18446744073709551615"
unfolding decimal
decimal_test = refl

quote_test : quote "a\"b\n" ≡ "\"a\\\"b\\n\""
unfolding quote
quote_test = refl
