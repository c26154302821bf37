-- ===== src/Common/Decimal.antt =====
-- strconv.Atoi on what strconv.Itoa prints.
use Prim.Native.Nat.{ℕ, zero, suc, ◌+◌, ◌-◌, ◌*◌, ◌/◌, ◌%◌, ◌<◌}
use Prim.Native.Char.{Char, code}
use Prim.Native.String.{String}
use mathlib.Core.Path.{◌≡◌, refl, ap, ◌∙◌}
use mathlib.Core.Logic.{inl, inr}
use mathlib.Core.Bool.{◌&&◌}
use mathlib.Core.Option.{Option, none, some}
use native.Mathlib.Omega.{arith}
use text.Mathlib.TextLemmas.{cons-append, nil-append}
use ccas.Common.Tests.{ltb, leb, if◌then◌else◌, Bool-cases}
use ccas.Common.Text.{decimal, digit, digits_from, ◌++◌}

-- The digits of a text, most significant first, behind the number read so far.
unfoldable pub parse_digits : ℕ → String → Option ℕ
parse_digits acc String.[] = some acc
parse_digits acc (String.◌∷◌ c s) =
    let n = code c in
    let rest = parse_digits (acc * 10 + (n - 48)) s in if leb 48 n && leb n 57 then rest else none

-- `n, _ := strconv.Atoi(s)` of a text of digits, without the bound of int: Go clamps a numeral above
-- 2^63 - 1. Any other text counts as 0, also a numeral with a sign, which Go reads. The programs
-- store what `Itoa` prints of numbers that are not negative, and a run has too few steps to count
-- beyond the bound.
unfoldable pub atoi : String → ℕ
unfolding parse_digits
atoi s = elim (parse_digits 0 s) [ none ↦ 0 | some n ↦ n ]

char_append : (c : Char) (s : String) → String.◌∷◌ c "" ++ s ≡ String.◌∷◌ c s
char_append c s = cons-append c "" s ∙ ap (String.◌∷◌ c) (nil-append s)

parse_digits-digit :
    (d acc : ℕ) (s : String)
    → d < 10
    → parse_digits acc (digit d ++ s) ≡ parse_digits (acc * 10 + d) s
unfolding parse_digits digit
parse_digits-digit zero acc s h = rw (char_append "0" s) refl
parse_digits-digit (suc zero) acc s h = rw (char_append "1" s) refl
parse_digits-digit (suc (suc zero)) acc s h = rw (char_append "2" s) refl
parse_digits-digit (suc (suc (suc zero))) acc s h = rw (char_append "3" s) refl
parse_digits-digit (suc (suc (suc (suc zero)))) acc s h = rw (char_append "4" s) refl
parse_digits-digit (suc (suc (suc (suc (suc zero))))) acc s h = rw (char_append "5" s) refl
parse_digits-digit (suc (suc (suc (suc (suc (suc zero)))))) acc s h = rw (char_append "6" s) refl
parse_digits-digit (suc (suc (suc (suc (suc (suc (suc zero))))))) acc s h =
    rw (char_append "7" s) refl
parse_digits-digit (suc (suc (suc (suc (suc (suc (suc (suc zero)))))))) acc s h =
    rw (char_append "8" s) refl
parse_digits-digit (suc (suc (suc (suc (suc (suc (suc (suc (suc zero))))))))) acc s h =
    rw (char_append "9" s) refl
parse_digits-digit (suc (suc (suc (suc (suc (suc (suc (suc (suc (suc d)))))))))) acc s h =
    absurd (omega arith)

parse_digits-digits_from :
    (fuel n : ℕ) (out : String)
    → n < fuel
    → parse_digits 0 (digits_from fuel n out) ≡ parse_digits n out
unfolding digits_from
parse_digits-digits_from zero n out h = absurd (omega arith)
parse_digits-digits_from (suc fuel) n out h = elim (Bool-cases (ltb n 10)) [
  | inl small ↦
      rw small
        (parse_digits-digit n 0 out (ground arith) ∙ ap (λ k. parse_digits k out) (omega arith))
  | inr large ↦ rw large (
      parse_digits-digits_from fuel (n / 10) (digit (n % 10) ++ out) (ground arith)
      ∙ (parse_digits-digit (n % 10) (n / 10) out (omega arith)
          ∙ ap (λ k. parse_digits k out) (omega arith)))
]

-- What is printed is read back.
pub atoi-decimal : (n : ℕ) → atoi (decimal n) ≡ n
unfolding atoi decimal
atoi-decimal n = rw (parse_digits-digits_from (n + 1) n "" (omega arith), atoi) refl
