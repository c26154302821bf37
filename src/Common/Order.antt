-- ===== src/Common/Order.antt =====
-- The order `<` of Go on texts: bytewise, which on UTF-8 is the order of the code points.
use Prim.Native.Nat.{Ordering}
use Prim.Native.Nat as Nat
use Prim.Native.Char.{Char, code}
use Prim.Native.String.{String, compare}
use Prim.Native.String.compare as compare
use Prim.Native.String as Text
use mathlib.Core.Path.{◌≡◌, refl, ap}
use mathlib.Core.Bool.{Bool, true, false}
use native.Mathlib.Omega.{arith}
use text.Mathlib.Text.{is_lt}
use text.Mathlib.TextEquality.{path_by_compare}

abbrev pub text_lt : String → String → Bool
text_lt s t = is_lt (compare s t)

compare_cons :
    (c d : Char) (s t : String)
    → compare (Text.String.◌∷◌ c s) (Text.String.◌∷◌ d t)
      ≡ Text.then (Nat.compare (code c) (code d)) (compare s t)
compare_cons c d s t = compare.cons-cons c d s t

text_lt-nil : (c : Char) (s : String) → text_lt (Text.String.◌∷◌ c s) "" ≡ false
text_lt-nil c s = ap is_lt (compare.cons-nil c s)

nil-text_lt : (c : Char) (s : String) → text_lt "" (Text.String.◌∷◌ c s) ≡ true
nil-text_lt c s = ap is_lt (compare.nil-cons c s)

-- Neither of two texts below the other: they are the same.
text_lt-compare :
    (s t : String) → text_lt s t ≡ false → text_lt t s ≡ false → compare s t ≡ Ordering.eq
text_lt-compare Text.String.[] Text.String.[] h k = refl
text_lt-compare Text.String.[] (Text.String.◌∷◌ d t) h k = absurd (cc (nil-text_lt d t))
text_lt-compare (Text.String.◌∷◌ c s) Text.String.[] h k = absurd (cc (nil-text_lt c s))
text_lt-compare (Text.String.◌∷◌ c s) (Text.String.◌∷◌ d t) h k =
    ground (arith, compare_cons c d s t, compare_cons d c t s, text_lt-compare s t)

-- "Not above" is transitive.
pub text_lt_trans :
    (a b c : String) → text_lt b a ≡ false → text_lt c b ≡ false → text_lt c a ≡ false
text_lt_trans Text.String.[] b Text.String.[] h k = refl
text_lt_trans Text.String.[] b (Text.String.◌∷◌ z c) h k = text_lt-nil z c
text_lt_trans (Text.String.◌∷◌ x a) Text.String.[] c h k = absurd (cc (nil-text_lt x a))
text_lt_trans (Text.String.◌∷◌ x a) (Text.String.◌∷◌ y b) Text.String.[] h k =
    absurd (cc (nil-text_lt y b))
text_lt_trans (Text.String.◌∷◌ x a) (Text.String.◌∷◌ y b) (Text.String.◌∷◌ z c) h k =
    ground
      (arith, compare_cons y x b a, compare_cons z y c b, compare_cons z x c a, text_lt_trans a b c)

pub text_lt_asymm : (s t : String) → text_lt s t ≡ true → text_lt t s ≡ false
text_lt_asymm Text.String.[] Text.String.[] h = refl
text_lt_asymm Text.String.[] (Text.String.◌∷◌ d t) h = text_lt-nil d t
text_lt_asymm (Text.String.◌∷◌ c s) Text.String.[] h = absurd (cc (text_lt-nil c s))
text_lt_asymm (Text.String.◌∷◌ c s) (Text.String.◌∷◌ d t) h =
    ground (arith, compare_cons c d s t, compare_cons d c t s, text_lt_asymm s t)

-- Neither of two texts below the other: they are the same.
pub text_lt_antisymm : (s t : String) → text_lt s t ≡ false → text_lt t s ≡ false → s ≡ t
text_lt_antisymm s t h k = path_by_compare s t (text_lt-compare s t h k)
