-- ===== src/Prelude/Order.antt =====
-- The order of texts: code point by code point, as Python compares `str`.
use Prim.Native.Nat.{Ordering, compare as compare_ℕ}
use Prim.Native.Char.{code}
use Prim.Native.String.compare as compare
use Prim.Native.String.{String, [], ◌∷◌, compare as compare_text}
use mathlib.Core.Path.{◌≡◌, refl, ap}
use mathlib.Core.Bool.{Bool, true, false}
use native.Mathlib.Omega.{arith}
use text.Mathlib.Text.{is_lt}
use text.Mathlib.TextEquality.{codes_equal}
use text.Mathlib.TextPositions.{compare_refl}

-- `s < t`
abbrev pub text_lt : String → String → Bool
text_lt s t = is_lt (compare_text s t)

pub text_lt_irrefl : (s : String) → text_lt s s ≡ false
text_lt_irrefl s = ap is_lt (compare_refl s)

lt_nil : (s : String) → text_lt s [] ≡ false
lt_nil [] = ap is_lt compare.nil-nil
lt_nil (c ∷ s) = ap is_lt (compare.cons-nil c s)

pub text_lt_trans : (s t u : String) → text_lt s t ≡ true → text_lt t u ≡ true → text_lt s u ≡ true
text_lt_trans s [] u p q = cc (lt_nil s)
text_lt_trans s (d ∷ t) [] p q = cc (lt_nil (d ∷ t))
text_lt_trans [] (d ∷ t) (e ∷ u) p q = ap is_lt (compare.nil-cons e u)
text_lt_trans (c ∷ s) (d ∷ t) (e ∷ u) p q = ground (
  arith,
  text_lt_trans s t u,
  compare.cons-cons c d s t,
  compare.cons-cons d e t u,
  compare.cons-cons c e s u,
)

pub text_lt_total : (s t : String) → text_lt s t ≡ false → text_lt t s ≡ false → s ≡ t
text_lt_total [] [] p q = refl
text_lt_total [] (d ∷ t) p q = cc (ap is_lt (compare.nil-cons d t))
text_lt_total (c ∷ s) [] p q = cc (ap is_lt (compare.nil-cons c s))
text_lt_total (c ∷ s) (d ∷ t) p q =
    let first : code c ≡ code d =
      ground (arith, compare.cons-cons c d s t, compare.cons-cons d c t s) in
    let head : compare_ℕ (code c) (code d) ≡ Ordering.eq = ground (arith, first) in
    let rest =
      text_lt_total s t (ground (arith, compare.cons-cons c d s t, first))
        (ground (arith, compare.cons-cons d c t s, first)) in
    λ i. codes_equal c d head i ∷ rest i
