-- ===== src/Prelude/Lists.antt =====
-- Lists measured by native numbers, tests over lists, and sets of texts kept as lists.
use Prim.Native.Nat.{ℕ, zero, suc, ◌+◌, ◌≤◌}
use Prim.Native.String.{String}
use mathlib.Core.Path.{◌≡◌, refl, ap}
use mathlib.Core.Bool.{Bool, true, false, ◌&&◌, ◌||◌}
use mathlib.Core.Option.{Option, none, some}
use mathlib.Core.List.{List, [], ◌∷◌, ◌++◌, map}
use native.Mathlib.Omega.{arith}
use text.Mathlib.Text.{◌==◌}
use text.Mathlib.TextEquality.{eq_iff}
use embers_diaries.Prelude.Tests.{if◌then◌else◌}

module _ {ℓ} {A : Type ℓ} where
  abbrev pub length : List A → ℕ
  length [] = 0
  length (x ∷ xs) = suc (length xs)

  -- A predicate that holds of every element, as nested pairs.
  abbrev pub All {κ} : (A → Type κ) → List A → Type κ
  All P [] = Unit
  All P (x ∷ xs) = P x × All P xs

  abbrev pub get_elem? : List A → ℕ → Option A
  get_elem? [] i = none
  get_elem? (x ∷ xs) zero = some x
  get_elem? (x ∷ xs) (suc i) = get_elem? xs i

  -- `xs[:n]` and `xs[n:]`
  abbrev pub take : ℕ → List A → List A
  take zero xs = []
  take (suc n) [] = []
  take (suc n) (x ∷ xs) = x ∷ take n xs

  abbrev pub drop : ℕ → List A → List A
  drop zero xs = xs
  drop (suc n) [] = []
  drop (suc n) (x ∷ xs) = drop n xs

  -- `all(test(x) for x in xs)`
  abbrev pub all_of : (A → Bool) → List A → Bool
  all_of test [] = true
  all_of test (x ∷ xs) = test x && all_of test xs

  -- `[x for x in xs if test(x)]`
  abbrev pub select : (A → Bool) → List A → List A
  select test [] = []
  select test (x ∷ xs) = let rest = select test xs in if test x then x ∷ rest else rest

  -- `any(test(x) for x in xs)`
  abbrev pub any_of : (A → Bool) → List A → Bool
  any_of test [] = false
  any_of test (x ∷ xs) = test x || any_of test xs

  -- The first element that passes a test, as a `for` loop with a `return` finds it.
  abbrev pub find_first : (A → Bool) → List A → Option A
  find_first test [] = none
  find_first test (x ∷ xs) = let rest = find_first test xs in if test x then some x else rest

-- `x in xs`, for a list or a set of texts.
abbrev pub member : String → List String → Bool
member a [] = false
member a (x ∷ xs) = (x == a) || member a xs

-- `s.add(a)`
abbrev pub add : String → List String → List String
add a xs = if member a xs then xs else xs ++ a ∷ []

-- `s.discard(a)`: a set holds an element at most once, and every copy goes.
abbrev pub discard : String → List String → List String
discard a [] = []
discard a (x ∷ xs) = let rest = discard a xs in if x == a then rest else x ∷ rest

pub member-append :
    (a : String) (xs ys : List String) → member a (xs ++ ys) ≡ (member a xs || member a ys)
member-append a [] ys = refl
member-append a (x ∷ xs) ys = ground (arith, member-append a xs ys)

pub member-add : (a b : String) (xs : List String) → member a (add b xs) ≡ ((b == a) || member a xs)
member-add a b xs = ground (arith, member-append a xs (b ∷ []), eq_iff b a)

pub member-discard :
    (a b : String) (xs : List String)
    → member a (discard b xs) ≡ (if b == a then false else member a xs)
member-discard a b [] = ground arith
member-discard a b (x ∷ xs) =
    ground (arith, member-discard a b xs, eq_iff x a, eq_iff x b, eq_iff b a)

pub length-append {ℓ} : {A : Type ℓ} (xs ys : List A) → length (xs ++ ys) ≡ length xs + length ys
length-append [] ys = omega arith
length-append (x ∷ xs) ys = omega (arith, length-append xs ys)

pub length-map {ℓ κ} :
    {A : Type ℓ} {B : Type κ} (xs : List A) (f : A → B) → length (map f xs) ≡ length xs
length-map [] f = refl
length-map (x ∷ xs) f = ap suc (length-map xs f)

pub length-discard : (a : String) (xs : List String) → length (discard a xs) ≤ length xs
length-discard a [] = omega arith
length-discard a (x ∷ xs) = ground (arith, length-discard a xs)
