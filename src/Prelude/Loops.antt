-- ===== src/Prelude/Loops.antt =====
-- `while` on fuel, with its invariant rule, and the pigeonhole lemma that bounds walks which visit
-- nothing twice.
use Prim.Native.Nat.{ℕ, zero, suc, ◌≤◌, ◌<◌}
use Prim.Native.String.{String}
use mathlib.Core.Path.{◌≡◌, refl}
use mathlib.Core.Bool.{Bool, true, false}
use mathlib.Core.List.{List, [], ◌∷◌, ◌++◌}
use native.Mathlib.Omega.{arith}
use text.Mathlib.TextEquality.{eq_iff}
use embers_diaries.Prelude.Lists.{
  length, member, member-append, discard, member-discard, length-discard,
}

module _ {ℓ} {S : Type ℓ} (goes_on : S → Bool) (round : S → S) where
  -- Where the fuel runs out the state is returned as it stands.
  unfoldable pub while : ℕ → S → S
  while zero s = s
  while (suc n) s = elim (goes_on s) [ false ↦ s | true ↦ while n (round s) ]

  -- A count that falls with each round and starts below the fuel: the loop ends by its own test, in
  -- a state that keeps the invariant.
  pub while_inv {κ} :
      (Inv : S → Type κ) (left : S → ℕ)
      → ((a : S) → Inv a → goes_on a ≡ true → Inv (round a) × (left (round a) < left a))
      → (n : ℕ) (a : S) → left a < n
      → Inv a
      → Inv (while n a) × (goes_on (while n a) ≡ false)
  unfolding while
  while_inv Inv left step zero a below kept = absurd (omega arith)
  while_inv Inv left step (suc n) a below kept =
      ground (arith, step a kept, while_inv Inv left step n (round a))

abbrev pub NoRepeats : List String → Type 0
NoRepeats [] = Unit
NoRepeats (x ∷ xs) = (member x xs ≡ false) × NoRepeats xs

abbrev pub IsWithin : List String → List String → Type 0
IsWithin xs ys = (a : String) → member a xs ≡ true → member a ys ≡ true

discard-length :
    (a : String) (ys : List String) → member a ys ≡ true → length (discard a ys) < length ys
discard-length a [] h = ground arith
discard-length a (y ∷ ys) h = ground (arith, discard-length a ys, length-discard a ys)

-- A list without repeats within another is no longer than it.
pub pigeonhole : (xs ys : List String) → NoRepeats xs → IsWithin xs ys → length xs ≤ length ys
pigeonhole [] ys d h = omega arith
pigeonhole (x ∷ xs) ys d h =
    let shorter =
      pigeonhole xs (discard x ys) d.1
        (λ a m. ground (arith, h a, member-discard a x ys, eq_iff x a, d.0)) in
    ground (arith, shorter, discard-length x ys, h x, eq_iff x x)

pub NoRepeats-snoc :
    (xs : List String) (a : String) → NoRepeats xs → member a xs ≡ false → NoRepeats (xs ++ a ∷ [])
NoRepeats-snoc [] a d m = (refl, tt)
NoRepeats-snoc (x ∷ xs) a d m =
    ground
      (arith, NoRepeats-snoc xs a d.1, member-append x xs (a ∷ []), eq_iff x a, eq_iff a x, d.0)
