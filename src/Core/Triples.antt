-- ===== src/Core/Triples.antt =====
-- Actions with what they assume and what they leave, when they return and when they raise.
use embers_diaries.Core.Result.{Result, ok, err, Exec, ◌>>=◌}

module _ {S A : Type 0} where
  abbrev pub Outcome : (A → S → Type 0) → (S → Type 0) → Result A × S → Type 0
  Outcome Q E (ok a, s) = Q a s
  Outcome Q E (err e, s) = E s

  -- From a state with `P`, the action returns into `Q`, or raises into `E`.
  abbrev pub Triple : (S → Type 0) → Exec S A → (A → S → Type 0) → (S → Type 0) → Type 0
  Triple P m Q E = (s : S) → P s → Outcome Q E (m s)

-- The first action leaves what the rest assumes.
pub Triple_then :
    {S A B : Type 0} (P : S → Type 0) (R : A → S → Type 0) (Q : B → S → Type 0) (E : S → Type 0)
    (m : Exec S A) (f : A → Exec S B)
    → Triple P m R E
    → ((a : A) → Triple (R a) (f a) Q E)
    → Triple P (m >>= f) Q E
Triple_then {S = S} {A = A} {B = B} P R Q E m f first rest s p = then_on (m s) (first s p)
  where
    then_on : (out : Result A × S) → Outcome R E out → Outcome Q E (((λ (_ : S). out) >>= f) out.1)
    then_on (ok a, t) r = rest a t r
    then_on (err e, t) r = r
