-- ===== src/Core/Result.antt =====
-- What the engines raise, pure results, and actions on a state that may raise: what an action
-- changed before it raised stays changed.
use embers_diaries.Prelude.{
  ◌⊎◌, inl, inr, refl, ◌≡◌, ℕ, String, Bool, true, false, Option, ap, arith,
}

-- Messages are left out; the structured errors keep their fields.
pub data Error : Type 0 where
  value_error key_error integrity_error access_denied permission_error : Error
  storage_limit : String → ℕ → ℕ → Error
  concurrent_modification : String → String → String → ℕ → ℕ → String → Error

pub data Result {ℓ} (A : Type ℓ) : Type ℓ where
  ok : A → Result A
  err : Error → Result A

abbrev pub Exec {ℓ} : Type ℓ → Type ℓ → Type ℓ
Exec S A = S → Result A × S

module _ {ℓ} {S A : Type ℓ} where
  abbrev pub pure : A → Exec S A
  pure a s = (ok a, s)

  abbrev pub raise : Error → Exec S A
  raise e s = (err e, s)

  abbrev pub lift : Result A → Exec S A
  lift r s = (r, s)

  abbrev pub gets : (S → A) → Exec S A
  gets f s = (ok (f s), s)

module _ {ℓ} {S : Type ℓ} where
  abbrev pub modify : (S → S) → Exec S (Unit {ℓ})
  modify f s = (ok tt, f s)

  -- `if test: raise e`
  abbrev pub raise_if : Bool → Error → Exec S (Unit {ℓ})
  raise_if true e s = (err e, s)
  raise_if false e s = (ok tt, s)

module _ {ℓ} {S A B : Type ℓ} where
  abbrev continue : Result A → (A → Exec S B) → Exec S B
  continue (ok a) f s = f a s
  continue (err e) f s = (err e, s)

  infixl 10 ◌>>=◌ ◌>>◌
  abbrev pub ◌>>=◌ : Exec S A → (A → Exec S B) → Exec S B
  ◌>>=◌ m f s = let (r, s') = m s in continue r f s'

  abbrev pub ◌>>◌ : Exec S A → Exec S B → Exec S B
  m >> n = m >>= λ _. n

-- The value of an optional lookup, or an error.
abbrev pub require {ℓ} : {S A : Type ℓ} → Option A → Error → Exec S A
require Option.none e s = (err e, s)
require (Option.some a) e s = (ok a, s)

-- To split on a computed result and keep the equation.
pub Result-cases {ℓ} :
    {A : Type ℓ} (q : Result A) → ((a : A) × (q ≡ ok a)) ⊎ ((e : Error) × (q ≡ err e))
Result-cases (ok a) = inl (a, refl)
Result-cases (err e) = inr (e, refl)

-- An action whose value goes through a function returns what the action does.
pub then_pure :
    {S A B : Type 0} (out : Result A × S) (f : A → B) (b : B) (t : S)
    → ((λ (_ : S). out) >>= λ a. pure (f a)) out.1 ≡ (ok b, t)
    → (a : A) × (out ≡ (ok a, t)) × (f a ≡ b)
then_pure (ok a, s) f b t p = (a, λ i. (ok a, ap (λ x. x.1) p i), ground (arith, ap (λ x. x.0) p))
then_pure (err e, s) f b t p = absurd (ground (arith, p))
