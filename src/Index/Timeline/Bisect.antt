-- ===== src/Index/Timeline/Bisect.antt =====
-- The loop of `bisect` on a list whose front lies left of the place and whose rest does not.
use embers_diaries.Prelude.{
  ℕ, zero, suc, ◌+◌, ◌-◌, ◌/◌, ◌<◌, ◌≤◌, Bool, true, false, some, List, [], ◌∷◌, ◌++◌, ◌≡◌, refl,
  arith, All, length, length-append, get_elem?, take, drop, ltb, Bool-cases, inl, inr, ap,
}
use embers_diaries.Index.Timeline.{Entry, bisect, place}

module _ {ℓ} {A : Type ℓ} where
  pub take-append : (ys zs : List A) → take (length ys) (ys ++ zs) ≡ ys
  take-append [] zs = refl
  take-append (y ∷ ys) zs = ap (λ l. y ∷ l) (take-append ys zs)

  pub drop-append : (ys zs : List A) → drop (length ys) (ys ++ zs) ≡ zs
  drop-append [] zs = refl
  drop-append (y ∷ ys) zs = drop-append ys zs

-- What lies left of the place, then the rest.
abbrev pub Splits : (Entry → Bool) → List Entry → List Entry → Type 0
Splits right ys zs = All (λ e. right e ≡ true) ys × All (λ e. right e ≡ false) zs

module _ (right : Entry → Bool) where
  get_left :
      (ys zs : List Entry) (i : ℕ)
      → All (λ e. right e ≡ true) ys
      → i < length ys
      → (e : Entry) × (get_elem? (ys ++ zs) i ≡ some e) × (right e ≡ true)
  get_left [] zs i h lt = absurd (omega arith)
  get_left (y ∷ ys) zs zero h lt = (y, refl, h.0)
  get_left (y ∷ ys) zs (suc i) h lt = get_left ys zs i h.1 (omega arith)

  get_in :
      (zs : List Entry) (i : ℕ)
      → All (λ e. right e ≡ false) zs
      → i < length zs
      → (e : Entry) × (get_elem? zs i ≡ some e) × (right e ≡ false)
  get_in [] i h lt = absurd (omega arith)
  get_in (z ∷ zs) zero h lt = (z, refl, h.0)
  get_in (z ∷ zs) (suc i) h lt = get_in zs i h.1 (omega arith)

  get_right :
      (ys zs : List Entry) (i : ℕ)
      → All (λ e. right e ≡ false) zs
      → length ys ≤ i
      → i < length ys + length zs
      → (e : Entry) × (get_elem? (ys ++ zs) i ≡ some e) × (right e ≡ false)
  get_right [] zs i h le lt = get_in zs i h (omega arith)
  get_right (y ∷ ys) zs zero h le lt = absurd (omega arith)
  get_right (y ∷ ys) zs (suc i) h le lt = get_right ys zs i h (omega arith) (omega arith)

  -- With more fuel than the range is long, the loop stops where the front ends.
  bisect-Splits :
      (ys zs : List Entry)
      → Splits right ys zs
      → (fuel lo hi : ℕ) → hi - lo < fuel
      → lo ≤ length ys
      → length ys ≤ hi
      → hi ≤ length ys + length zs
      → bisect right (ys ++ zs) fuel lo hi ≡ length ys
  unfolding bisect
  bisect-Splits ys zs s zero lo hi f a b c = absurd (omega arith)
  bisect-Splits ys zs s (suc fuel) lo hi f a b c = elim (Bool-cases (ltb lo hi)) [
    | inr e ↦ ground (arith, e)
    | inl e ↦
        let lt : lo < hi = ground arith in
        elim (Bool-cases (ltb ((lo + hi) / 2) (length ys))) [
          | inl left ↦
              let (x, at, r) = get_left ys zs ((lo + hi) / 2) s.0 (ground arith) in
              ground (arith, e, at, r, bisect-Splits ys zs s fuel ((lo + hi) / 2 + 1) hi)
          | inr left ↦
              let (x, at, r) = get_right ys zs ((lo + hi) / 2) s.1 (ground arith) (omega arith) in
              ground (arith, e, at, r, bisect-Splits ys zs s fuel lo ((lo + hi) / 2))
        ]
  ]

  pub place-Splits : (ys zs : List Entry) → Splits right ys zs → place right (ys ++ zs) ≡ length ys
  place-Splits ys zs s = rw (length-append ys zs) (
      bisect-Splits ys zs s (length ys + length zs + 1) 0 (length ys + length zs) (omega arith)
        (omega arith) (omega arith) (omega arith))
