-- ===== src/Engine/Heads.antt =====
-- How the later versions of one record stand to each other (sidecars of embers/engine/writer.py).
use embers_diaries.Prelude.{String, none, some, ◌≡◌, refl, sym, arith, ◌⊎◌, inl, inr, subst}
use embers_diaries.Storage.{Disk}
use embers_diaries.Engine.Writer.{get_superseded_by}
use embers_diaries.Engine.Chain.{Follows, here, onward}

-- From the front: a later version is the record itself, or later than its successor.
Follows-front :
    {d : Disk} {a c : String}
    → Follows d a c
    → (a ≡ c) ⊎ ((b : String) × (get_superseded_by d a ≡ some b) × Follows d b c)
Follows-front here = inl refl
Follows-front {d} {a} (onward {b} {c} f p) = elim (Follows-front f) [
  | inl same ↦ inr (c, subst (λ x. get_superseded_by d x ≡ some c) (sym same) p, here)
  | inr (n, q, g) ↦ inr (n, q, onward g p)
]

-- Of two later versions of a record, one is later than the other.
Follows-total :
    {d : Disk} {a b c : String} → Follows d a b → Follows d a c → Follows d b c ⊎ Follows d c b
Follows-total f here = inr f
Follows-total {d} {a} {b} f (onward {b = m} {c} g p) = elim (Follows-total f g) [
  | inl after ↦ inl (onward after p)
  | inr before ↦ elim (Follows-front before) [
    | inl same ↦ inl (onward (subst (λ x. Follows d b x) (sym same) here) p)
    | inr (n, q, rest) ↦ inr (subst (λ x. Follows d x b) (ground (arith, q, p)) rest)
  ]
]

-- Where one has no successor it is the only such one.
pub heads_agree :
    {d : Disk} {a b c : String}
    → Follows d a b
    → get_superseded_by d b ≡ none
    → Follows d a c
    → get_superseded_by d c ≡ none
    → b ≡ c
heads_agree {d} f p g q = elim (Follows-total f g) [
  | inl after ↦ stuck after p
  | inr before ↦ sym (stuck before q)
]
  where
    stuck : {x y : String} → Follows d x y → get_superseded_by d x ≡ none → x ≡ y
    stuck h e = elim (Follows-front h) [
      | inl same ↦ same
      | inr (n, r, _) ↦ absurd (ground (arith, r, e))
    ]
