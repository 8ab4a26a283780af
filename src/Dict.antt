-- ===== src/Dict.antt =====
-- Python's `dict` with text keys, as an association list in insertion order.
-- `d[k] = v` keeps the place of a key that is there, and appends a new one.
use embers_diaries.Prelude.{
  String, ◌≡◌, refl, Bool, Option, none, some, List, [], ◌∷◌, arith, ◌==◌, eq_iff, eq_refl,
  if◌then◌else◌, true, is_some, member, NoRepeats, find_first, Bool-cases, inl, inr, ap, sym, ◌∙◌,
}

abbrev pub Dict {ℓ} : Type ℓ → Type ℓ
Dict V = List (String × V)

module _ {ℓ} {V : Type ℓ} where
  -- `d.get(k)`
  unfoldable pub get : Dict V → String → Option V
  get [] k = none
  get ((j, v) ∷ d) k = if j == k then some v else get d k

  -- `d[k] = v`
  unfoldable pub put : Dict V → String → V → Dict V
  put [] k v = (k, v) ∷ []
  put ((j, w) ∷ d) k v = if j == k then (j, v) ∷ d else (j, w) ∷ put d k v

  -- `d.pop(k, None)`, `del d[k]`: a dict holds a key at most once, and every copy goes.
  unfoldable pub remove : Dict V → String → Dict V
  remove [] k = []
  remove ((j, v) ∷ d) k = let rest = remove d k in if j == k then rest else (j, v) ∷ rest

  -- `k in d`
  abbrev pub contains : Dict V → String → Bool
  contains d k = is_some (get d k)

  -- `d.keys()`
  abbrev pub keys : Dict V → List String
  keys [] = []
  keys ((j, v) ∷ d) = j ∷ keys d

  -- `d.values()`
  abbrev pub values : Dict V → List V
  values [] = []
  values ((j, v) ∷ d) = v ∷ values d

  pub get-put :
      (d : Dict V) (k j : String) (v : V) → get (put d k v) j ≡ (if k == j then some v else get d j)
  unfolding get put
  get-put [] k j v = refl
  get-put ((i, w) ∷ d) k j v = ground (arith, eq_iff k j, eq_iff i k, eq_iff i j, get-put d k j v)

  pub get-remove :
      (d : Dict V) (k j : String) → get (remove d k) j ≡ (if k == j then none else get d j)
  unfolding get remove
  get-remove [] k j = ground arith
  get-remove ((i, w) ∷ d) k j = ground (arith, eq_iff k j, eq_iff i k, eq_iff i j, get-remove d k j)

  -- A key is listed exactly when a lookup finds it.
  pub member-keys : (d : Dict V) (k : String) → member k (keys d) ≡ contains d k
  unfolding get
  member-keys [] k = refl
  member-keys ((i, w) ∷ d) k = ground (arith, member-keys d k)

  pub get-put_self : (d : Dict V) (k : String) (v : V) → get (put d k v) k ≡ some v
  get-put_self d k v = simp (get-put, eq_refl)

module _ {ℓ} {V : Type ℓ} where
  pub NoRepeats-put :
      (d : Dict V) (k : String) (v : V) → NoRepeats (keys d) → NoRepeats (keys (put d k v))
  unfolding put
  NoRepeats-put [] k v h = (refl, tt)
  NoRepeats-put ((j, w) ∷ d) k v (new, h) = elim (Bool-cases (j == k)) [
    | inl e ↦ rw e (new, h)
    | inr e ↦ rw e (
      ground (
        arith,
        e,
        new,
        member-keys (put d k v) j,
        member-keys d j,
        get-put d k j v,
        eq_iff j k,
        eq_iff k j,
      ),
      NoRepeats-put d k v h,
    )
  ]

  -- A value that a loop over the values finds stands under a key.
  pub get-find_first :
      (d : Dict V) (test : V → Bool) (v : V)
      → NoRepeats (keys d)
      → find_first test (values d) ≡ some v
      → (k : String) × (get d k ≡ some v) × (test v ≡ true)
  unfolding get
  get-find_first [] test v h p = absurd (ground (arith, p))
  get-find_first ((j, w) ∷ d) test v (new, h) p = elim (Bool-cases (test w)) [
    | inl e ↦
        let same : w ≡ v = ground (arith, p, e) in
        (j, ground (arith, same, eq_refl j), ap test (sym same) ∙ e)
    | inr e ↦
        let (k, found, passes) = get-find_first d test v h (ground (arith, p, e)) in
        (k, ground (arith, found, new, member-keys d k, eq_iff j k), passes)
  ]

pub get-empty {ℓ} : {V : Type ℓ} (k : String) → get {V = V} [] k ≡ none
unfolding get
get-empty k = refl

pub ruleset dict_laws = (get-put, get-remove, get-empty)
