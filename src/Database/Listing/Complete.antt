-- ===== src/Database/Listing/Complete.antt =====
-- What a loop of embers/db.py that does not raise has done, and what reads of many records give.
use embers_diaries.Prelude.{
  String, Bool, true, Option, none, some, List, [], ◌∷◌, ◌≡◌, sym, ◌∙◌, ap, subst, arith, ◌==◌,
  member, All, Bool-cases, inl, inr, eq_iff,
}
use embers_diaries.Core.Record.{EmberRecord, Hashing}
use embers_diaries.Core.Result.{Result, Result-cases, ok}
use embers_diaries.Storage
use embers_diaries.Storage.{Disk}
use embers_diaries.Storage.Reads.{read-stored}
use embers_diaries.Engine.Reader.{get, get_many, overlay, cons_found, hidden}
use embers_diaries.Engine.Sound.{IsFiled}
use embers_diaries.Database.Versions.{body-overlay}
use embers_diaries.Database.Listing.{fold_result}

pub All-member :
    (P : String → Type 0) (xs : List String) (x : String) → All P xs → member x xs ≡ true → P x
All-member P [] x all m = absurd (ground (arith, m))
All-member P (y ∷ ys) x all m = elim (Bool-cases (y == x)) [
  | inl e ↦ subst P ((eq_iff y x).0 e) all.0
  | inr e ↦ All-member P ys x all.1 (ground (arith, m, e))
]

pub All-tt {ℓ} : {A : Type ℓ} (xs : List A) → All (λ x. Unit {0}) xs
All-tt [] = tt
All-tt (x ∷ xs) = (tt, All-tt xs)

-- A body keeps the invariant, does its element, and only lets the state grow.
pub record Body {A S : Type 0} (body : A → S → Result S) (P : A → Type 0) (Inv : S → Type 0)
    (Done : A → S → Type 0) (Grows : S → S → Type 0) : Type 0 where
  pub keeps : (x : A) (s t : S) → P x → Inv s → body x s ≡ ok t → Inv t × Done x t × Grows s t
  pub still : (s : S) → Grows s s
  pub further : (s t u : S) → Grows s t → Grows t u → Grows s u
  pub stays : (x : A) (s t : S) → Grows s t → Done x s → Done x t

-- A loop that does not raise has done each element, and keeps what its body keeps.
pub fold_result_done :
    {A S : Type 0} (body : A → S → Result S) (P : A → Type 0) (Inv : S → Type 0)
    (Done : A → S → Type 0) (Grows : S → S → Type 0)
    → Body body P Inv Done Grows
    → (xs : List A) (s t : S) → fold_result body xs s ≡ ok t
    → All P xs
    → Inv s
    → Inv t × All (λ x. Done x t) xs × Grows s t
unfolding fold_result
fold_result_done body P Inv Done Grows b [] s t p all inv =
    let same : s ≡ t = ground (arith, p) in
    (subst Inv same inv, tt, subst (Grows s) same (b.still s))
fold_result_done body P Inv Done Grows b (x ∷ xs) s t p all inv = elim (Result-cases (body x s)) [
  | inr (e, q) ↦ absurd (ground (arith, rw q at p))
  | inl (u, q) ↦
      let (inv', done, grew) = b.keeps x s u all.0 inv q in
      let (inv'', dones, grows) =
        fold_result_done body P Inv Done Grows b xs u t (rw q at p) all.1 inv' in
      (inv'', (b.stays x u t grows done, dones), b.further s u t grew grows)
]

module _ ⦃h : Hashing⦄ (d : Disk) where
  -- A stored record under its overlays: its id determines it.
  pub record IsShown (r : EmberRecord) : Type 0 where
    pub file : EmberRecord
    pub found : Storage.read r.id d ≡ ok (some file)
    pub overlaid : r ≡ overlay d r.id file

  pub IsShown-unique : (a b : EmberRecord) → IsShown a → IsShown b → a.id ≡ b.id → a ≡ b
  IsShown-unique a b s t e =
      let same : s.file ≡ t.file = ground (arith, s.found, t.found, ap (λ k. Storage.read k d) e) in
      s.overlaid ∙ (λ i. overlay d (e i) (same i)) ∙ sym t.overlaid

  pub get-IsShown :
      (dep sup : Bool) (id : String) (r : EmberRecord)
      → IsFiled d
      → get d dep sup id ≡ ok (some r)
      → IsShown r × (r.id ≡ id)
  unfolding get
  get-IsShown dep sup id r filed p = elim (Result-cases (Storage.read id d)) [
    | inr (e, q) ↦ absurd (ground (arith, rw q at p))
    | inl (none, q) ↦ absurd (ground (arith, rw q at p))
    | inl (some file, q) ↦ elim (Bool-cases (hidden d dep sup id)) [
      | inl b ↦ absurd (ground (arith, rw (q, b) at p))
      | inr b ↦
          let eq : overlay d id file ≡ r = ground (arith, rw (q, b) at p) in
          let own : r.id ≡ id =
            ap (λ (x : EmberRecord). x.id) (sym eq)
            ∙ ap (λ x. x.0) (body-overlay d id file)
            ∙ filed.named id file (read-stored id d q) in
          (
            record {
              file = file;
              found = ap (λ k. Storage.read k d) own ∙ q;
              overlaid = sym eq ∙ ap (λ k. overlay d k file) (sym own);
            },
            own,
          )
    ]
  ]

  pub get_many-IsShown :
      (dep sup : Bool) (ids : List String) (rs : List EmberRecord)
      → IsFiled d
      → get_many d dep sup ids ≡ ok rs
      → All IsShown rs
  unfolding get_many
  get_many-IsShown dep sup [] rs filed p =
      let e : [] ≡ rs = ground (arith, p) in subst (All IsShown) e tt
  get_many-IsShown dep sup (id ∷ ids) rs filed p = elim (Result-cases (get d dep sup id)) [
    | inr (e, q) ↦ absurd (ground (arith, rw q at p))
    | inl (o, q) ↦ elim (Result-cases (get_many d dep sup ids)) [
      | inr (e, k) ↦ absurd (ground (arith, rw (q, k) at p))
      | inl (rest, k) ↦ joined o q rest (get_many-IsShown dep sup ids rest filed k) (rw (q, k) at p)
    ]
  ]
    where
      joined :
          (o : Option EmberRecord)
          → get d dep sup id ≡ ok o
          → (rest : List EmberRecord) → All IsShown rest
          → ok (cons_found o rest) ≡ ok rs
          → All IsShown rs
      joined none q rest all e =
          let same : rest ≡ rs = ground (arith, e) in subst (All IsShown) same all
      joined (some r) q rest all e =
          let same : r ∷ rest ≡ rs = ground (arith, e) in
          subst (All IsShown) same ((get-IsShown dep sup id r filed q).0, all)

  -- What is found under one of the ids is in the list.
  pub get_many-member :
      (dep sup : Bool) (ids : List String) (rs : List EmberRecord) (id : String) (r : EmberRecord)
      → get_many d dep sup ids ≡ ok rs
      → member id ids ≡ true
      → get d dep sup id ≡ ok (some r)
      → (Q : EmberRecord → Type 0) → All Q rs
      → Q r
  unfolding get_many
  get_many-member dep sup [] rs id r p m g Q all = absurd (ground (arith, m))
  get_many-member dep sup (j ∷ ids) rs id r p m g Q all = elim (Result-cases (get d dep sup j)) [
    | inr (e, q) ↦ absurd (ground (arith, rw q at p))
    | inl (o, q) ↦ elim (Result-cases (get_many d dep sup ids)) [
      | inr (e, k) ↦ absurd (ground (arith, rw (q, k) at p))
      | inl (rest, k) ↦
          picked o q rest (λ m' all'. get_many-member dep sup ids rest id r k m' g Q all')
            (rw (q, k) at p)
    ]
  ]
    where
      picked :
          (o : Option EmberRecord)
          → get d dep sup j ≡ ok o
          → (rest : List EmberRecord) → (member id ids ≡ true → All Q rest → Q r)
          → ok (cons_found o rest) ≡ ok rs
          → Q r
      picked none q rest again e =
          let same : rs ≡ rest = ground (arith, e) in
          elim (Bool-cases (j == id)) [
            | inl b ↦ absurd (ground (arith, q, g, ap (λ k. get d dep sup k) ((eq_iff j id).0 b)))
            | inr b ↦ again (ground (arith, m, b)) (subst (All Q) same all)
          ]
      picked (some r') q rest again e =
          let same : rs ≡ r' ∷ rest = ground (arith, e) in
          let whole : All Q (r' ∷ rest) = subst (All Q) same all in
          elim (Bool-cases (j == id)) [
            | inl b ↦
                let it : r' ≡ r =
                  ground (arith, q, g, ap (λ k. get d dep sup k) ((eq_iff j id).0 b)) in
                subst Q it whole.0
            | inr b ↦ again (ground (arith, m, b)) whole.1
          ]
