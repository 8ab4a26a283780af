-- ===== src/Database/Listing/Sweep.antt =====
-- What the sweep of embers/db.py over the records of a type lists.
use embers_diaries.Prelude.{
  String, Bool, true, false, none, some, List, [], ◌∷◌, ◌++◌, ◌≡◌, refl, ◌∙◌, ap, subst, arith,
  if◌then◌else◌, ◌||◌, ◌==◌, member, any_of, Bool-cases, inl, inr, eq_iff,
}
use embers_diaries.Core.Types.{RecordType}
use embers_diaries.Core.Record.{EmberRecord, Hashing}
use embers_diaries.Core.Result.{Result, Result-cases, ok}
use embers_diaries.Storage.{Disk}
use embers_diaries.Index.Master.{MasterIndex, get_namespace_ids}
use embers_diaries.Engine.Reader.{get, get_current, get_many, get_namespace}
use embers_diaries.Engine.Sound.{IsFiled}
use embers_diaries.Database.Versions.{is_of_type}
use embers_diaries.Database.Listing.{
  fold_result, Listed, nothing_listed, list_version, list_record, list_namespace,
}
use embers_diaries.Database.Listing.Complete.{
  Body, fold_result_done, All-member, All-tt, IsShown, IsShown-unique, get-IsShown,
  get_many-IsShown, get_many-member,
}

-- A value that is in a list is met by every test that it passes.
abbrev pub Has : {B : Type 0} → List B → B → Type 0
Has {B} out b = (test : B → Bool) → test b ≡ true → any_of test out ≡ true

any_of-append {ℓ} :
    {A : Type ℓ} (test : A → Bool) (xs ys : List A)
    → any_of test (xs ++ ys) ≡ (any_of test xs || any_of test ys)
any_of-append test [] ys = refl
any_of-append test (x ∷ xs) ys = ground (arith, any_of-append test xs ys)

module _ ⦃h : Hashing⦄ (d : Disk) (filed : IsFiled d) {B : Type 0} (type : RecordType)
    (read_in : EmberRecord → Result B) (keep : B → Bool) where
  -- What the sweep knows of a version that it has seen.
  pub record Version (s : Listed B) (id : String) : Type 0 where
    pub version : EmberRecord
    pub shown : IsShown d version
    pub own : version.id ≡ id
    pub value : B
    pub read : read_in version ≡ ok value
    pub listed : keep value ≡ true → Has s.out value

  abbrev pub IsListing : Listed B → Type 0
  IsListing s = (id : String) → member id s.seen ≡ true → Version s id

  get_current-IsShown :
      (id : String) (c : EmberRecord) → get_current d id ≡ ok (some c) → IsShown d c
  unfolding get_current
  get_current-IsShown id c p = (get-IsShown d false false _ c filed p).0

  -- What a step that has seen an id leaves.
  abbrev Step : String → Listed B → Listed B → Type 0
  Step id s t =
      IsListing t
      × (member id t.seen ≡ true)
      × ((k : String) → member k s.seen ≡ true → member k t.seen ≡ true)

  longer :
      (b : B) (out : List B) (test : B → Bool)
      → any_of test out ≡ true
      → any_of test (if keep b then out ++ b ∷ [] else out) ≡ true
  longer b out test passes = elim (Bool-cases (keep b)) [
    | inl k ↦ rw k (any_of-append test out (b ∷ []) ∙ ground (arith, passes))
    | inr k ↦ rw k passes
  ]

  -- A new version that was read.
  abbrev with_version : EmberRecord → B → Listed B → Listed B
  with_version r b s = record {
    out = if keep b then s.out ++ b ∷ [] else s.out;
    seen = r.id ∷ s.seen;
  }

  with_version-Step :
      (r : EmberRecord) (b : B) (s : Listed B)
      → IsShown d r
      → read_in r ≡ ok b
      → IsListing s
      → Step r.id s (with_version r b s)
  with_version-Step r b s shown q inv = (
    (λ id m. elim (Bool-cases (r.id == id)) [
      | inl same_id ↦ record {
        version = r;
        shown = shown;
        own = (eq_iff r.id id).0 same_id;
        value = b;
        read = q;
        listed = λ kept test passes.
            rw kept (any_of-append test s.out (b ∷ []) ∙ ground (arith, passes));
      }
      | inr other ↦
          let v = inv id (ground (arith, m, other)) in
          record {
            version = v.version;
            shown = v.shown;
            own = v.own;
            value = v.value;
            read = v.read;
            listed = λ kept test passes. longer b s.out test (v.listed kept test passes);
          }
    ]),
    ground (arith, eq_iff r.id r.id),
    λ id m. ground (arith, m),
  )

  list_version-Step :
      (r : EmberRecord) (s t : Listed B)
      → IsShown d r
      → IsListing s
      → list_version d type read_in keep r s ≡ ok t
      → Step r.id s t
  unfolding list_version
  list_version-Step r s t shown inv p = elim (Bool-cases (member r.id s.seen)) [
    | inl e ↦
        let same : s ≡ t = ground (arith, rw e at p) in subst (Step r.id s) same (inv, e, λ id m. m)
    | inr e ↦ elim (Result-cases (read_in r)) [
      | inr (w, q) ↦ absurd (ground (arith, rw (e, q) at p))
      | inl (b, q) ↦
          let same : with_version r b s ≡ t = ground (arith, rw (e, q) at p) in
          subst (Step r.id s) same (with_version-Step r b s shown q inv)
    ]
  ]

  -- What a record of the type asks of what was seen: its current version.
  abbrev pub Done : EmberRecord → Listed B → Type 0
  Done r s =
      (c : EmberRecord)
      → is_of_type type r ≡ true
      → get_current d r.id ≡ ok (some c)
      → member c.id s.seen ≡ true

  abbrev pub Grows : Listed B → Listed B → Type 0
  Grows s t = (k : String) → member k s.seen ≡ true → member k t.seen ≡ true

  list_record-Done :
      (r : EmberRecord) (s t : Listed B)
      → IsShown d r
      → IsListing s
      → list_record d type read_in keep r s ≡ ok t
      → IsListing t × Done r t × Grows s t
  unfolding list_record
  list_record-Done r s t shown inv p = elim (Bool-cases (is_of_type type r)) [
    | inr e ↦
        let same : s ≡ t = ground (arith, rw e at p) in
        subst (λ u. IsListing u × Done r u × Grows s u) same
          (inv, (λ c y q. absurd (ground (arith, e, y))), λ k m. m)
    | inl e ↦ elim (Result-cases (get_current d r.id)) [
      | inr (w, q) ↦ absurd (ground (arith, rw (e, q) at p))
      | inl (none, q) ↦
          let (inv', seen, grows) = list_version-Step r s t shown inv (rw (e, q) at p) in
          (inv', (λ c y g. absurd (ground (arith, q, g))), grows)
      | inl (some c', q) ↦
          let shown' = (get_current-IsShown r.id c' q) in
          let (inv', seen, grows) = list_version-Step c' s t shown' inv (rw (e, q) at p) in
          (
            inv',
            (λ c y g.
                let same : c' ≡ c = ground (arith, q, g) in
                subst (λ (x : EmberRecord). member x.id t.seen ≡ true) same seen),
            grows,
          )
    ]
  ]

  list_record-Body : Body (list_record d type read_in keep) (IsShown d) IsListing Done Grows
  list_record-Body = record {
    keeps = list_record-Done;
    still = λ s k m. m;
    further = λ s t u a b k m. b k (a k m);
    stays = λ r s t grows done c y g. grows c.id (done c y g);
  }

  -- What the sweep of a namespace asks of what was seen: the current version of every record of the
  -- type that the index lists there and a read shows.
  abbrev pub AllDone : MasterIndex → String → Listed B → Type 0
  AllDone x namespace s =
      (id : String) (r : EmberRecord)
      → member id (get_namespace_ids x namespace true false) ≡ true
      → get d true false id ≡ ok (some r)
      → Done r s

  pub list_namespace-AllDone :
      (x : MasterIndex) (namespace : String) (s t : Listed B)
      → IsListing s
      → list_namespace d type read_in keep x namespace s ≡ ok t
      → IsListing t × AllDone x namespace t × Grows s t
  unfolding list_namespace get_namespace
  list_namespace-AllDone x namespace s t inv p =
      let ids = get_namespace_ids x namespace true false in
      elim (Result-cases (get_many d true false ids)) [
        | inr (e, q) ↦ absurd (ground (arith, rw q at p))
        | inl (rs, q) ↦
            let (inv', dones, grows) =
              fold_result_done (list_record d type read_in keep) (IsShown d) IsListing Done Grows
                list_record-Body rs s t (rw q at p) (get_many-IsShown d true false ids rs filed q)
                inv in
            (
              inv',
              (λ id r m g. get_many-member d true false ids rs id r q m g (λ y. Done y t) dones),
              grows,
            )
      ]

  list_namespace-Body :
      (x : MasterIndex)
      → Body (list_namespace d type read_in keep x) (λ n. Unit {0}) IsListing (AllDone x) Grows
  list_namespace-Body x = record {
    keeps = λ n s t u inv p. list_namespace-AllDone x n s t inv p;
    still = λ s k m. m;
    further = λ s t u a b k m. b k (a k m);
    stays = λ n s t grows done id r m g c y q. grows c.id (done id r m g c y q);
  }

  -- A sweep that returns has listed what is read in the current version of each record of the type
  -- that the index lists in one of the namespaces, if it is kept.
  pub sweep-Has :
      (x : MasterIndex) (namespaces : List String) (l : Listed B)
      → fold_result (list_namespace d type read_in keep x) namespaces nothing_listed ≡ ok l
      → (namespace id : String) (r c : EmberRecord) (b : B) → member namespace namespaces ≡ true
      → member id (get_namespace_ids x namespace true false) ≡ true
      → get d true false id ≡ ok (some r)
      → is_of_type type r ≡ true
      → get_current d r.id ≡ ok (some c)
      → read_in c ≡ ok b
      → keep b ≡ true
      → Has l.out b
  sweep-Has x namespaces l p namespace id r c b n m g y q e k =
      let (inv, dones, grows) =
        fold_result_done (list_namespace d type read_in keep x) (λ a. Unit {0}) IsListing
          (AllDone x) Grows (list_namespace-Body x) namespaces nothing_listed l p
          (All-tt namespaces) (λ a o. absurd (ground (arith, o))) in
      let seen = All-member (λ a. AllDone x a l) namespaces namespace dones n id r m g c y q in
      let v = inv c.id seen in
      let same : v.version ≡ c =
        IsShown-unique d v.version c v.shown (get_current-IsShown r.id c q) v.own in
      let value : v.value ≡ b = ground (arith, v.read, e, ap read_in same) in
      subst (Has l.out) value (v.listed (ap keep value ∙ k))
