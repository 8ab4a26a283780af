-- ===== src/Database/Conflict/Lookup.antt =====
-- What `_find_live_conflict` (embers/db.py) finds after a conflict was written.
use embers_diaries.Prelude.{
  String, Bool, true, false, Option, none, some, List, [], ◌∷◌, ◌++◌, ◌≡◌, refl, sym, ap, ◌∙◌,
  subst, arith, ◌==◌, not, select, find_first, any_of, Bool-cases, inl, inr,
}
use embers_diaries.Core.Types.{RecordType, type_value}
use embers_diaries.Core.Record.{Hashing}
use embers_diaries.Core.Result.{Result-cases, Result, ok}
use embers_diaries.Storage.{Encoding, StorageLimits}
use embers_diaries.Engine.State.{Engine}
use embers_diaries.Engine.Writer.{write}
use embers_diaries.Engine.Reader.{get_current, overlay}
use embers_diaries.Engine.ReadBack.{with_hash}
use embers_diaries.Engine.Sound.{IsSound}
use embers_diaries.Engine.Synced.{IsSynced}
use embers_diaries.Engine.Written.{
  get-IsLatest, get_current-IsLatest, write-IsLatest, write-IsSound, get_namespace_ids-write,
}
use embers_diaries.Namespace.{Manager}
use embers_diaries.Database.Fields.{IsoFormat, Shows}
use embers_diaries.Database.Versions.{Body, body-overlay}
use embers_diaries.Database.Listing.{
  all_namespaces, fold_result, nothing_listed, Listed, list_namespace,
}
use embers_diaries.Database.Listing.Sweep.{Has, sweep-Has}
use embers_diaries.Database.Listing.Namespaces.{member-all_namespaces}
use embers_diaries.Database.Session.Operations.{Spare}
use embers_diaries.Database.Conflict.Payload.{Conflict, PairHash, ordered, from_record}
use embers_diaries.Database.Conflict.RoundTrip.{from_record-payload_lem}
use embers_diaries.Database.Conflict.Mapping.{
  MapDraw, is_live_pair, conflict_record, conflict_records, find_live_conflict,
}

find_first-any_of {ℓ} :
    {A : Type ℓ} (test : A → Bool) (xs : List A)
    → any_of test xs ≡ true
    → (x : A) × (find_first test xs ≡ some x) × (test x ≡ true)
find_first-any_of test [] p = absurd (ground (arith, p))
find_first-any_of test (x ∷ xs) p = elim (Bool-cases (test x)) [
  | inl e ↦ (x, rw e refl, e)
  | inr e ↦
      let (y, found, passes) = find_first-any_of test xs (ground (arith, p, e)) in
      (y, rw e found, passes)
]

passes_first {ℓ} :
    {A : Type ℓ} (test : A → Bool) (xs : List A) (x : A)
    → find_first test xs ≡ some x
    → test x ≡ true
passes_first test [] x p = absurd (ground (arith, p))
passes_first test (y ∷ ys) x p = elim (Bool-cases (test y)) [
  | inl e ↦ let same : y ≡ x = ground (arith, p, e) in ap test (sym same) ∙ e
  | inr e ↦ passes_first test ys x (ground (arith, p, e))
]

module _ ⦃h : Hashing⦄ ⦃i : IsoFormat⦄ ⦃p : PairHash⦄ (m : Manager) (d : Spare) where
  -- A search that returns meets a conflict that all records list.
  pub find_live-Has :
      (fingerprint : String) (s : Engine) (c : Conflict) (found : Option Conflict)
      → ((cs : List Conflict) → conflict_records m d none none none s ≡ ok cs → Has cs c)
      → is_live_pair fingerprint c ≡ true
      → find_live_conflict m d fingerprint s ≡ ok found
      → (x : Conflict) × (found ≡ some x) × (is_live_pair fingerprint x ≡ true)
  unfolding find_live_conflict
  find_live-Has fingerprint s c found has live q =
      elim (Result-cases (conflict_records m d none none none s)) [
        | inr (e, r) ↦ absurd (ground (arith, rw r at q))
        | inl (cs, r) ↦
            let (x, first, passes) =
              find_first-any_of (is_live_pair fingerprint) cs
                (has cs r (is_live_pair fingerprint) live) in
            let eq : find_first (is_live_pair fingerprint) cs ≡ found = ground (arith, rw r at q) in
            (x, sym eq ∙ first, passes)
      ]

  pub find_live-passes :
      (fingerprint : String) (s : Engine) (x : Conflict)
      → find_live_conflict m d fingerprint s ≡ ok (some x)
      → is_live_pair fingerprint x ≡ true
  unfolding find_live_conflict
  find_live-passes fingerprint s x q = elim (Result-cases (conflict_records m d none none none s)) [
    | inr (e, r) ↦ absurd (ground (arith, rw r at q))
    | inl (cs, r) ↦ passes_first (is_live_pair fingerprint) cs x (ground (arith, rw r at q))
  ]

  module _ ⦃c : Encoding⦄ (limits : StorageLimits) where
    -- Without filters all namespaces are swept.
    abbrev sweep : Engine → List String → Result (Listed Conflict)
    sweep s namespaces =
        fold_result
          (list_namespace s.disk RecordType.conflict (from_record d.spare_id d.spare_time)
            (λ x. true) s.index)
          namespaces nothing_listed

    conflict_records-sweep :
        (s : Engine) (cs : List Conflict)
        → conflict_records m d none none none s ≡ ok cs
        → (namespaces : List String) × (all_namespaces s.disk ≡ ok namespaces)
          × (l : Listed Conflict) × (sweep s namespaces ≡ ok l)
          × (l.out ≡ cs)
    unfolding conflict_records
    conflict_records-sweep s cs q = elim (Result-cases (all_namespaces s.disk)) [
      | inr (e, a) ↦ absurd (ground (arith, rw a at q))
      | inl (namespaces, a) ↦ elim (Result-cases (sweep s namespaces)) [
        | inr (e, b) ↦ absurd (ground (arith, rw (a, b) at q))
        | inl (l, b) ↦ (namespaces, a, l, b, ground (arith, rw (a, b) at q))
      ]
    ]

    -- A conflict that was just written is among the records.
    pub written-Has :
        (u : MapDraw) (detected_by id : String) (x : Conflict) (s t : Engine)
        → IsSound s.disk
        → IsSynced s.disk s.index
        → (x.conflict_id == "") ≡ false
        → Shows x.detected_at
        → ordered x ≡ ok x
        → x.tags ≡ []
        → write limits u.write_draw (conflict_record m d u detected_by x) s ≡ (ok id, t)
        → (cs : List Conflict) → conflict_records m d none none none t ≡ ok cs
        → Has cs x
    unfolding conflict_record type_value
    written-Has u detected_by id x s t sound synced named shown order tags done cs q =
        let r = conflict_record m d u detected_by x in
        let latest = write-IsLatest limits u.write_draw r s t id done sound in
        let sound' = write-IsSound limits u.write_draw r s t id done sound in
        let o = overlay t.disk r.id (with_hash r) in
        let shape = body-overlay t.disk r.id (with_hash r) in
        let back : from_record d.spare_id d.spare_time o ≡ ok x =
          from_record-payload_lem d.spare_id d.spare_time x o shown order
            (ap (λ (y : Body). y.1) shape) (ap (λ (y : Body). y.2) shape)
            (ap (λ (y : Body). select (λ g. not (g == "conflict")) y.3) shape
              ∙ ap (λ g. select (λ g'. not (g' == "conflict")) (g ++ "conflict" ∷ [])) tags
              ∙ sym tags) in
        let own : o.id ≡ r.id = ap (λ (y : Body). y.0) shape in
        let (namespaces, all, l, swept, same) = conflict_records-sweep t cs q in
        subst (λ l'. Has l' x) same
          (sweep-Has t.disk sound'.1 RecordType.conflict (from_record d.spare_id d.spare_time)
            (λ y. true) t.index namespaces l swept r.namespace r.id o o x
            (member-all_namespaces t.disk namespaces r.id (with_hash r) all latest.found)
            (get_namespace_ids-write limits u.write_draw r s t id done sound synced named)
            (get-IsLatest true false t.disk (with_hash r) latest)
            (ap (λ (y : Body). type_value y.4 == type_value RecordType.conflict) shape)
            (ap (get_current t.disk) own
              ∙ get_current-IsLatest t.disk (with_hash r) sound'.0 latest)
            back refl)
