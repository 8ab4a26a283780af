-- ===== src/Database/Failure/Repeated.antt =====
-- What a reported failure tells the agents that ask later (embers/db.py).
use embers_diaries.Prelude.{
  String, Bool, true, false, Option, none, some, List, [], ◌∷◌, ◌++◌, ◌≡◌, refl, ap, ◌∙◌, subst,
  arith, ◌==◌, not, select, any_of, member, Bool-cases, inl, inr, eq_iff, ◌⊎◌,
}
use embers_diaries.Core.Types.{RecordType, type_value}
use embers_diaries.Core.Record.{EmberRecord, Time, Hashing}
use embers_diaries.Core.Result.{Error, Result-cases, Result, ok, err}
use embers_diaries.Storage
use embers_diaries.Storage.{Disk, Encoding, StorageLimits, WriteDraw}
use embers_diaries.Engine.State.{Engine}
use embers_diaries.Engine.Writer.{write}
use embers_diaries.Engine.Reader.{get_current, overlay}
use embers_diaries.Engine.ReadBack.{with_hash}
use embers_diaries.Engine.Sound.{IsSound}
use embers_diaries.Engine.Synced.{IsSynced}
use embers_diaries.Engine.Written.{
  get-IsLatest, get_current-IsLatest, write-IsLatest, write-IsSound, get_namespace_ids-write,
}
use embers_diaries.Identity.Registry.{db_write, validate_provenance}
use embers_diaries.Database.Fields.{IsoFormat, Shows}
use embers_diaries.Database.Evidence.{EvidenceHash, AllShow, AllShow-map}
use embers_diaries.Database.Versions.{Body, body-overlay}
use embers_diaries.Database.Listing.{
  all_namespaces, fold_result, nothing_listed, Listed, list_namespace,
}
use embers_diaries.Database.Listing.Sweep.{Has, sweep-Has}
use embers_diaries.Database.Listing.Namespaces.{member-all_namespaces}
use embers_diaries.Database.Session.Operations.{Spare}
use embers_diaries.Database.Failure.Payload.{
  Failure, Phrasing, normalize_approach, seal_all, payload, from_record, from_record-payload_of,
}
use embers_diaries.Database.Failure.Operations.{
  ReportDraw, failure_record, is_asked_for, failures, is_repeat, failures_for_approach, has_failed,
  report_failure,
}

any_of-select {ℓ} :
    {A : Type ℓ} (test : A → Bool) (xs : List A)
    → any_of test xs ≡ true
    → (y : A) × (ys : List A) × (select test xs ≡ y ∷ ys)
any_of-select test [] p = absurd (ground (arith, p))
any_of-select test (x ∷ xs) p = elim (Bool-cases (test x)) [
  | inl e ↦ (x, select test xs, rw e refl)
  | inr e ↦ let (y, ys, q) = any_of-select test xs (ground (arith, p, e)) in (y, ys, rw e q)
]

-- Whether a namespace is among those that are asked for.
abbrev pub Covers : Option String → String → Type 0
Covers none namespace = Unit
Covers (some asked) namespace = asked ≡ namespace

module _ ⦃h : Hashing⦄ ⦃i : IsoFormat⦄ ⦃p : Phrasing⦄ (d : Spare) where
  abbrev sweep : Engine → List String → Result (Listed Failure)
  sweep s namespaces =
      fold_result
        (list_namespace s.disk RecordType.failure (from_record d.spare_id d.spare_time)
          (is_asked_for none none false) s.index)
        namespaces nothing_listed

  -- What `failures` swept.
  failures-sweep :
      (asked : Option String) (s : Engine) (fs : List Failure) (id : String) (r : EmberRecord)
      → failures d asked none none false s ≡ ok fs
      → Covers asked r.namespace
      → Storage.read id s.disk ≡ ok (some r)
      → (namespaces : List String) × (member r.namespace namespaces ≡ true)
        × (l : Listed Failure) × (sweep s namespaces ≡ ok l)
        × (l.out ≡ fs)
  unfolding failures
  failures-sweep none s fs id r q covers found = elim (Result-cases (all_namespaces s.disk)) [
    | inr (e, a) ↦ absurd (ground (arith, rw a at q))
    | inl (namespaces, a) ↦ elim (Result-cases (sweep s namespaces)) [
      | inr (e, b) ↦ absurd (ground (arith, rw (a, b) at q))
      | inl (l, b) ↦ (
        namespaces,
        member-all_namespaces s.disk namespaces id r a found,
        l,
        b,
        ground (arith, rw (a, b) at q),
      )
    ]
  ]
  failures-sweep (some asked) s fs id r q covers found =
      elim (Result-cases (sweep s (asked ∷ []))) [
        | inr (e, b) ↦ absurd (ground (arith, rw b at q))
        | inl (l, b) ↦ (
          asked ∷ [],
          ground (arith, (eq_iff asked r.namespace).1 covers),
          l,
          b,
          ground (arith, rw b at q),
        )
      ]

  -- An answer about an approach that a listed failure repeats.
  has_failed-Has :
      (approach : String) (asked : Option String) (s : Engine) (f : Failure) (answer : Bool)
      → ((fs : List Failure) → failures d asked none none false s ≡ ok fs → Has fs f)
      → is_repeat approach f ≡ true
      → has_failed d approach asked s ≡ ok answer
      → answer ≡ true
  unfolding has_failed failures_for_approach
  has_failed-Has approach asked s f answer has repeats q =
      elim (Result-cases (failures d asked none none false s)) [
        | inr (e, a) ↦ absurd (ground (arith, rw a at q))
        | inl (fs, a) ↦
            let (y, ys, found) =
              any_of-select (is_repeat approach) fs (has fs a (is_repeat approach) repeats) in
            ground (arith, rw (a, found) at q)
      ]

  module _ ⦃c : Encoding⦄ (limits : StorageLimits) where
    -- A failure that was just written is among the failures that are listed, but for a tag of its own
    -- that reads `failure`.
    abbrev as_read : Failure → Failure
    as_read f = record f { tags = select (λ t. not (t == "failure")) (f.tags ++ "failure" ∷ []) }

    written-Has :
        (recorded : Time) (w : WriteDraw) (f : Failure) (id : String) (s t : Engine)
        (asked : Option String)
        → IsSound s.disk
        → IsSynced s.disk s.index
        → (f.failure_id == "") ≡ false
        → Shows f.occurred_at
        → AllShow f.evidence
        → (p.strip f.approach == "") ≡ false
        → write limits w (failure_record recorded f) s ≡ (ok id, t)
        → Covers asked f.namespace
        → (fs : List Failure) → failures d asked none none false t ≡ ok fs
        → Has fs (as_read f)
    unfolding failure_record type_value is_asked_for payload
    written-Has recorded w f id s t asked sound synced named shown all spoken done covers fs q =
        let r = failure_record recorded f in
        let latest = write-IsLatest limits w r s t id done sound in
        let sound' = write-IsSound limits w r s t id done sound in
        let o = overlay t.disk r.id (with_hash r) in
        let shape = body-overlay t.disk r.id (with_hash r) in
        let back : from_record d.spare_id d.spare_time o ≡ ok (as_read f) =
          from_record-payload_of d.spare_id d.spare_time (as_read f) o shown all spoken
            (ap (λ (y : Body). y.1) shape) (ap (λ (y : Body). y.2) shape)
            (ap (λ (y : Body). select (λ g. not (g == "failure")) y.3) shape) in
        let own : o.id ≡ r.id = ap (λ (y : Body). y.0) shape in
        let (namespaces, listed, l, swept, same) =
          failures-sweep asked t fs r.id (with_hash r) q covers latest.found in
        subst (λ l'. Has l' (as_read f)) same
          (sweep-Has t.disk sound'.1 RecordType.failure (from_record d.spare_id d.spare_time)
            (is_asked_for none none false) t.index namespaces l swept r.namespace r.id o o
            (as_read f) listed (get_namespace_ids-write limits w r s t id done sound synced named)
            (get-IsLatest true false t.disk (with_hash r) latest)
            (ap (λ (y : Body). type_value y.4 == type_value RecordType.failure) shape)
            (ap (get_current t.disk) own
              ∙ get_current-IsLatest t.disk (with_hash r) sound'.0 latest)
            back refl)

    module _ ⦃e : EvidenceHash⦄ (enforce : Bool) where
      -- A report of a failure that names no session wrote its record, and did no more.
      written_by_report :
          (u : ReportDraw) (f : Failure) (id : String) (s t : Engine)
          → f.session_id ≡ none
          → report_failure enforce limits d u f s ≡ (ok id, t)
          → write limits u.write_draw (failure_record u.recorded (seal_all f)) s ≡ (ok id, t)
      unfolding report_failure db_write seal_all
      written_by_report u f id s t alone q =
          let r = failure_record u.recorded (seal_all f) in
          elim (Result-cases (validate_provenance r.written_by r.agent_id enforce)) [
            | inr (w, v) ↦ absurd (ground (arith, rw v at q))
            | inl (u', v) ↦ by_outcome (write limits u.write_draw r s) refl v
          ]
        where
          by_outcome :
              (out : Result String × Engine)
              → write limits u.write_draw (failure_record u.recorded (seal_all f)) s ≡ out
              → validate_provenance
                  (failure_record u.recorded (seal_all f)).written_by
                  (failure_record u.recorded (seal_all f)).agent_id
                  enforce
                ≡ ok tt
              → out ≡ (ok id, t)
          by_outcome (err w, after) g v = absurd (ground (arith, rw (v, g) at q))
          by_outcome (ok wid, after) g v = rw (v, g, alone) at q

      -- A failure that was reported without a session is found by every agent that asks about the same
      -- approach, in the failure's namespace or in all: whatever spelling it has the same normal form,
      -- `has_failed` answers yes, or raises because some record cannot be read; it never answers no.
      -- The disk before was sound and in step with the index, the failure has an id and an approach
      -- that is not blank, and its times are printed so that they can be read.
      pub report_failure-has_failed :
          (u : ReportDraw) (f : Failure) (id : String) (s t : Engine)
          → f.session_id ≡ none
          → IsSound s.disk
          → IsSynced s.disk s.index
          → (f.failure_id == "") ≡ false
          → (p.strip f.approach == "") ≡ false
          → Shows f.occurred_at
          → AllShow f.evidence
          → report_failure enforce limits d u f s ≡ (ok id, t)
          → (approach : String) (asked : Option String)
          → normalize_approach f.approach ≡ normalize_approach approach
          → Covers asked f.namespace
          → has_failed d approach asked t ≡ ok true
            ⊎ ((w : Error) × (has_failed d approach asked t ≡ err w))
      unfolding seal_all
      report_failure-has_failed u f id s t alone sound synced named spoken shown all q approach
            asked alike covers =
          elim (Result-cases (has_failed d approach asked t)) [
            | inr raised ↦ inr raised
            | inl (answer, g) ↦ inl (
                g
                ∙ ap ok (
                    has_failed-Has approach asked t (as_read (seal_all f)) answer
                      (written-Has u.recorded u.write_draw (seal_all f) id s t asked sound synced
                        named shown (AllShow-map f.evidence all) spoken
                        (written_by_report u f id s t alone q) covers)
                      ((eq_iff (normalize_approach f.approach) (normalize_approach approach)).1
                        alike)
                      g))
          ]
