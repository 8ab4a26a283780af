-- ===== src/Database/Conflict/Mapped.antt =====
-- What `map_conflict` leaves for the next caller (embers/db.py).
use embers_diaries.Prelude.{
  String, true, false, Option, none, some, [], ◌≡◌, refl, sym, ap, ◌∙◌, subst, arith, ◌==◌, ◌||◌,
  not, text_lt, Bool-cases, inl, inr, eq_refl,
}
use embers_diaries.Core.Record.{EmberRecord, Hashing}
use embers_diaries.Core.Result.{Result-cases, Result, ok, err}
use embers_diaries.Storage
use embers_diaries.Storage.{Encoding, StorageLimits, Disk}
use embers_diaries.Engine.State.{Engine}
use embers_diaries.Engine.Writer.{write}
use embers_diaries.Engine.Reader.{get}
use embers_diaries.Engine.AppendOnly.{Preserved, Preserved-refl}
use embers_diaries.Engine.Sound.{IsSound}
use embers_diaries.Engine.Synced.{IsSynced}
use embers_diaries.Engine.Written.{write-IsSound, write-Preserved}
use embers_diaries.Namespace.{Manager}
use embers_diaries.Database.Fields.{IsoFormat, Shows}
use embers_diaries.Database.Session.Operations.{Spare}
use embers_diaries.Database.Conflict.Payload.{Conflict, ConflictType, PairHash, ordered}
use embers_diaries.Database.Conflict.RoundTrip.{ordered-ordered}
use embers_diaries.Database.Conflict.Mapping.{
  Store, MapDraw, is_closed, pair_fingerprint, is_live_pair, conflict_record, find_live_conflict,
  new_conflict, may_map, asked_conflict, map_new, map_conflict, link,
}
use embers_diaries.Database.Conflict.Lookup.{find_live-Has, find_live-passes, written-Has}

module _ ⦃h : Hashing⦄ ⦃i : IsoFormat⦄ ⦃p : PairHash⦄ (m : Manager) (d : Spare) where
  module _ ⦃c : Encoding⦄ (limits : StorageLimits) where
    -- What a call that got as far as the search says of the memories, and the conflict it asks for.
    pub record Asked (u : MapDraw) (a b detected_by : String) (kind : ConflictType) (note : String)
        (s : Engine) (x : Conflict) : Type 0 where
      pub record_a : EmberRecord
      pub record_b : EmberRecord
      pub found_a : get s.disk true true a ≡ ok (some record_a)
      pub found_b : get s.disk true true b ≡ ok (some record_b)
      pub allowed : may_map m d record_a record_b detected_by kind ≡ ok tt
      pub asked : ordered (new_conflict m d u record_a.namespace a b detected_by kind note) ≡ ok x

    pub asked_conflict-Asked :
        (u : MapDraw) (a b detected_by : String) (kind : ConflictType) (note : String) (s : Engine)
        (x : Conflict)
        → asked_conflict m d u a b detected_by kind note s.disk ≡ ok x
        → Asked u a b detected_by kind note s x
    unfolding asked_conflict
    asked_conflict-Asked u a b detected_by kind note s x q = elim (Bool-cases (a == b)) [
      | inl e ↦ absurd (ground (arith, rw e at q))
      | inr e ↦ elim (Result-cases (get s.disk true true a)) [
        | inr (w, f) ↦ absurd (ground (arith, rw (e, f) at q))
        | inl (none, f) ↦ absurd (ground (arith, rw (e, f) at q))
        | inl (some ra, f) ↦ elim (Result-cases (get s.disk true true b)) [
          | inr (w, g) ↦ absurd (ground (arith, rw (e, f, g) at q))
          | inl (none, g) ↦ absurd (ground (arith, rw (e, f, g) at q))
          | inl (some rb, g) ↦ elim (Result-cases (may_map m d ra rb detected_by kind)) [
            | inr (w, k) ↦ absurd (ground (arith, rw (e, f, g, k) at q))
            | inl (tt, k) ↦ record {
              record_a = ra;
              record_b = rb;
              found_a = f;
              found_b = g;
              allowed = k;
              asked = rw (e, f, g, k) at q;
            }
          ]
        ]
      ]
    ]

    -- Putting a new conflict in order changes no more than the order of its memories.
    abbrev pub IsNew : MapDraw → Conflict → Type 0
    IsNew u x =
        (x.conflict_id ≡ u.conflict_id)
        × (x.detected_at ≡ u.detected_at)
        × (x.tags ≡ [])
        × (is_closed x ≡ false)

    pub ordered-IsNew :
        (u : MapDraw) (namespace a b detected_by : String) (kind : ConflictType) (note : String)
        (x : Conflict)
        → ordered (new_conflict m d u namespace a b detected_by kind note) ≡ ok x
        → IsNew u x
    unfolding ordered is_closed
    ordered-IsNew u namespace a b detected_by kind note x q =
        let c = new_conflict m d u namespace a b detected_by kind note in
        elim (Bool-cases (a == b)) [
          | inl e ↦ absurd (ground (arith, rw e at q))
          | inr e ↦ elim (Bool-cases (text_lt b a)) [
            | inl k ↦
                let same : record c { memory_a = b; memory_b = a } ≡ x =
                  ground (arith, rw (e, k) at q) in
                subst (IsNew u) same (refl, refl, refl, refl)
            | inr k ↦
                let same : c ≡ x = ground (arith, rw (e, k) at q) in
                subst (IsNew u) same (refl, refl, refl, refl)
          ]
        ]

    pub map_new_old :
        (u : MapDraw) (a b detected_by id : String) (x old : Conflict) (s t : Store)
        → map_new m d limits u a b detected_by x (some old) s ≡ (ok id, t)
        → (s ≡ t) × (old.conflict_id ≡ id)
    unfolding map_new
    map_new_old u a b detected_by id x old s t p = (ground (arith, p), ground (arith, p))

    -- A new conflict was written, and only the graph changed after that.
    map_new_done :
        (u : MapDraw) (a b detected_by id : String) (x : Conflict) (s t : Store)
        → map_new m d limits u a b detected_by x none s ≡ (ok id, t)
        → (wid : String) × (write limits u.write_draw (conflict_record m d u detected_by x) s.engine
            ≡ (ok wid, t.engine))
    unfolding map_new link
    map_new_done u a b detected_by id x s t p =
        by_outcome (write limits u.write_draw (conflict_record m d u detected_by x) s.engine) refl
      where
        by_outcome :
            (out : Result String × Engine)
            → write limits u.write_draw (conflict_record m d u detected_by x) s.engine ≡ out
            → (wid : String) × (out ≡ (ok wid, t.engine))
        by_outcome (err e, v) q = absurd (ground (arith, rw q at p))
        by_outcome (ok wid, v) q =
            elim (Bool-cases (not (Storage.exists a v.disk) || not (Storage.exists b v.disk))) [
              | inl k ↦
                  let same : v ≡ t.engine =
                    ap (λ (o : Result String × Store). o.1.engine) (rw (q, k) at p) in
                  (wid, λ i. (ok wid, same i))
              | inr k ↦
                  let same : v ≡ t.engine =
                    ap (λ (o : Result String × Store). o.1.engine) (rw (q, k) at p) in
                  (wid, λ i. (ok wid, same i))
            ]

    -- A search after `map_new`, whether it found a live conflict or wrote a new one.
    pub map_new-live :
        (u : MapDraw) (a b detected_by id : String) (x : Conflict)
        (existing found : Option Conflict) (s t : Store)
        → IsSound s.engine.disk
        → IsSynced s.engine.disk s.engine.index
        → (u.conflict_id == "") ≡ false
        → Shows u.detected_at
        → ordered x ≡ ok x
        → IsNew u x
        → find_live_conflict m d (pair_fingerprint x) s.engine ≡ ok existing
        → map_new m d limits u a b detected_by x existing s ≡ (ok id, t)
        → find_live_conflict m d (pair_fingerprint x) t.engine ≡ ok found
        → (y : Conflict) × (found ≡ some y) × (is_live_pair (pair_fingerprint x) y ≡ true)
    map_new-live u a b detected_by id x (some old) found s t sound synced named shown order new f p
          g =
        let (same, own) = map_new_old u a b detected_by id x old s t p in
        let it : found ≡ some old = ground (
          arith,
          f,
          g,
          ap (λ (v : Store). find_live_conflict m d (pair_fingerprint x) v.engine) same,
        ) in
        (old, it, find_live-passes m d (pair_fingerprint x) s.engine old f)
    map_new-live u a b detected_by id x none found s t sound synced named shown order new f p g =
        let (wid, done) = map_new_done u a b detected_by id x s t p in
        find_live-Has m d (pair_fingerprint x) t.engine x found
          (written-Has m d limits u detected_by wid x s.engine t.engine sound synced
            (ap (λ k. k == "") new.0 ∙ named) (subst (λ k. Shows k) (sym new.1) shown) order new.2
            done)
          (ground (arith, eq_refl (pair_fingerprint x), new.3)) g

    -- What a call that returned went through.
    pub record Run (u : MapDraw) (a b detected_by : String) (kind : ConflictType) (note id : String)
        (s t : Store) : Type 0 where
      pub conflict : Conflict
      pub asking : asked_conflict m d u a b detected_by kind note s.engine.disk ≡ ok conflict
      pub existing : Option Conflict
      pub search : find_live_conflict m d (pair_fingerprint conflict) s.engine ≡ ok existing
      pub mapping : map_new m d limits u a b detected_by conflict existing s ≡ (ok id, t)

    pub map_conflict-Run :
        (u : MapDraw) (a b detected_by : String) (kind : ConflictType) (note id : String)
        (s t : Store)
        → map_conflict m d limits u a b detected_by kind note s ≡ (ok id, t)
        → Run u a b detected_by kind note id s t
    unfolding map_conflict
    map_conflict-Run u a b detected_by kind note id s t p =
        elim (Result-cases (asked_conflict m d u a b detected_by kind note s.engine.disk)) [
          | inr (e, q) ↦ absurd (ground (arith, rw q at p))
          | inl (x, q) ↦
              elim (Result-cases (find_live_conflict m d (pair_fingerprint x) s.engine)) [
                | inr (e, f) ↦ absurd (ground (arith, rw (q, f) at p))
                | inl (existing, f) ↦ record {
                  conflict = x;
                  asking = q;
                  existing = existing;
                  search = f;
                  mapping = rw (q, f) at p;
                }
              ]
        ]

    pub map_new-Preserved :
        (u : MapDraw) (a b detected_by id : String) (x : Conflict) (existing : Option Conflict)
        (s t : Store)
        → IsSound s.engine.disk
        → map_new m d limits u a b detected_by x existing s ≡ (ok id, t)
        → Preserved s.engine.disk t.engine.disk × IsSound t.engine.disk
    map_new-Preserved u a b detected_by id x (some old) s t sound p =
        let (same, own) = map_new_old u a b detected_by id x old s t p in
        subst (λ (v : Store). Preserved s.engine.disk v.engine.disk × IsSound v.engine.disk) same
          (Preserved-refl s.engine.disk, sound)
    map_new-Preserved u a b detected_by id x none s t sound p =
        let (wid, done) = map_new_done u a b detected_by id x s t p in
        let r = conflict_record m d u detected_by x in
        (
          write-Preserved limits u.write_draw r s.engine t.engine wid done,
          write-IsSound limits u.write_draw r s.engine t.engine wid done sound,
        )

    -- After a call of `map_conflict` that returned, a search for a live conflict of the two memories that
    -- returns finds one, whether the call had found it or wrote it: so the next call does not map the pair
    -- again. The caller may read and write the namespace of both memories. The disk before was sound and
    -- in step with the index, the id that the call drew is not empty, and its time is printed so that it
    -- can be read.
    pub map_conflict-live :
        (u : MapDraw) (a b detected_by : String) (kind : ConflictType) (note id : String)
        (s t : Store)
        → IsSound s.engine.disk
        → IsSynced s.engine.disk s.engine.index
        → (u.conflict_id == "") ≡ false
        → Shows u.detected_at
        → map_conflict m d limits u a b detected_by kind note s ≡ (ok id, t)
        → (x : Conflict) × Asked u a b detected_by kind note s.engine x
          × ((found : Option Conflict)
              → find_live_conflict m d (pair_fingerprint x) t.engine ≡ ok found
              → (y : Conflict) × (found ≡ some y) × (is_live_pair (pair_fingerprint x) y ≡ true))
    map_conflict-live u a b detected_by kind note id s t sound synced named shown p =
        let run = map_conflict-Run u a b detected_by kind note id s t p in
        let x = run.conflict in
        let asked = asked_conflict-Asked u a b detected_by kind note s.engine x run.asking in
        let ns = asked.record_a.namespace in
        (
          x,
          asked,
          λ found g.
              map_new-live u a b detected_by id x run.existing found s t sound synced named shown
                (ordered-ordered (new_conflict m d u ns a b detected_by kind note) x asked.asked)
                (ordered-IsNew u ns a b detected_by kind note x asked.asked) run.search run.mapping
                g,
        )
