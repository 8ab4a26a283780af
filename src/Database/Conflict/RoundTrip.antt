-- ===== src/Database/Conflict/RoundTrip.antt =====
-- Reading back a conflict from a record (embers/core/conflict.py, `_conflict_from_record` of
-- embers/db.py).
use embers_diaries.Prelude.{
  String, some, ◌≡◌, refl, arith, ◌==◌, select, not, text_lt, text_lt_trans, text_lt_irrefl,
  Bool-cases, inl, inr, false, sym, ap, ◌∙◌, eq_iff,
}
use embers_diaries.Core.Types.{ConflictStatus}
use embers_diaries.Core.Record.{EmberRecord, Fields, Time, text, list, dict}
use embers_diaries.Core.Result.{ok}
use embers_diaries.Database.Fields.{
  required_text, get_field, put_field, as_dict, text_at, texts_at, of_texts, IsoFormat, time_at,
  Shows,
}
use embers_diaries.Database.Conflict.Payload.{
  Conflict, ConflictType, PairHash, kind_value, kind_of, status_value, status_of, ordered, payload,
  from_dict, from_record,
}
use embers_diaries.Database.Session.RoundTrip.{texts_at-of_texts, time_at-shown}

kind_of-kind_value : (k : ConflictType) → kind_of (kind_value k) ≡ ok k
unfolding kind_of kind_value
kind_of-kind_value ConflictType.semantic = refl
kind_of-kind_value ConflictType.storage = refl

status_of-status_value : (s : ConflictStatus) → status_of (status_value s) ≡ ok s
unfolding status_of status_value
status_of-status_value ConflictStatus.open_conflict = refl
status_of-status_value ConflictStatus.investigating = refl
status_of-status_value ConflictStatus.resolved = refl
status_of-status_value ConflictStatus.accepted_both = refl
status_of-status_value ConflictStatus.superseded = refl

-- A conflict that was put in order is in order.
pub ordered-ordered : (c x : Conflict) → ordered c ≡ ok x → ordered x ≡ ok x
unfolding ordered
ordered-ordered c x p = elim (Bool-cases (c.memory_a == c.memory_b)) [
  | inl e ↦ absurd (ground (arith, rw e at p))
  | inr e ↦ elim (Bool-cases (text_lt c.memory_b c.memory_a)) [
    | inr b ↦
        let same : c ≡ x = ground (arith, rw (e, b) at p) in
        ap ordered (sym same) ∙ rw (e, b) (ap ok same)
    | inl b ↦
        let swapped : Conflict = record c { memory_a = c.memory_b; memory_b = c.memory_a } in
        let same : swapped ≡ x = ground (arith, rw (e, b) at p) in
        let other : (c.memory_b == c.memory_a) ≡ false =
          ground (arith, e, eq_iff c.memory_a c.memory_b, eq_iff c.memory_b c.memory_a) in
        let stays : text_lt c.memory_a c.memory_b ≡ false =
          ground
            (arith, b, text_lt_trans c.memory_b c.memory_a c.memory_b, text_lt_irrefl c.memory_b) in
        ap ordered (sym same) ∙ rw (other, stays) (ap ok same)
  ]
]

module _ ⦃i : IsoFormat⦄ where
  from_dict-keys :
      (fresh : String) (now : Time) (c : Conflict) (d : Fields)
      → text_at d "conflict_id" fresh ≡ ok c.conflict_id
      → text_at d "namespace" "default" ≡ ok c.namespace
      → required_text d "memory_a" ≡ ok c.memory_a
      → required_text d "memory_b" ≡ ok c.memory_b
      → text_at d "conflict_type" "semantic" ≡ ok (kind_value c.conflict_type)
      → time_at d "detected_at" (some now) ≡ ok (some c.detected_at)
      → text_at d "detected_by" "system" ≡ ok c.detected_by
      → text_at d "status" "open" ≡ ok (status_value c.status)
      → text_at d "resolution" "" ≡ ok c.resolution
      → text_at d "winner_id" "" ≡ ok c.winner_id
      → text_at d "note" "" ≡ ok c.note
      → texts_at d "tags" ≡ ok c.tags
      → ordered c ≡ ok c
      → from_dict fresh now d ≡ ok c
  unfolding from_dict
  from_dict-keys fresh now c d p0 p1 p2 p3 p4 p5 p6 p7 p8 p9 p10 p11 o =
      rw
        (
          p0,
          p1,
          p2,
          p3,
          p4,
          kind_of-kind_value c.conflict_type,
          p5,
          p6,
          p7,
          status_of-status_value c.status,
          p8,
          p9,
          p10,
          p11,
        )
        o

  module _ ⦃p : PairHash⦄ where
    restored : Conflict → Fields
    unfolding payload
    restored c =
        put_field (put_field (payload c) "namespace" (text c.namespace)) "tags"
          (list (of_texts c.tags))

    from_dict-restored :
        (fresh : String) (now : Time) (c : Conflict)
        → Shows c.detected_at
        → ordered c ≡ ok c
        → from_dict fresh now (restored c) ≡ ok c
    unfolding restored payload get_field put_field as_dict text_at required_text
    from_dict-restored fresh now c shown o =
        let d = restored c in
        from_dict-keys fresh now c d refl refl refl refl refl
          (time_at-shown d "detected_at" (some now) c.detected_at refl shown) refl refl refl refl
          refl (texts_at-of_texts d "tags" c.tags refl) o

    -- A conflict whose memories are in order is read back from a record that holds its payload, has its
    -- namespace, and has its tags beside the tag `conflict`; its time must be printed so that it can be
    -- read.
    pub from_record-payload_lem :
        (fresh : String) (now : Time) (c : Conflict) (r : EmberRecord)
        → Shows c.detected_at
        → ordered c ≡ ok c
        → r.content ≡ dict (payload c)
        → r.namespace ≡ c.namespace
        → select (λ t. not (t == "conflict")) r.tags ≡ c.tags
        → from_record fresh now r ≡ ok c
    unfolding from_record restored as_dict
    from_record-payload_lem fresh now c r shown o content namespace tags =
        rw (content, namespace, tags) (from_dict-restored fresh now c shown o)
