-- ===== src/Database/Session/RoundTrip.antt =====
-- The payload of a session, written and read (embers/core/session.py).
use embers_diaries.Prelude.{String, Option, none, some, List, [], ◌∷◌, ◌≡◌, refl, not, ◌==◌, select}
use embers_diaries.Core.Types.{SessionStatus}
use embers_diaries.Core.Record.{EmberRecord, Fields, Time, text, list, end}
use embers_diaries.Core.Result.{ok, err}
use embers_diaries.Database.Fields.{
  get_field, put_field, as_dict, text_at, texts_at, texts_in, of_texts, IsoFormat, time_at, of_time,
  Shows,
}
use embers_diaries.Database.Session.Payload.{
  Session, status_value, status_of, payload, from_dict, from_record,
}

pub texts_in-of_texts : (xs : List String) → texts_in (of_texts xs) ≡ ok xs
unfolding texts_in of_texts
texts_in-of_texts [] = refl
texts_in-of_texts (x ∷ xs) = rw (texts_in-of_texts xs) refl

status_of-status_value : (st : SessionStatus) → status_of (status_value st) ≡ ok st
unfolding status_of status_value
status_of-status_value SessionStatus.active = refl
status_of-status_value SessionStatus.completed = refl
status_of-status_value SessionStatus.abandoned = refl

module _ ⦃i : IsoFormat⦄ where
  abbrev ShowsEnd : Option Time → Type 0
  ShowsEnd none = Unit
  ShowsEnd (some t) = Shows t

  -- The times of a session are printed so that they can be read back.
  abbrev pub IsShown : Session → Type 0
  IsShown s = Shows s.started_at × ShowsEnd s.ended_at

  pub time_at-shown :
      (d : Fields) (k : String) (default : Option Time) (t : Time)
      → get_field d k ≡ some (of_time (some t))
      → Shows t
      → time_at d k default ≡ ok (some t)
  unfolding time_at
  time_at-shown d k default t p shown = rw (p, shown.1, shown.0) refl

  time_at-end :
      (d : Fields) (k : String) (e : Option Time)
      → get_field d k ≡ some (of_time e)
      → ShowsEnd e
      → time_at d k none ≡ ok e
  unfolding time_at
  time_at-end d k none p shown = rw p refl
  time_at-end d k (some t) p shown = time_at-shown d k none t p shown

  pub texts_at-of_texts :
      (d : Fields) (k : String) (xs : List String)
      → get_field d k ≡ some (list (of_texts xs))
      → texts_at d k ≡ ok xs
  unfolding texts_at
  texts_at-of_texts d k xs p = rw p (texts_in-of_texts xs)

  -- The keys of the payload, one by one.
  from_dict-keys :
      (fresh : String) (now : Time) (s : Session) (d : Fields)
      → text_at d "session_id" fresh ≡ ok s.session_id
      → text_at d "namespace" "default" ≡ ok s.namespace
      → text_at d "agent_id" "system" ≡ ok s.agent_id
      → time_at d "started_at" (some now) ≡ ok (some s.started_at)
      → time_at d "ended_at" none ≡ ok s.ended_at
      → text_at d "task" "" ≡ ok s.task
      → text_at d "status" "active" ≡ ok (status_value s.status)
      → text_at d "summary" "" ≡ ok s.summary
      → texts_at d "discoveries" ≡ ok s.discoveries
      → texts_at d "failures" ≡ ok s.failures
      → texts_at d "memory_writes" ≡ ok s.memory_writes
      → texts_at d "tags" ≡ ok s.tags
      → from_dict fresh now d ≡ ok s
  unfolding from_dict
  from_dict-keys fresh now s d p0 p1 p2 p3 p4 p5 p6 p7 p8 p9 p10 p11 =
      rw (p0, p1, p2, p3, p4, p5, p6, status_of-status_value s.status, p7, p8, p9, p10, p11) refl

  -- The payload with the keys that `_session_from_record` adds.
  restored : Session → Fields
  unfolding payload
  restored s = elim (as_dict (payload s)) [
    | ok d ↦ put_field (put_field d "namespace" (text s.namespace)) "tags" (list (of_texts s.tags))
    | err e ↦ end
  ]

  from_dict-restored :
      (fresh : String) (now : Time) (s : Session)
      → IsShown s
      → from_dict fresh now (restored s) ≡ ok s
  unfolding restored payload get_field put_field as_dict text_at
  from_dict-restored fresh now s shown =
      let d = restored s in
      from_dict-keys fresh now s d refl refl refl
        (time_at-shown d "started_at" (some now) s.started_at refl shown.0)
        (time_at-end d "ended_at" s.ended_at refl shown.1) refl refl refl
        (texts_at-of_texts d "discoveries" s.discoveries refl)
        (texts_at-of_texts d "failures" s.failures refl)
        (texts_at-of_texts d "memory_writes" s.memory_writes refl)
        (texts_at-of_texts d "tags" s.tags refl)

  -- A session is read back from a record that holds its payload, has its namespace, and has its tags
  -- beside the tag `session`; its times must be printed so that they can be read.
  pub from_record-payload :
      (fresh : String) (now : Time) (s : Session) (r : EmberRecord)
      → IsShown s
      → r.content ≡ payload s
      → r.namespace ≡ s.namespace
      → select (λ t. not (t == "session")) r.tags ≡ s.tags
      → from_record fresh now r ≡ ok s
  unfolding from_record payload restored as_dict
  from_record-payload fresh now s r shown content namespace tags =
      rw (content, namespace, tags) (from_dict-restored fresh now s shown)
