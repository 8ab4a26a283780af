-- ===== src/Database/Session/Outline.antt =====
-- What `_session_from_record` takes from the record beside its payload (embers/db.py).
use embers_diaries.Prelude.{String, some, List, ◌≡◌, arith, ◌∙◌, not, ◌==◌, select, inl, inr}
use embers_diaries.Core.Record.{EmberRecord, Value, Fields, Time, text, list}
use embers_diaries.Core.Result.{Result-cases, ok}
use embers_diaries.Database.Fields.{
  get_field-put_field, get_field, put_field, as_dict, text_at, texts_at, of_texts, IsoFormat,
}
use embers_diaries.Database.Session.Payload.{Session, from_dict, from_record}
use embers_diaries.Database.Session.RoundTrip.{texts_at-of_texts}

module _ ⦃i : IsoFormat⦄ where
  from_dict-outline :
      (fresh : String) (now : Time) (d : Fields) (s : Session)
      → from_dict fresh now d ≡ ok s
      → (text_at d "namespace" "default" ≡ ok s.namespace) × (texts_at d "tags" ≡ ok s.tags)
  unfolding from_dict
  from_dict-outline fresh now d s p = ground (arith, p)

  -- The namespace of a session is the record's, and so are its tags, less the tag `session`.
  pub from_record-outline :
      (fresh : String) (now : Time) (r : EmberRecord) (s : Session)
      → from_record fresh now r ≡ ok s
      → (r.namespace ≡ s.namespace) × (select (λ t. not (t == "session")) r.tags ≡ s.tags)
  unfolding from_record text_at
  from_record-outline fresh now r s p = elim (Result-cases (as_dict r.content)) [
    | inr (e, f) ↦ absurd (ground (arith, p, f))
    | inl (d, f) ↦
        let kept : List String = select (λ t. not (t == "session")) r.tags in
        let tags : Value = list (of_texts kept) in
        let e = put_field (put_field d "namespace" (text r.namespace)) "tags" tags in
        let (named, tagged) = from_dict-outline fresh now e s (rw f at p) in
        let at_namespace : get_field e "namespace" ≡ some (text r.namespace) =
          get_field-put_field (put_field d "namespace" (text r.namespace)) "tags" "namespace" tags
          ∙ get_field-put_field d "namespace" "namespace" (text r.namespace) in
        let at_tags : get_field e "tags" ≡ some tags =
          get_field-put_field (put_field d "namespace" (text r.namespace)) "tags" "tags" tags in
        (
          ground (arith, rw at_namespace at named),
          ground (arith, texts_at-of_texts e "tags" kept at_tags, tagged),
        )
  ]
