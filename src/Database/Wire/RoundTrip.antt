-- ===== src/Database/Wire/RoundTrip.antt =====
-- What `from_dict` of embers/core reads back of the dicts that `to_dict` makes.
use embers_diaries.Prelude.{ℕ, String, Option, none, some, List, [], ◌∷◌, ◌≡◌, ap, ◌∙◌, refl}
use embers_diaries.Core.Types.{DeprecationReason}
use embers_diaries.Core.Record.{EmberRecord, EdgeRef, Annotation, Fields, Time, Float}
use embers_diaries.Core.Result.{Result, ok}
use embers_diaries.Database.Fields.{
  required_text, get_field, text_at, IsoFormat, time_at, of_time, Shows,
}
use embers_diaries.Storage.{stored}
use embers_diaries.Engine.Reader.{◌>>=◌}
use embers_diaries.Database.Evidence.{optional_at-of_optional}
use embers_diaries.Database.Session.RoundTrip.{texts_at-of_texts, time_at-shown}
use embers_diaries.Database.Wire.Codes.{
  type_of-type_value, reason_of-reason_value, edge_of-edge_value,
}
use embers_diaries.Database.Wire.{
  flag_from, int_from, float_from, metadata_from, reason_from, of_reason, of_floats, floats_in,
  of_embedding, embedding_from, required_time, edge_dict, edge_items, edge_from, edges_in,
  edges_from, annotation_dict, annotation_items, annotation_from, annotations_in, annotations_from,
  to_dict, from_dict, file_bytes, read_file, file_in,
}

reason_from-of_reason : (o : Option DeprecationReason) → reason_from (some (of_reason o)) ≡ ok o
unfolding reason_from
reason_from-of_reason none = refl
reason_from-of_reason (some r) =
    rw ((reason_of-reason_value r).1, (reason_of-reason_value r).0) refl

floats_in-of_floats : (xs : List Float) → floats_in (of_floats xs) ≡ ok xs
unfolding floats_in of_floats
floats_in-of_floats [] = refl
floats_in-of_floats (x ∷ xs) = rw (floats_in-of_floats xs) refl

embedding_from-of_embedding :
    (o : Option (List Float)) → embedding_from (some (of_embedding o)) ≡ ok o
unfolding embedding_from
embedding_from-of_embedding none = refl
embedding_from-of_embedding (some xs) = rw (floats_in-of_floats xs) refl

module _ ⦃i : IsoFormat⦄ where
  -- The times that there are must be printed so that they can be read.
  abbrev pub ShowsAny : Option Time → Type 0
  ShowsAny none = Unit
  ShowsAny (some t) = Shows t

  time_at-of_time :
      (d : Fields) (k : String) (o : Option Time)
      → get_field d k ≡ some (of_time o)
      → ShowsAny o
      → time_at d k none ≡ ok o
  unfolding time_at
  time_at-of_time d k none p h = rw p refl
  time_at-of_time d k (some t) p h = time_at-shown d k none t p h

  abbrev EdgeShows : EdgeRef → Type 0
  EdgeShows e = Shows e.created_at × ShowsAny e.valid_from × ShowsAny e.valid_until

  abbrev EdgesShow : List EdgeRef → Type 0
  EdgesShow [] = Unit
  EdgesShow (e ∷ es) = EdgeShows e × EdgesShow es

  abbrev AnnotationsShow : List Annotation → Type 0
  AnnotationsShow [] = Unit
  AnnotationsShow (a ∷ rest) = Shows a.timestamp × AnnotationsShow rest

  edge_from-edge_dict : (e : EdgeRef) → EdgeShows e → edge_from (edge_dict e) ≡ ok e
  unfolding edge_from edge_dict required_text required_time text_at float_from metadata_from
      get_field
  edge_from-edge_dict e (made, from, until) =
      let d = edge_dict e in
      rw
        (
          edge_of-edge_value e.edge_type,
          made.0,
          time_at-of_time d "valid_from" e.valid_from refl from,
          time_at-of_time d "valid_until" e.valid_until refl until,
        )
        refl

  edges_in-edge_items : (es : List EdgeRef) → EdgesShow es → edges_in (edge_items es) ≡ ok es
  unfolding edges_in edge_items
  edges_in-edge_items [] h = refl
  edges_in-edge_items (e ∷ es) h = rw (edge_from-edge_dict e h.0, edges_in-edge_items es h.1) refl

  annotation_from-annotation_dict :
      (a : Annotation) → Shows a.timestamp → annotation_from (annotation_dict a) ≡ ok a
  unfolding annotation_from annotation_dict required_text required_time text_at float_from get_field
  annotation_from-annotation_dict a shown =
      let d = annotation_dict a in
      rw
        (
          shown.0,
          texts_at-of_texts d "related_record_ids" a.related_record_ids refl,
          texts_at-of_texts d "tags" a.tags refl,
        )
        refl

  annotations_in-annotation_items :
      (notes : List Annotation)
      → AnnotationsShow notes
      → annotations_in (annotation_items notes) ≡ ok notes
  unfolding annotations_in annotation_items
  annotations_in-annotation_items [] h = refl
  annotations_in-annotation_items (a ∷ rest) h =
      rw (annotation_from-annotation_dict a h.0, annotations_in-annotation_items rest h.1) refl

  -- Every time that a record holds is printed so that it can be read.
  pub record RecordShows (r : EmberRecord) : Type 0 where
    pub made : Shows r.created_at
    pub from : ShowsAny r.valid_from
    pub until : ShowsAny r.valid_until
    pub ended : ShowsAny r.deprecated_at
    pub accessed : ShowsAny r.last_accessed
    pub edges : EdgesShow r.connections
    pub notes : AnnotationsShow r.annotations

  pub from_dict-to_dict : (r : EmberRecord) → RecordShows r → from_dict (to_dict r) ≡ ok r
  unfolding from_dict to_dict required_text required_time text_at float_from int_from flag_from
      edges_from annotations_from get_field
  from_dict-to_dict r h =
      let d = to_dict r in
      rw
        (
          type_of-type_value r.record_type,
          optional_at-of_optional d "parent_hash" r.parent_hash refl,
          optional_at-of_optional d "content_hash" r.content_hash refl,
          h.made.0,
          time_at-of_time d "valid_from" r.valid_from refl h.from,
          time_at-of_time d "valid_until" r.valid_until refl h.until,
          optional_at-of_optional d "superseded_by" r.superseded_by refl,
          optional_at-of_optional d "supersedes" r.supersedes refl,
          time_at-of_time d "deprecated_at" r.deprecated_at refl h.ended,
          reason_from-of_reason r.deprecation_reason,
          edges_in-edge_items r.connections h.edges,
          optional_at-of_optional d "parent_id" r.parent_id refl,
          embedding_from-of_embedding r.embedding,
          annotations_in-annotation_items r.annotations h.notes,
          time_at-of_time d "last_accessed" r.last_accessed refl h.accessed,
          optional_at-of_optional d "origin" r.origin refl,
          optional_at-of_optional d "agent_id" r.agent_id refl,
          optional_at-of_optional d "session_id" r.session_id refl,
          optional_at-of_optional d "creation_reason" r.creation_reason refl,
          texts_at-of_texts d "derived_from" r.derived_from refl,
          texts_at-of_texts d "tags" r.tags refl,
        )
        refl

  -- The bytes of a record's file are that record, where the library decodes the record's dict as it was
  -- encoded.
  file_in-file_bytes :
      {B : Type 0} (encode : Fields → B) (decode : B → Result Fields) (size : B → ℕ)
      (r : EmberRecord)
      → RecordShows r
      → decode (encode (to_dict r)) ≡ ok (to_dict r)
      → file_in decode size (file_bytes encode r) ≡ stored r
  unfolding file_in file_bytes
  file_in-file_bytes encode decode size r h exact =
      let bytes = file_bytes encode r in
      ap (λ d. read_file (size bytes) (d >>= from_dict)) exact
      ∙ ap (read_file (size bytes)) (from_dict-to_dict r h)
