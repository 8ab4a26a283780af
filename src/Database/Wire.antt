-- ===== src/Database/Wire.antt =====
-- The dicts of records, edges and annotations: `to_dict` and `from_dict` of embers/core/record.py, edge.py
-- and annotation.py. Encoding a dict as bytes and decoding it is done by a library.
pub mod Codes
pub mod RoundTrip
mod Tests
use embers_diaries.Prelude.{
  ℕ, String, Bool, true, false, Option, none, some, List, [], ◌∷◌, ◌==◌, if◌then◌else◌, get_or,
}
use embers_diaries.Core.Types.{DeprecationReason, type_value}
use embers_diaries.Core.Record.{
  EmberRecord, EdgeRef, Annotation, Fields, Items, Value, Time, Float, null, flag, int, float, text,
  list, dict, nil, cons, end, field,
}
use embers_diaries.Core.Result.{value_error, Result, ok, err}
use embers_diaries.Storage.{RecordFile, stored, damaged}
use embers_diaries.Engine.Reader.{◌>>=◌}
use embers_diaries.Database.Fields.{
  required_text, get_field, text_at, optional_at, of_optional, texts_at, of_texts, IsoFormat,
  time_at, of_time,
}
use embers_diaries.Database.Wire.Codes.{type_of, reason_value, reason_of, edge_value, edge_of}

-- `d.get(k, default)`, for a Boolean, a number and a float.
unfoldable pub flag_from : Bool → Option Value → Result Bool
flag_from default none = ok default
flag_from default (some (flag b)) = ok b
flag_from default (some _) = err value_error

unfoldable pub int_from : ℕ → Option Value → Result ℕ
int_from default none = ok default
int_from default (some (int n)) = ok n
int_from default (some _) = err value_error

unfoldable pub float_from : Float → Option Value → Result Float
float_from default none = ok default
float_from default (some (float x)) = ok x
float_from default (some _) = err value_error

-- `d.get("metadata", {})`
unfoldable pub metadata_from : Option Value → Result Fields
metadata_from none = ok end
metadata_from (some (dict d)) = ok d
metadata_from (some _) = err value_error

-- `DeprecationReason(d[k]) if d.get(k) else None`
unfoldable pub reason_from : Option Value → Result (Option DeprecationReason)
unfolding reason_of
reason_from none = ok none
reason_from (some null) = ok none
reason_from (some (text s)) =
    if s == "" then ok none else (elim (reason_of s) [ ok r ↦ ok (some r) | err e ↦ err e ])
reason_from (some _) = err value_error

abbrev pub of_reason : Option DeprecationReason → Value
of_reason none = null
of_reason (some r) = text (reason_value r)

-- An embedding, which is a list of floats or None.
unfoldable pub of_floats : List Float → Items
of_floats [] = nil
of_floats (x ∷ xs) = cons (float x) (of_floats xs)

unfoldable pub floats_in : Items → Result (List Float)
floats_in nil = ok []
floats_in (cons (float x) vs) = do xs ← floats_in vs; ok (x ∷ xs)
floats_in (cons _ vs) = err value_error

abbrev pub of_embedding : Option (List Float) → Value
of_embedding none = null
of_embedding (some xs) = list (of_floats xs)

unfoldable pub embedding_from : Option Value → Result (Option (List Float))
unfolding floats_in
embedding_from none = ok none
embedding_from (some null) = ok none
embedding_from (some (list vs)) = do xs ← floats_in vs; ok (some xs)
embedding_from (some _) = err value_error

module _ ⦃i : IsoFormat⦄ where
  -- `datetime.fromisoformat(d[k])`
  unfoldable pub required_time : Fields → String → Result Time
  required_time d k = do s ← required_text d k; i.fromisoformat s

  -- `EdgeRef.to_dict` and `from_dict`
  unfoldable pub edge_dict : EdgeRef → Fields
  edge_dict e = field "edge_id" (text e.edge_id) (
      field "target_id" (text e.target_id) (
        field "edge_type" (text (edge_value e.edge_type)) (
          field "weight" (float e.weight) (
            field "confidence" (float e.confidence) (
              field "label" (text e.label) (
                field "metadata" (dict e.metadata) (
                  field "created_at" (of_time (some e.created_at)) (
                    field "valid_from" (of_time e.valid_from)
                      (field "valid_until" (of_time e.valid_until) end)))))))))

  unfoldable pub edge_items : List EdgeRef → Items
  edge_items [] = nil
  edge_items (e ∷ es) = cons (dict (edge_dict e)) (edge_items es)

  unfoldable pub edge_from : Fields → Result EdgeRef
  edge_from d = do
    edge_id ← required_text d "edge_id"
    target_id ← required_text d "target_id"
    type_text ← required_text d "edge_type"
    edge_type ← edge_of type_text
    weight ← float_from 0x3ff0000000000000 (get_field d "weight")
    confidence ← float_from 0x3ff0000000000000 (get_field d "confidence")
    label ← text_at d "label" ""
    metadata ← metadata_from (get_field d "metadata")
    created_at ← required_time d "created_at"
    valid_from ← time_at d "valid_from" none
    valid_until ← time_at d "valid_until" none
    ok (record {
      edge_id = edge_id;
      target_id = target_id;
      edge_type = edge_type;
      weight = weight;
      confidence = confidence;
      label = label;
      metadata = metadata;
      created_at = created_at;
      valid_from = valid_from;
      valid_until = valid_until;
    })

  unfoldable pub edges_in : Items → Result (List EdgeRef)
  edges_in nil = ok []
  edges_in (cons (dict d) vs) = do e ← edge_from d; es ← edges_in vs; ok (e ∷ es)
  edges_in (cons _ vs) = err value_error

  unfoldable pub edges_from : Option Value → Result (List EdgeRef)
  edges_from none = ok []
  edges_from (some (list vs)) = edges_in vs
  edges_from (some _) = err value_error

  -- `Annotation.to_dict` and `from_dict`
  unfoldable pub annotation_dict : Annotation → Fields
  annotation_dict a = field "id" (text a.id) (
      field "target_record_id" (text a.target_record_id) (
        field "content" (text a.content) (
          field "context" (text a.context) (
            field "annotation_type" (text a.annotation_type) (
              field "written_by" (text a.written_by) (
                field "confidence" (float a.confidence) (
                  field "timestamp" (of_time (some a.timestamp)) (
                    field "related_record_ids" (list (of_texts a.related_record_ids))
                      (field "tags" (list (of_texts a.tags)) end)))))))))

  unfoldable pub annotation_items : List Annotation → Items
  annotation_items [] = nil
  annotation_items (a ∷ rest) = cons (dict (annotation_dict a)) (annotation_items rest)

  unfoldable pub annotation_from : Fields → Result Annotation
  annotation_from d = do
    id ← required_text d "id"
    target_record_id ← required_text d "target_record_id"
    content ← text_at d "content" ""
    context ← text_at d "context" ""
    annotation_type ← text_at d "annotation_type" "note"
    written_by ← text_at d "written_by" "system"
    confidence ← float_from 0x3ff0000000000000 (get_field d "confidence")
    timestamp ← required_time d "timestamp"
    related_record_ids ← texts_at d "related_record_ids"
    tags ← texts_at d "tags"
    ok (record {
      id = id;
      target_record_id = target_record_id;
      content = content;
      context = context;
      annotation_type = annotation_type;
      written_by = written_by;
      confidence = confidence;
      timestamp = timestamp;
      related_record_ids = related_record_ids;
      tags = tags;
    })

  unfoldable pub annotations_in : Items → Result (List Annotation)
  annotations_in nil = ok []
  annotations_in (cons (dict d) vs) = do
    a ← annotation_from d
    rest ← annotations_in vs
    ok (a ∷ rest)
  annotations_in (cons _ vs) = err value_error

  unfoldable pub annotations_from : Option Value → Result (List Annotation)
  annotations_from none = ok []
  annotations_from (some (list vs)) = annotations_in vs
  annotations_from (some _) = err value_error

  -- `EmberRecord.to_dict` and `from_dict`
  unfoldable pub to_dict : EmberRecord → Fields
  to_dict r = field "id" (text r.id) (
      field "namespace" (text r.namespace) (
        field "record_type" (text (type_value r.record_type)) (
          field "version" (int r.version) (
            field "parent_hash" (of_optional r.parent_hash) (
              field "content_hash" (of_optional r.content_hash) (
                field "data" r.content (
                  field "created_at" (of_time (some r.created_at)) (
                    field "valid_from" (of_time r.valid_from) (
                      field "valid_until" (of_time r.valid_until) (
                        field "superseded_by" (of_optional r.superseded_by) (
                          field "supersedes" (of_optional r.supersedes) (
                            field "deprecated" (flag r.deprecated) (
                              field "deprecated_at" (of_time r.deprecated_at) (
                                field "deprecation_reason" (of_reason r.deprecation_reason) (
                                  field "deprecation_note" (text r.deprecation_note) (
                                    field "connections" (list (edge_items r.connections)) (
                                      field "parent_id" (of_optional r.parent_id) (
                                        field "embedding" (of_embedding r.embedding) (
                                          field "annotations"
                                            (list (annotation_items r.annotations))
                                            (field "confidence" (float r.confidence) (
                                              field "decay_rate" (float r.decay_rate) (
                                                field "access_count" (int r.access_count) (
                                                  field "last_accessed" (of_time r.last_accessed) (
                                                    field "written_by" (text r.written_by) (
                                                      field "origin" (of_optional r.origin) (
                                                        field "agent_id" (of_optional r.agent_id) (
                                                          field "session_id"
                                                            (of_optional r.session_id)
                                                            (field "creation_reason"
                                                            (of_optional r.creation_reason)
                                                            (field "derived_from"
                                                            (list (of_texts r.derived_from))
                                                            (field "tags" (list (of_texts r.tags)) (
                                                            field "schema_version"
                                                            (text r.schema_version)
                                                            (field "training_candidate"
                                                            (flag r.training_candidate)
                                                            (field "retrieval_candidate"
                                                            (flag r.retrieval_candidate)
                                                            end)))))))))))))))))))))))))))))))))

  unfoldable pub from_dict : Fields → Result EmberRecord
  from_dict d = do
    id ← required_text d "id"
    namespace ← text_at d "namespace" "default"
    type_text ← required_text d "record_type"
    record_type ← type_of type_text
    version ← int_from 1 (get_field d "version")
    parent_hash ← optional_at d "parent_hash"
    content_hash ← optional_at d "content_hash"
    created_at ← required_time d "created_at"
    valid_from ← time_at d "valid_from" none
    valid_until ← time_at d "valid_until" none
    superseded_by ← optional_at d "superseded_by"
    supersedes ← optional_at d "supersedes"
    deprecated ← flag_from false (get_field d "deprecated")
    deprecated_at ← time_at d "deprecated_at" none
    deprecation_reason ← reason_from (get_field d "deprecation_reason")
    deprecation_note ← text_at d "deprecation_note" ""
    connections ← edges_from (get_field d "connections")
    parent_id ← optional_at d "parent_id"
    embedding ← embedding_from (get_field d "embedding")
    annotations ← annotations_from (get_field d "annotations")
    confidence ← float_from 0x3ff0000000000000 (get_field d "confidence")
    decay_rate ← float_from 0 (get_field d "decay_rate")
    access_count ← int_from 0 (get_field d "access_count")
    last_accessed ← time_at d "last_accessed" none
    written_by ← text_at d "written_by" "system"
    origin ← optional_at d "origin"
    agent_id ← optional_at d "agent_id"
    session_id ← optional_at d "session_id"
    creation_reason ← optional_at d "creation_reason"
    derived_from ← texts_at d "derived_from"
    tags ← texts_at d "tags"
    schema_version ← text_at d "schema_version" "1.0"
    training_candidate ← flag_from false (get_field d "training_candidate")
    retrieval_candidate ← flag_from true (get_field d "retrieval_candidate")
    ok (record {
      id = id;
      namespace = namespace;
      record_type = record_type;
      version = version;
      parent_hash = parent_hash;
      content_hash = content_hash;
      content = get_or (get_field d "data") null;
      created_at = created_at;
      valid_from = valid_from;
      valid_until = valid_until;
      superseded_by = superseded_by;
      supersedes = supersedes;
      deprecated = deprecated;
      deprecated_at = deprecated_at;
      deprecation_reason = deprecation_reason;
      deprecation_note = deprecation_note;
      connections = connections;
      parent_id = parent_id;
      embedding = embedding;
      annotations = annotations;
      confidence = confidence;
      decay_rate = decay_rate;
      access_count = access_count;
      last_accessed = last_accessed;
      written_by = written_by;
      origin = origin;
      agent_id = agent_id;
      session_id = session_id;
      creation_reason = creation_reason;
      derived_from = derived_from;
      tags = tags;
      schema_version = schema_version;
      training_candidate = training_candidate;
      retrieval_candidate = retrieval_candidate;
    })

  -- The bytes of a record's file, and the file that some bytes are for `read`, which passes over what it
  -- cannot decode. Encoding, decoding and the size of bytes are those of a library.
  unfoldable pub file_bytes : {B : Type 0} → (Fields → B) → EmberRecord → B
  file_bytes encode r = encode (to_dict r)

  abbrev pub read_file : ℕ → Result EmberRecord → RecordFile
  read_file size (ok r) = stored r
  read_file size (err e) = damaged size

  unfoldable pub file_in : {B : Type 0} → (B → Result Fields) → (B → ℕ) → B → RecordFile
  file_in decode size raw = read_file (size raw) (decode raw >>= from_dict)
