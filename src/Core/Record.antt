-- ===== src/Core/Record.antt =====
-- embers/core/record.py, edge.py, annotation.py and integrity.py: the record, the payload that its
-- content hash covers, sealing and verification.
-- A float is its 64-bit pattern: for floats that are not negative and not NaN, the order of the
-- patterns is the order of the values. A point in time is a count of microseconds.
use embers_diaries.Prelude.{
  ℕ, String, Bool, true, false, Option, none, some, List, [], ◌==◌, if◌then◌else◌, not, ltb,
}
use embers_diaries.Core.Types.{RecordType, DeprecationReason, EdgeType}
use embers_diaries.Core.Result.{Result, ok, err, integrity_error}

abbrev pub Float : Type 0
Float = ℕ

abbrev pub Time : Type 0
Time = ℕ

-- What a JSON document holds: the `data: Any` of a record.
mutual
  pub data Value : Type 0 where
    null : Value
    flag : Bool → Value
    int : ℕ → Value
    float : Float → Value
    text : String → Value
    list : Items → Value
    dict : Fields → Value

  pub data Items : Type 0 where
    nil : Items
    cons : Value → Items → Items

  pub data Fields : Type 0 where
    end : Fields
    field : String → Value → Fields → Fields

pub record EdgeRef : Type 0 where
  pub edge_id : String
  pub target_id : String
  pub edge_type : EdgeType
  pub weight : Float
  pub confidence : Float
  pub label : String
  pub metadata : Fields
  pub created_at : Time
  pub valid_from : Option Time
  pub valid_until : Option Time

pub record Annotation : Type 0 where
  pub id : String
  pub target_record_id : String
  pub content : String
  pub context : String
  pub annotation_type : String
  pub written_by : String
  pub confidence : Float
  pub timestamp : Time
  pub related_record_ids : List String
  pub tags : List String

-- The payload field `data` of the source is `content` here.
pub record EmberRecord : Type 0 where
  pub id : String
  pub namespace : String
  pub record_type : RecordType
  pub version : ℕ
  pub parent_hash : Option String
  pub content_hash : Option String
  pub content : Value
  pub created_at : Time
  pub valid_from : Option Time
  pub valid_until : Option Time
  pub superseded_by : Option String
  pub supersedes : Option String
  pub deprecated : Bool
  pub deprecated_at : Option Time
  pub deprecation_reason : Option DeprecationReason
  pub deprecation_note : String
  pub connections : List EdgeRef
  pub parent_id : Option String
  pub embedding : Option (List Float)
  pub annotations : List Annotation
  pub confidence : Float
  pub decay_rate : Float
  pub access_count : ℕ
  pub last_accessed : Option Time
  pub written_by : String
  pub origin : Option String
  pub agent_id : Option String
  pub session_id : Option String
  pub creation_reason : Option String
  pub derived_from : List String
  pub tags : List String
  pub schema_version : String
  pub training_candidate : Bool
  pub retrieval_candidate : Bool

-- The dataclass defaults, over the values that the class draws when a record is made.
abbrev pub default_record : String → Time → EmberRecord
default_record id now = record {
  id = id;
  namespace = "default";
  record_type = RecordType.document;
  version = 1;
  parent_hash = none;
  content_hash = none;
  content = null;
  created_at = now;
  valid_from = none;
  valid_until = none;
  superseded_by = none;
  supersedes = none;
  deprecated = false;
  deprecated_at = none;
  deprecation_reason = none;
  deprecation_note = "";
  connections = [];
  parent_id = none;
  embedding = none;
  annotations = [];
  confidence = 0x3ff0000000000000;
  decay_rate = 0;
  access_count = 0;
  last_accessed = none;
  written_by = "system";
  origin = none;
  agent_id = none;
  session_id = none;
  creation_reason = none;
  derived_from = [];
  tags = [];
  schema_version = "1.0";
  training_candidate = false;
  retrieval_candidate = true;
}

-- `is_current`, `is_active` (at the time `now`) and `is_head`.
unfoldable pub is_current : EmberRecord → Bool
is_current r = elim r.superseded_by [ none ↦ true | some _ ↦ false ]

before_start : Time → Option Time → Bool
before_start now none = false
before_start now (some from) = ltb now from

past_end : Time → Option Time → Bool
past_end now none = false
past_end now (some until) = ltb until now

unfoldable pub is_active : Time → EmberRecord → Bool
unfolding before_start past_end
is_active now r =
    if r.deprecated
    then false
    else if before_start now r.valid_from
    then false
    else not (past_end now r.valid_until)

unfoldable pub is_head : EmberRecord → Bool
unfolding is_current
is_head r = if is_current r then not r.deprecated else false

-- What `canonical_hash_payload` collects. A key that it leaves out stands for the default.
pub record HashPayload : Type 0 where
  pub record_id : String
  pub version : ℕ
  pub parent_hash : Option String
  pub namespace : String
  pub record_type : RecordType
  pub content : Value
  pub created_at : Time
  pub valid_from : Option Time
  pub valid_until : Option Time
  pub supersedes : Option String
  pub connections : List EdgeRef
  pub parent_id : Option String
  pub embedding : Option (List Float)
  pub confidence : Float
  pub decay_rate : Float
  pub written_by : String
  pub origin : Option String
  pub tags : List String
  pub schema_version : String
  pub training_candidate : Bool
  pub retrieval_candidate : Bool
  pub agent_id : Option String
  pub session_id : Option String
  pub creation_reason : Option String
  pub derived_from : List String

unfoldable pub canonical_hash_payload : EmberRecord → HashPayload
canonical_hash_payload r = record {
  record_id = r.id;
  version = r.version;
  parent_hash = r.parent_hash;
  namespace = r.namespace;
  record_type = r.record_type;
  content = r.content;
  created_at = r.created_at;
  valid_from = r.valid_from;
  valid_until = r.valid_until;
  supersedes = r.supersedes;
  connections = r.connections;
  parent_id = r.parent_id;
  embedding = r.embedding;
  confidence = r.confidence;
  decay_rate = r.decay_rate;
  written_by = r.written_by;
  origin = r.origin;
  tags = r.tags;
  schema_version = r.schema_version;
  training_candidate = r.training_candidate;
  retrieval_candidate = r.retrieval_candidate;
  agent_id = r.agent_id;
  session_id = r.session_id;
  creation_reason = r.creation_reason;
  derived_from = r.derived_from;
}

-- The canonical bytes and their SHA-256, which the native module computes: a parameter.
pub record Hashing : Type 0 where
  pub digest : HashPayload → String

module _ ⦃h : Hashing⦄ where
  unfoldable pub compute_content_hash : EmberRecord → String
  compute_content_hash r = h.digest (canonical_hash_payload r)

  abbrev attach : EmberRecord → EmberRecord
  attach r = record r { content_hash = some (compute_content_hash r) }

  -- The sealed record, or the refusal of a hash that does not match.
  unfoldable pub seal : EmberRecord → Result EmberRecord
  seal r = elim r.content_hash [
    | none ↦ ok (attach r)
    | some old ↦ if old == compute_content_hash r then ok (attach r) else err integrity_error
  ]

  unfoldable pub verify_integrity : EmberRecord → Result Bool
  verify_integrity r = elim r.content_hash [
    | none ↦ ok false
    | some old ↦ if compute_content_hash r == old then ok true else err integrity_error
  ]
