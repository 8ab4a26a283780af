-- ===== src/Database/Conflict/Payload.antt =====
-- embers/core/conflict.py: the conflict and its payload, and the validator of its status in
-- rust/ember_core/src/lib.rs.
use embers_diaries.Prelude.{
  String, Bool, false, Option, none, some, List, ◌==◌, ◌||◌, ◌&&◌, if◌then◌else◌, not, select,
  get_or, is_lt, compare_text,
}
use embers_diaries.Core.Types.{ConflictStatus}
use embers_diaries.Core.Record.{EmberRecord, Fields, Time, text, list, end, field}
use embers_diaries.Core.Result.{value_error, Result, ok, err}
use embers_diaries.Engine.Reader.{◌>>=◌}
use embers_diaries.Database.Fields.{
  required_text, put_field, as_dict, text_at, texts_at, of_texts, IsoFormat, time_at, of_time,
}
use embers_diaries.Lobby.Store.{TextMethods}

pub data ConflictType : Type 0 where
  semantic storage : ConflictType

pub record Conflict : Type 0 where
  pub conflict_id : String
  pub namespace : String
  pub memory_a : String
  pub memory_b : String
  pub conflict_type : ConflictType
  pub detected_at : Time
  pub detected_by : String
  pub status : ConflictStatus
  pub resolution : String
  pub winner_id : String
  pub note : String
  pub tags : List String

-- `content_hash` of the pair, its namespace and its type: canonical JSON and SHA-256.
pub record PairHash : Type 0 where
  pub pair_hash : String → String → String → String → String

unfoldable pub kind_value : ConflictType → String
kind_value ConflictType.semantic = "semantic"
kind_value ConflictType.storage = "storage"

unfoldable pub kind_of : String → Result ConflictType
kind_of s =
    if s == "semantic"
    then ok ConflictType.semantic
    else if s == "storage"
    then ok ConflictType.storage
    else err value_error

unfoldable pub status_value : ConflictStatus → String
status_value ConflictStatus.open_conflict = "open"
status_value ConflictStatus.investigating = "investigating"
status_value ConflictStatus.resolved = "resolved"
status_value ConflictStatus.accepted_both = "accepted_both"
status_value ConflictStatus.superseded = "superseded"

unfoldable pub status_of : String → Result ConflictStatus
status_of s =
    if s == "open"
    then ok ConflictStatus.open_conflict
    else if s == "investigating"
    then ok ConflictStatus.investigating
    else if s == "resolved"
    then ok ConflictStatus.resolved
    else if s == "accepted_both"
    then ok ConflictStatus.accepted_both
    else if s == "superseded"
    then ok ConflictStatus.superseded
    else err value_error

-- `__post_init__`
unfoldable pub ordered : Conflict → Result Conflict
ordered c =
    if c.memory_a == c.memory_b
    then err value_error
    else if is_lt (compare_text c.memory_b c.memory_a)
    then ok (record c { memory_a = c.memory_b; memory_b = c.memory_a })
    else ok c

-- `validate_conflict_transition`
abbrev pub is_terminal : String → Bool
is_terminal status =
    (status == "resolved") || (status == "accepted_both") || (status == "superseded")

abbrev is_wrong_winner : String → String → String → Option String → Bool
is_wrong_winner target a b none = false
is_wrong_winner target a b (some winner) =
    not (target == "resolved") || (not (winner == a) && not (winner == b))

unfoldable pub validate_conflict_transition :
    ⦃t : TextMethods⦄
    → String
    → String
    → String
    → Option String
    → String
    → String
    → Result (Unit {0})
validate_conflict_transition ⦃t = t⦄ current target resolution winner a b =
    if is_terminal current
    then err value_error
    else if not (target == "investigating") && not (is_terminal target)
    then err value_error
    else if is_terminal target && (t.strip resolution == "")
    then err value_error
    else if is_wrong_winner target a b winner
    then err value_error
    else ok tt

module _ ⦃i : IsoFormat⦄ ⦃p : PairHash⦄ where
  -- `to_record_payload`
  unfoldable pub payload : Conflict → Fields
  payload c = field "conflict_id" (text c.conflict_id) (
      field "memory_a" (text c.memory_a) (
        field "memory_b" (text c.memory_b) (
          field "conflict_type" (text (kind_value c.conflict_type)) (
            field "detected_at" (of_time (some c.detected_at)) (
              field "detected_by" (text c.detected_by) (
                field "status" (text (status_value c.status)) (
                  field "resolution" (text c.resolution) (
                    field "winner_id" (text c.winner_id) (
                      field "note" (text c.note) (
                        field "pair_fingerprint"
                          (text (
                            p.pair_hash c.namespace c.memory_a c.memory_b
                              (kind_value c.conflict_type)))
                          end))))))))))

module _ ⦃i : IsoFormat⦄ where
  -- `Conflict.from_dict`, with the id and the time that it draws for missing keys.
  unfoldable pub from_dict : String → Time → Fields → Result Conflict
  from_dict fresh now d = do
    conflict_id ← text_at d "conflict_id" fresh
    namespace ← text_at d "namespace" "default"
    memory_a ← required_text d "memory_a"
    memory_b ← required_text d "memory_b"
    kind_text ← text_at d "conflict_type" "semantic"
    kind ← kind_of kind_text
    detected_at ← time_at d "detected_at" (some now)
    detected_by ← text_at d "detected_by" "system"
    status_text ← text_at d "status" "open"
    status ← status_of status_text
    resolution ← text_at d "resolution" ""
    winner_id ← text_at d "winner_id" ""
    note ← text_at d "note" ""
    tags ← texts_at d "tags"
    ordered (record {
      conflict_id = conflict_id;
      namespace = namespace;
      memory_a = memory_a;
      memory_b = memory_b;
      conflict_type = kind;
      detected_at = get_or detected_at now;
      detected_by = detected_by;
      status = status;
      resolution = resolution;
      winner_id = winner_id;
      note = note;
      tags = tags;
    })

  -- `_conflict_from_record`
  unfoldable pub from_record : String → Time → EmberRecord → Result Conflict
  from_record fresh now r = do
    data_ ← as_dict r.content
    from_dict fresh now (
        put_field (put_field data_ "namespace" (text r.namespace)) "tags"
          (list (of_texts (select (λ t. not (t == "conflict")) r.tags))))
