-- ===== src/Database/Session/Payload.antt =====
-- embers/core/session.py: the session and its payload, and the validators of sessions in
-- rust/ember_core/src/lib.rs.
use embers_diaries.Prelude.{
  String, Bool, Option, none, some, List, ◌==◌, ◌||◌, if◌then◌else◌, not, select, get_or,
}
use embers_diaries.Core.Types.{SessionStatus}
use embers_diaries.Core.Record.{EmberRecord, Value, Fields, Time, text, list, dict, end, field}
use embers_diaries.Core.Result.{value_error, Result, ok, err}
use embers_diaries.Engine.Reader.{◌>>=◌}
use embers_diaries.Database.Fields.{
  put_field, as_dict, text_at, texts_at, of_texts, IsoFormat, time_at, of_time,
}

pub record Session : Type 0 where
  pub session_id : String
  pub namespace : String
  pub agent_id : String
  pub started_at : Time
  pub ended_at : Option Time
  pub task : String
  pub status : SessionStatus
  pub summary : String
  pub discoveries : List String
  pub failures : List String
  pub memory_writes : List String
  pub tags : List String

-- `SessionStatus(value)` and `status.value`.
unfoldable pub status_value : SessionStatus → String
status_value SessionStatus.active = "active"
status_value SessionStatus.completed = "completed"
status_value SessionStatus.abandoned = "abandoned"

unfoldable pub status_of : String → Result SessionStatus
status_of s =
    if s == "active"
    then ok SessionStatus.active
    else if s == "completed"
    then ok SessionStatus.completed
    else if s == "abandoned"
    then ok SessionStatus.abandoned
    else err value_error

-- `is_open`
unfoldable pub is_open : Session → Bool
is_open s = status_value s.status == "active"

-- The validators.
unfoldable pub validate_session_activity : String → Result (Unit {0})
validate_session_activity current = if not (current == "active") then err value_error else ok tt

unfoldable pub validate_session_transition : String → String → Result (Unit {0})
validate_session_transition current target =
    if not (current == "active")
    then err value_error
    else if not ((target == "completed") || (target == "abandoned"))
    then err value_error
    else ok tt

module _ ⦃i : IsoFormat⦄ where
  -- `to_record_payload`
  unfoldable pub payload : Session → Value
  payload s = dict (
      field "session_id" (text s.session_id) (
        field "agent_id" (text s.agent_id) (
          field "started_at" (of_time (some s.started_at)) (
            field "ended_at" (of_time s.ended_at) (
              field "task" (text s.task) (
                field "status" (text (status_value s.status)) (
                  field "summary" (text s.summary) (
                    field "discoveries" (list (of_texts s.discoveries)) (
                      field "failures" (list (of_texts s.failures))
                        (field "memory_writes" (list (of_texts s.memory_writes)) end))))))))))

  -- `Session.from_dict`, with the id and the time that it draws for missing keys.
  unfoldable pub from_dict : String → Time → Fields → Result Session
  from_dict fresh now d = do
    session_id ← text_at d "session_id" fresh
    namespace ← text_at d "namespace" "default"
    agent_id ← text_at d "agent_id" "system"
    started_at ← time_at d "started_at" (some now)
    ended_at ← time_at d "ended_at" none
    task ← text_at d "task" ""
    status_text ← text_at d "status" "active"
    status ← status_of status_text
    summary ← text_at d "summary" ""
    discoveries ← texts_at d "discoveries"
    failures ← texts_at d "failures"
    memory_writes ← texts_at d "memory_writes"
    tags ← texts_at d "tags"
    ok (record {
      session_id = session_id;
      namespace = namespace;
      agent_id = agent_id;
      started_at = get_or started_at now;
      ended_at = ended_at;
      task = task;
      status = status;
      summary = summary;
      discoveries = discoveries;
      failures = failures;
      memory_writes = memory_writes;
      tags = tags;
    })

  -- `_session_from_record`
  unfoldable pub from_record : String → Time → EmberRecord → Result Session
  from_record fresh now r = do
    data_ ← as_dict r.content
    from_dict fresh now (
        put_field (put_field data_ "namespace" (text r.namespace)) "tags"
          (list (of_texts (select (λ t. not (t == "session")) r.tags))))
