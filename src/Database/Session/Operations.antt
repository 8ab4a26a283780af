-- ===== src/Database/Session/Operations.antt =====
-- The session operations of embers/db.py. What an operation draws from outside are arguments: the
-- draws of its write, and those of `Session.from_dict` for keys that are missing.
use embers_diaries.Prelude.{
  String, true, Option, none, some, [], ◌∷◌, ◌++◌, ◌==◌, if◌then◌else◌, not, add,
}
use embers_diaries.Core.Types.{RecordType, SessionStatus}
use embers_diaries.Core.Record.{EmberRecord, Time, default_record, Hashing}
use embers_diaries.Core.Result.{
  key_error, Result, ok, err, Exec, pure, lift, require, raise_if, ◌>>=◌, ◌>>◌,
}
use embers_diaries.Storage.{Disk, Encoding, StorageLimits, WriteDraw}
use embers_diaries.Engine.State.{Engine, UpdateDraw}
use embers_diaries.Engine.Writer.{write, update, UpdateArgs}
use embers_diaries.Engine.Reader.{get, get_current}
use embers_diaries.Database.Fields.{IsoFormat}
use embers_diaries.Database.Versions.{is_of_type}
use embers_diaries.Database.Session.Payload.{
  Session, status_value, validate_session_activity, validate_session_transition, payload,
  from_record,
}

-- What reading a session draws: an id and a time for a payload without them.
pub record Spare : Type 0 where
  pub spare_id : String
  pub spare_time : Time

abbrev pub revision : String → String → UpdateArgs
revision changed_by reason = record {
  written_by = changed_by;
  agent_id = none;
  session_id = none;
  creation_reason = some reason;
  derived_from = [];
  expected_hash = none;
}

abbrev pub closing_reason : SessionStatus → String
closing_reason SessionStatus.active = "session → active"
closing_reason SessionStatus.completed = "session → completed"
closing_reason SessionStatus.abandoned = "session → abandoned"

module _ ⦃h : Hashing⦄ ⦃i : IsoFormat⦄ where
  found_session : Spare → Option EmberRecord → Result (Option Session)
  found_session d none = ok none
  found_session d (some r) =
      if is_of_type RecordType.session r
      then (elim (from_record d.spare_id d.spare_time r) [ ok x ↦ ok (some x) | err e ↦ err e ])
      else ok none

  any_version : Disk → String → Option EmberRecord → Result (Option EmberRecord)
  any_version d id none = get d true true id
  any_version d id (some r) = ok (some r)

  -- `get_session`
  unfoldable pub get_session : Spare → String → Exec Engine (Option Session)
  unfolding found_session any_version
  get_session d id = do
    current ← (λ s. (get_current s.disk id, s))
    found ← (λ s. (any_version s.disk id current, s))
    lift (found_session d found)

  -- `_require_session`
  unfoldable pub require_session : Spare → String → Exec Engine Session
  require_session d id = do found ← get_session d id; require found key_error

  module _ ⦃c : Encoding⦄ (limits : StorageLimits) where
    -- `start_session`; the session's id and start are drawn by the caller of the class.
    unfoldable pub start_session :
        WriteDraw → Time → String → String → String → String → Exec Engine String
    start_session w now agent_id task namespace session_id =
        let session : Session = record {
          session_id = session_id;
          namespace = namespace;
          agent_id = agent_id;
          started_at = now;
          ended_at = none;
          task = task;
          status = SessionStatus.active;
          summary = "";
          discoveries = [];
          failures = [];
          memory_writes = [];
          tags = [];
        } in
        write limits w (record (default_record session_id now) {
          namespace = namespace;
          record_type = RecordType.session;
          content = payload session;
          written_by = agent_id;
          agent_id = some agent_id;
          session_id = some session_id;
          creation_reason = some "session started";
          tags = session.tags ++ "session" ∷ [];
        })

    -- `_update_session`
    unfoldable pub update_session : UpdateDraw → Session → String → String → Exec Engine String
    update_session u session changed_by reason = do
      found ← (λ s. (get_current s.disk session.session_id, s))
      head ← require found key_error
      raise_if (not (is_of_type RecordType.session head)) key_error
      ids ← update limits u head.id (payload session) (revision changed_by reason)
      pure ids.0

    -- What `record_discovery`, `record_failure` and `record_memory_write` share.
    unfoldable pub log_in_session :
        Spare → UpdateDraw → String → (Session → Session) → String → String → Exec Engine String
    log_in_session d u id change changed_by reason = do
      session ← require_session d id
      lift (validate_session_activity (status_value session.status))
      update_session u (change session) changed_by reason

    unfoldable pub record_discovery :
        Spare → UpdateDraw → String → String → String → Exec Engine String
    unfolding log_in_session
    record_discovery d u id discovery_id changed_by =
        log_in_session d u id
          (λ (x : Session). record x { discoveries = add discovery_id x.discoveries }) changed_by
          "session discovery logged"

    unfoldable pub record_failure :
        Spare → UpdateDraw → String → String → String → Exec Engine String
    unfolding log_in_session
    record_failure d u id failure_id changed_by =
        log_in_session d u id (λ (x : Session). record x { failures = add failure_id x.failures })
          changed_by "session failure logged"

    unfoldable pub record_memory_write :
        Spare → UpdateDraw → String → String → String → Exec Engine String
    unfolding log_in_session
    record_memory_write d u id memory_id changed_by =
        log_in_session d u id
          (λ (x : Session). record x { memory_writes = add memory_id x.memory_writes }) changed_by
          "session memory write logged"

    -- `end_session`
    unfoldable pub end_session :
        Spare → UpdateDraw → Time → String → String → SessionStatus → String → Exec Engine String
    end_session d u now id summary status changed_by = do
      session ← require_session d id
      lift (validate_session_transition (status_value session.status) (status_value status))
      update_session u
          (record session {
            status = status;
            ended_at = some now;
            summary = if summary == "" then session.summary else summary;
          })
          changed_by (closing_reason status)
