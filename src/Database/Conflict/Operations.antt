-- ===== src/Database/Conflict/Operations.antt =====
-- `get_conflict`, `update_conflict_status` and `resolve_conflict` of embers/db.py. The registry of
-- namespaces, which they only read, is an argument; so is what reading a conflict draws.
use embers_diaries.Prelude.{
  String, Bool, true, false, Option, none, some, [], ◌==◌, not, if◌then◌else◌, get_or,
}
use embers_diaries.Core.Types.{RecordType, ConflictStatus}
use embers_diaries.Core.Record.{EmberRecord, Fields, Hashing, text, dict}
use embers_diaries.Core.Result.{
  key_error, access_denied, Result, ok, err, Exec, lift, require, raise_if, ◌>>=◌, ◌>>◌,
}
use embers_diaries.Storage.{Disk, Encoding, StorageLimits}
use embers_diaries.Engine.State.{Engine, UpdateDraw}
use embers_diaries.Engine.Writer.{update, UpdateArgs}
use embers_diaries.Engine.Reader.{get, get_current}
use embers_diaries.Namespace.{Manager, check_read, check_write}
use embers_diaries.Database.Fields.{put_field, IsoFormat}
use embers_diaries.Database.Versions.{is_of_type}
use embers_diaries.Database.Session.Operations.{Spare}
use embers_diaries.Database.Conflict.Payload.{
  Conflict, PairHash, status_value, validate_conflict_transition, payload, from_record,
}
use embers_diaries.Lobby.Store.{TextMethods}

abbrev pub transition_reason : ConflictStatus → String
transition_reason ConflictStatus.open_conflict = "conflict → open"
transition_reason ConflictStatus.investigating = "conflict → investigating"
transition_reason ConflictStatus.resolved = "conflict → resolved"
transition_reason ConflictStatus.accepted_both = "conflict → accepted_both"
transition_reason ConflictStatus.superseded = "conflict → superseded"

abbrev pub transition_args : String → ConflictStatus → UpdateArgs
transition_args changed_by status = record {
  written_by = changed_by;
  agent_id = some changed_by;
  session_id = none;
  creation_reason = some (transition_reason status);
  derived_from = [];
  expected_hash = none;
}

-- The payload that a transition writes.
abbrev pub changed : Fields → ConflictStatus → String → Option String → Fields
changed d status resolution winner =
    let moved = put_field d "status" (text (status_value status)) in
    let noted =
      if resolution == "" then moved else put_field moved "resolution" (text resolution) in
    put_field noted "winner_id" (text (get_or winner ""))

module _ ⦃h : Hashing⦄ ⦃i : IsoFormat⦄ (m : Manager) where
  found_conflict : Spare → Option String → Option EmberRecord → Result (Option Conflict)
  found_conflict d caller none = ok none
  found_conflict d caller (some r) =
      if not (is_of_type RecordType.conflict r)
      then ok none
      else if hidden_from caller r
      then err access_denied
      else (elim (from_record d.spare_id d.spare_time r) [ ok c ↦ ok (some c) | err e ↦ err e ])
    where
      hidden_from : Option String → EmberRecord → Bool
      hidden_from none r = false
      hidden_from (some who) r = not (check_read m r.namespace who)

  any_version : Disk → String → Option EmberRecord → Result (Option EmberRecord)
  any_version disk id none = get disk true true id
  any_version disk id (some r) = ok (some r)

  -- `get_conflict`
  unfoldable pub get_conflict : Spare → String → Option String → Exec Engine (Option Conflict)
  unfolding found_conflict any_version
  get_conflict d id caller = do
    current ← (λ s. (get_current s.disk id, s))
    found ← (λ s. (any_version s.disk id current, s))
    lift (found_conflict d caller found)

  module _ ⦃p : PairHash⦄ ⦃t : TextMethods⦄ ⦃c : Encoding⦄ (limits : StorageLimits) where
    -- `update_conflict_status`
    unfoldable pub update_conflict_status :
        Spare
        → UpdateDraw
        → String
        → ConflictStatus
        → String
        → String
        → Option String
        → Exec Engine (String × String)
    update_conflict_status d u id status resolution changed_by winner = do
      found ← (λ s. (get_current s.disk id, s))
      head ← require found key_error
      raise_if (not (is_of_type RecordType.conflict head)) key_error
      conflict ← lift (from_record d.spare_id d.spare_time head)
      raise_if (not (check_read m head.namespace changed_by)) access_denied
      raise_if (not (check_write m head.namespace changed_by)) access_denied
      lift (
          validate_conflict_transition (status_value conflict.status) (status_value status)
            resolution winner conflict.memory_a conflict.memory_b)
      update limits u head.id (dict (changed (payload conflict) status resolution winner))
          (transition_args changed_by status)

    -- `resolve_conflict`
    unfoldable pub resolve_conflict :
        Spare → UpdateDraw → String → String → String → Exec Engine (String × String)
    resolve_conflict d u id resolution changed_by =
        update_conflict_status d u id ConflictStatus.resolved resolution changed_by none
