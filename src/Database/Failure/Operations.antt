-- ===== src/Database/Failure/Operations.antt =====
-- `report_failure`, `get_failure`, `failures`, `failures_for_approach` and `has_failed` of embers/db.py.
-- What an operation draws from outside is an argument of it.
use Prim.Native.String.{◌++◌ as append_text}
use embers_diaries.Prelude.{
  String, Bool, true, false, Option, none, some, List, [], ◌∷◌, ◌++◌, ◌==◌, ◌&&◌, if◌then◌else◌,
  is_some, select,
}
use embers_diaries.Core.Types.{RecordType}
use embers_diaries.Core.Record.{EmberRecord, Time, Hashing, default_record, dict}
use embers_diaries.Core.Result.{Result, ok, err, Exec, pure, lift, ◌>>=◌}
use embers_diaries.Storage.{Disk, Encoding, StorageLimits, WriteDraw}
use embers_diaries.Engine.State.{Engine, UpdateDraw}
use embers_diaries.Engine.Reader.{get, get_current}
use embers_diaries.Engine.Reader
use embers_diaries.Database.Fields.{IsoFormat}
use embers_diaries.Database.Evidence.{EvidenceHash}
use embers_diaries.Database.Versions.{is_of_type}
use embers_diaries.Database.Listing.{nothing_listed, fold_result, all_namespaces, list_namespace}
use embers_diaries.Database.Session.Operations.{Spare, get_session, record_failure}
use embers_diaries.Database.Failure.Payload.{
  Failure, Phrasing, normalize_approach, seal_all, payload, from_record,
}
use embers_diaries.Identity.Registry.{db_write}

-- What reporting a failure draws: the clock of its record, its write, and the revision of its session.
pub record ReportDraw : Type 0 where
  pub recorded : Time
  pub write_draw : WriteDraw
  pub session_draw : UpdateDraw

-- `wanted is None or f.field == wanted`
abbrev is_wanted : Option String → Option String → Bool
is_wanted none value = true
is_wanted (some wanted) none = false
is_wanted (some wanted) (some value) = value == wanted

module _ ⦃h : Hashing⦄ ⦃i : IsoFormat⦄ ⦃p : Phrasing⦄ where
  found_failure : Spare → Option EmberRecord → Result (Option Failure)
  found_failure d none = ok none
  found_failure d (some r) =
      if is_of_type RecordType.failure r
      then (elim (from_record d.spare_id d.spare_time r) [ ok f ↦ ok (some f) | err e ↦ err e ])
      else ok none

  any_version : Disk → String → Option EmberRecord → Result (Option EmberRecord)
  any_version disk id none = get disk true true id
  any_version disk id (some r) = ok (some r)

  -- `get_failure`
  unfoldable pub get_failure : Spare → String → Exec Engine (Option Failure)
  unfolding found_failure any_version
  get_failure d id = do
    current ← (λ s. (get_current s.disk id, s))
    found ← (λ s. (any_version s.disk id current, s))
    lift (found_failure d found)

  -- The record of a failure.
  unfoldable pub failure_record : Time → Failure → EmberRecord
  failure_record recorded f = record (default_record f.failure_id recorded) {
    namespace = f.namespace;
    record_type = RecordType.failure;
    content = dict (payload f);
    written_by = f.agent_id;
    agent_id = some f.agent_id;
    session_id = f.session_id;
    creation_reason = some (append_text "failed approach: " f.approach);
    tags = f.tags ++ "failure" ∷ [];
  }

  unfoldable pub namespaces_of : Disk → Option String → Result (List String)
  namespaces_of disk none = all_namespaces disk
  namespaces_of disk (some namespace) = ok (namespace ∷ [])

  -- The filters of `failures`.
  unfoldable pub is_asked_for : Option String → Option String → Bool → Failure → Bool
  is_asked_for agent_id session_id promoted_only f =
      is_wanted agent_id (some f.agent_id)
      && is_wanted session_id f.session_id
      && (if promoted_only then is_some f.promoted_to else true)

  -- `failures`
  unfoldable pub failures :
      Spare → Option String → Option String → Option String → Bool → Engine → Result (List Failure)
  unfolding namespaces_of
  failures d namespace agent_id session_id promoted_only s =
      Reader.◌>>=◌ (namespaces_of s.disk namespace) λ namespaces.
        Reader.◌>>=◌
          (fold_result
            (list_namespace s.disk RecordType.failure (from_record d.spare_id d.spare_time)
              (is_asked_for agent_id session_id promoted_only) s.index)
            namespaces nothing_listed)
          λ l. ok l.out

  -- `Failure.normalize_approach(f.approach) == probe`
  abbrev pub is_repeat : String → Failure → Bool
  is_repeat approach f = normalize_approach f.approach == normalize_approach approach

  -- `failures_for_approach` and `has_failed`
  unfoldable pub failures_for_approach :
      Spare → String → Option String → Engine → Result (List Failure)
  failures_for_approach d approach namespace s =
      Reader.◌>>=◌ (failures d namespace none none false s)
        λ fs. ok (select (is_repeat approach) fs)

  unfoldable pub has_failed : Spare → String → Option String → Engine → Result Bool
  has_failed d approach namespace s =
      Reader.◌>>=◌ (failures_for_approach d approach namespace s)
        λ fs. ok (elim fs [ [] ↦ false | f ∷ rest ↦ true ])

  module _ ⦃c : Encoding⦄ (enforce : Bool) (limits : StorageLimits) where
    -- The session's own account, where it is the record of a session.
    unfoldable pub log_session :
        Spare → UpdateDraw → Failure → String → Option String → Exec Engine String
    log_session d u f id none = pure id
    log_session d u f id (some session_id) = if session_id == "" then pure id else do
      found ← get_session d session_id
      (elim found [
        | none ↦ pure id
        | some session ↦ do logged ← record_failure limits d u session_id id f.agent_id; pure id
      ])

    -- `report_failure`
    unfoldable pub report_failure :
        ⦃e : EvidenceHash⦄ → Spare → ReportDraw → Failure → Exec Engine String
    unfolding log_session
    report_failure d u failure = do
      let f = seal_all failure
      id ← db_write enforce limits u.write_draw (failure_record u.recorded f)
      log_session d u.session_draw f id f.session_id
