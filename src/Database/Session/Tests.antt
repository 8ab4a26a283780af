-- ===== src/Database/Session/Tests.antt =====
-- Runs of the session operations: the theorems at concrete calls.
use embers_diaries.Prelude.{
  inr, String, true, none, some, [], ◌∷◌, ◌≡◌, ◌≢◌, refl, ◌==◌, if◌then◌else◌, nat_eq, while,
}
use embers_diaries.Core.Types.{RecordType, SessionStatus, type_value}
use embers_diaries.Core.Record.{
  EmberRecord, Time, default_record, seal, canonical_hash_payload, compute_content_hash,
  verify_integrity,
}
use embers_diaries.Core.Samples.{id_hashing}
use embers_diaries.Core.Result.{value_error, permission_error, ok, err}
use embers_diaries.Dict
use embers_diaries.Storage
use embers_diaries.Engine.Writer.{
  access_count_of, get_access_stats, get_superseded_by, get_supersession_chain, chain_goes_on,
  chain_step, chain_walk, is_deprecated, mark_superseded, new_version, hash_of, resolve_target,
  supersede, update, write,
}
use embers_diaries.Engine.Reader.{
  get_current, get, hidden, overlay, successor, with_access, with_deprecated, with_successor,
}
use embers_diaries.Identity.Registry.{TokenDigest}
use embers_diaries.Identity.Gate.{resolve_agent}
use embers_diaries.Identity.Closed.{end_session-resolve_agent}
use embers_diaries.Database.Fields.{
  as_dict, get_field, of_texts, put_field, text_at, texts_at, texts_in, time_at,
}
use embers_diaries.Storage.{empty_disk, Encoding, StorageLimits, WriteDraw}
use embers_diaries.Index.Master
use embers_diaries.Engine.State.{Engine, UpdateDraw, on_write}
use embers_diaries.Engine.Operations.{write_op, run_ops, apply_op}
use embers_diaries.Engine.Sound.{IsSound, run_ops-IsSound, empty-IsSound}
use embers_diaries.Database.Fields.{IsoFormat}
use embers_diaries.Database.Session.Payload.{
  Session, payload, is_open, from_record, from_dict, status_of, status_value,
  validate_session_activity, validate_session_transition,
}
use embers_diaries.Database.Session.Operations.{
  Spare, get_session, require_session, update_session, log_in_session, record_discovery,
  record_failure, record_memory_write, end_session,
}
use embers_diaries.Database.Session.Lifecycle.{
  record_discovery-get_session, end_session-closed_session, closed_session,
}

-- A digest that is its token.
instance abbrev open_token : TokenDigest
open_token = record { hash_token = λ (s : String). s }

-- A clock with two times.
instance abbrev two_times : IsoFormat
two_times = record {
  isoformat = λ (t : Time). if nat_eq t 7 then "7" else "9";
  fromisoformat = λ (s : String). if s == "7" then ok 7 else ok 9;
}

instance abbrev unit_size : Encoding
unit_size = record { encoded_size = λ (r : EmberRecord). 10 }

abbrev unlimited : StorageLimits
unlimited = record { max_store_bytes = 0; max_record_bytes = 0 }

abbrev draw : String → WriteDraw
draw w = record { wal_id = w; now = 7 }

abbrev draw_update : String → UpdateDraw
draw_update id = record { new_id = id; write_draw = draw id }

abbrev blank : Engine
blank = record { disk = empty_disk; index = Master.empty }

abbrev spare : Spare
spare = record { spare_id = "spare"; spare_time = 9 }

abbrev work : Session
work = record {
  session_id = "s";
  namespace = "default";
  agent_id = "ada";
  started_at = 7;
  ended_at = none;
  task = "look";
  status = SessionStatus.active;
  summary = "";
  discoveries = [];
  failures = [];
  memory_writes = [];
  tags = [];
}

abbrev work_record : EmberRecord
work_record = record (default_record "s" 7) {
  record_type = RecordType.session;
  content = payload work;
  tags = "session" ∷ [];
}

abbrev started : Engine
started = run_ops unlimited (write_op (draw "s") work_record ∷ []) blank

abbrev started-IsSound : IsSound started.disk
started-IsSound =
    run_ops-IsSound unlimited (write_op (draw "s") work_record ∷ []) blank (tt, tt) empty-IsSound

abbrev logged : Engine
logged = (record_discovery unlimited spare (draw_update "b") "s" "found" "ada" started).1

record_discovery-get_session_example :
    (is_open work ≡ true)
    × IsSound logged.disk
    × (get_session spare "s" logged
        ≡ (ok (some (record work { discoveries = "found" ∷ [] })), logged))
unfolding Storage.exists Dict.get run_ops apply_op write seal Storage.write
    Storage.check_write_limits Storage.increment_record_count Storage.commit_write
    Storage.write_record_file Storage.log_write Dict.put get_session get_current get Storage.read
    canonical_hash_payload compute_content_hash verify_integrity type_value as_dict get_field
    of_texts put_field text_at texts_at texts_in time_at from_dict from_record status_of
    status_value hidden overlay successor with_access with_deprecated with_successor on_write
    access_count_of get_access_stats get_superseded_by get_supersession_chain chain_goes_on
    chain_step chain_walk is_deprecated mark_superseded new_version hash_of resolve_target supersede
    update while Storage.file_size Storage.total_size payload require_session update_session
    log_in_session validate_session_activity validate_session_transition record_discovery
    end_session
record_discovery-get_session_example =
    record_discovery-get_session unlimited spare (draw_update "b") "s" "found" "ada" "b" work
      started logged started-IsSound refl ((refl, refl), tt) refl refl refl

abbrev finished : Engine
finished =
    (end_session unlimited spare (draw_update "c") 9 "s" "done" SessionStatus.completed "ada"
      started).1

end_session-closed_session_example :
    (is_open work ≡ true)
    × IsSound finished.disk
    × (SessionStatus.completed ≢ SessionStatus.active)
    × (get_session spare "s" finished
        ≡ (ok (some (closed_session work 9 "done" SessionStatus.completed)), finished))
    × ((v : UpdateDraw) (entry by : String)
        → (record_discovery unlimited spare v "s" entry by finished ≡ (err value_error, finished))
          × (record_failure unlimited spare v "s" entry by finished ≡ (err value_error, finished))
          × (record_memory_write unlimited spare v "s" entry by finished
              ≡ (err value_error, finished)))
    × ((v : UpdateDraw) (later : Time) (text by : String) (next : SessionStatus)
        → end_session unlimited spare v later "s" text next by finished
          ≡ (err value_error, finished))
unfolding Storage.exists Dict.get run_ops apply_op write seal Storage.write
    Storage.check_write_limits Storage.increment_record_count Storage.commit_write
    Storage.write_record_file Storage.log_write Dict.put get_session get_current get Storage.read
    canonical_hash_payload compute_content_hash verify_integrity type_value as_dict get_field
    of_texts put_field text_at texts_at texts_in time_at from_dict from_record status_of
    status_value hidden overlay successor with_access with_deprecated with_successor on_write
    access_count_of get_access_stats get_superseded_by get_supersession_chain chain_goes_on
    chain_step chain_walk is_deprecated mark_superseded new_version hash_of resolve_target supersede
    update while Storage.file_size Storage.total_size payload require_session update_session
    log_in_session validate_session_activity validate_session_transition record_discovery
    end_session
end_session-closed_session_example =
    end_session-closed_session unlimited spare (draw_update "c") 9 "s" "done" "ada" "c"
      SessionStatus.completed work started finished started-IsSound refl
      ((refl, refl), (refl, refl)) refl refl refl

end_session-resolve_agent_example :
    resolve_agent spare (some "s") none none (some "") finished ≡ (err permission_error, finished)
unfolding Storage.exists Dict.get run_ops apply_op write seal Storage.write
    Storage.check_write_limits Storage.increment_record_count Storage.commit_write
    Storage.write_record_file Storage.log_write Dict.put get_session get_current get Storage.read
    canonical_hash_payload compute_content_hash verify_integrity type_value as_dict get_field
    of_texts put_field text_at texts_at texts_in time_at from_dict from_record status_of
    status_value hidden overlay successor with_access with_deprecated with_successor on_write
    access_count_of get_access_stats get_superseded_by get_supersession_chain chain_goes_on
    chain_step chain_walk is_deprecated mark_superseded new_version hash_of resolve_target supersede
    update while Storage.file_size Storage.total_size payload require_session update_session
    log_in_session validate_session_activity validate_session_transition record_discovery
    end_session
end_session-resolve_agent_example =
    end_session-resolve_agent unlimited spare (draw_update "c") 9 "s" "done" "ada" "c"
      SessionStatus.completed work started finished started-IsSound refl
      ((refl, refl), (refl, refl)) refl refl refl refl (some "s") none none (some "") refl
      (inr (refl, refl))
