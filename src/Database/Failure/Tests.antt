-- ===== src/Database/Failure/Tests.antt =====
-- A failed approach, reported by one agent and asked about by another.
use embers_diaries.Prelude.{
  String, true, false, some, none, [], ◌∷◌, ◌≡◌, refl, ◌⊎◌, ◌==◌, if◌then◌else◌, nat_eq, while,
}
use embers_diaries.Core.Types.{SourceType, type_value}
use embers_diaries.Core.Record.{
  EmberRecord, Time, end, seal, canonical_hash_payload, compute_content_hash, verify_integrity,
}
use embers_diaries.Core.Samples.{id_hashing}
use embers_diaries.Core.Proposal.{Evidence}
use embers_diaries.Core.Result.{Error, ok, err}
use embers_diaries.Dict
use embers_diaries.Storage
use embers_diaries.Storage.{empty_disk, Encoding, StorageLimits, WriteDraw}
use embers_diaries.Index.Master
use embers_diaries.Engine.State.{Engine, on_write, index_record}
use embers_diaries.Engine.Sound.{empty-IsSound}
use embers_diaries.Engine.Synced.{empty-IsSynced}
use embers_diaries.Engine.Writer.{
  access_count_of, get_access_stats, get_annotations, get_superseded_by, get_supersession_chain,
  chain_goes_on, chain_step, chain_walk, is_deprecated, write,
}
use embers_diaries.Engine.Reader.{
  get, get_current, get_many, get_namespace, hidden, overlay, successor, with_access,
  with_deprecated, with_successor,
}
use embers_diaries.Database.Fields.{
  required_text, IsoFormat, as_dict, get_field, of_texts, put_field, text_at, texts_at, texts_in,
  time_at, optional_at,
}
use embers_diaries.Database.Evidence.{
  EvidenceHash, seal_evidence, evidence_dict, evidence_items, evidence_of, evidence_in,
  source_value, source_of,
}
use embers_diaries.Database.Listing.{
  fold_result, all_namespaces, list_version, list_record, list_namespace,
}
use embers_diaries.Database.Session.Operations.{Spare}
use embers_diaries.Identity.Registry.{db_write, validate_provenance}
use embers_diaries.Database.Failure.Payload.{
  Failure, Phrasing, normalize_approach, approach_fingerprint, with_approach, seal_all, payload,
  from_dict, from_record, evidence_from, context_from,
}
use embers_diaries.Database.Failure.Operations.{
  ReportDraw, failure_record, is_asked_for, failures, failures_for_approach, has_failed,
  report_failure, namespaces_of, log_session,
}
use embers_diaries.Database.Failure.Repeated.{report_failure-has_failed}

-- What a run computes through.
program : Unit {0}
unfolding Storage.exists Dict.get Dict.put write seal Storage.write Storage.check_write_limits
    Storage.increment_record_count Storage.commit_write Storage.write_record_file Storage.log_write
    Storage.file_size Storage.total_size Storage.read canonical_hash_payload compute_content_hash
    verify_integrity type_value as_dict get_field of_texts put_field text_at texts_at texts_in
    time_at get get_current get_many get_namespace hidden overlay successor with_access
    with_deprecated with_successor access_count_of get_access_stats get_superseded_by
    get_supersession_chain chain_goes_on chain_step chain_walk is_deprecated get_annotations
    on_write index_record Master.index_record Master.get_namespace_ids Master.set_at Master.add_at
    Master.add_at_each Master.add_at_present Master.is_deprecated Master.is_superseded while
    from_record from_dict payload required_text fold_result all_namespaces list_version list_record
    list_namespace seal_evidence evidence_dict evidence_items evidence_of evidence_in source_value
    source_of optional_at db_write validate_provenance normalize_approach approach_fingerprint
    with_approach seal_all evidence_from context_from failure_record is_asked_for failures
    failures_for_approach has_failed report_failure namespaces_of log_session
program = tt

-- A clock with two times.
instance abbrev two_times : IsoFormat
two_times = record {
  isoformat = λ (t : Time). if nat_eq t 7 then "7" else "9";
  fromisoformat = λ (s : String). if s == "7" then ok 7 else ok 9;
}

instance abbrev unit_size : Encoding
unit_size = record { encoded_size = λ (r : EmberRecord). 10 }

instance abbrev by_reference : EvidenceHash
by_reference = record { evidence_hash = λ (e : Evidence). e.reference }

-- Two spellings of one approach.
instance abbrev two_spellings : Phrasing
two_spellings = record {
  strip = λ (s : String). s;
  lower = λ (s : String). if s == "Retry" then "retry" else s;
  collapse = λ (s : String). s;
  trim = λ (s : String). s;
  approach_hash = λ (n a : String). a;
}

abbrev unlimited : StorageLimits
unlimited = record { max_store_bytes = 0; max_record_bytes = 0 }

abbrev spare : Spare
spare = record { spare_id = "spare"; spare_time = 9 }

abbrev blank : Engine
blank = record { disk = empty_disk; index = Master.empty }

abbrev report : ReportDraw
report = record {
  recorded = 7;
  write_draw = record { wal_id = "w"; now = 7 };
  session_draw = record { new_id = "n"; write_draw = record { wal_id = "w"; now = 7 } };
}

abbrev trace : Evidence
trace = record {
  evidence_id = "e";
  source = "log";
  source_type = SourceType.reported;
  reference = "log:3";
  description = "";
  observed_at = 7;
  agent_id = none;
  session_id = none;
  content_hash = none;
}

abbrev retry : Failure
retry = record {
  failure_id = "f";
  namespace = "default";
  approach = "Retry";
  failed = "the call";
  cause = "the quota";
  evidence = trace ∷ [];
  agent_id = "ada";
  session_id = none;
  occurred_at = 7;
  context = end;
  promoted_to = none;
  tags = "net" ∷ [];
}

abbrev reported : Engine
reported = (report_failure true unlimited spare report retry blank).1

first_report : report_failure true unlimited spare report retry blank ≡ (ok "f", reported)
unfolding program
first_report = refl

asked_everywhere : has_failed spare "retry" none reported ≡ ok true
unfolding program
asked_everywhere = refl

asked_about_another : has_failed spare "wait" none reported ≡ ok false
unfolding program
asked_about_another = refl

asked_elsewhere : has_failed spare "retry" (some "other") reported ≡ ok false
unfolding program
asked_elsewhere = refl

report_failure-has_failed_example :
    has_failed spare "retry" none reported ≡ ok true
    ⊎ ((w : Error) × (has_failed spare "retry" none reported ≡ err w))
unfolding program
report_failure-has_failed_example =
    report_failure-has_failed spare unlimited true report retry "f" blank reported refl
      empty-IsSound empty-IsSynced refl refl (refl, refl) ((refl, refl), tt) refl "retry" none refl
      tt
