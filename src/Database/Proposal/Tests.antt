-- ===== src/Database/Proposal/Tests.antt =====
-- A proposal, recorded and rejected, and a memory whose status is set.
use embers_diaries.Prelude.{
  String, true, some, none, [], ◌∷◌, ◌≡◌, refl, ◌==◌, if◌then◌else◌, nat_eq, while,
}
use embers_diaries.Core.Types.{SourceType, MemoryStatus, ProposalStatus, type_value}
use embers_diaries.Core.Record.{
  EmberRecord, Value, Time, seal, canonical_hash_payload, compute_content_hash, verify_integrity,
}
use embers_diaries.Core.Samples.{id_hashing}
use embers_diaries.Core.Proposal.{Evidence, MemoryProposal}
use embers_diaries.Core.Result.{Error, ok, err}
use embers_diaries.Dict
use embers_diaries.Storage
use embers_diaries.Storage.{empty_disk, Encoding, StorageLimits, WriteDraw}
use embers_diaries.Index.Master
use embers_diaries.Engine.State.{Engine, UpdateDraw, on_write, index_record}
use embers_diaries.Engine.Sound.{IsSound, empty-IsSound}
use embers_diaries.Engine.Writer.{
  access_count_of, get_access_stats, get_annotations, get_superseded_by, get_supersession_chain,
  chain_goes_on, chain_step, chain_walk, is_deprecated, write, update, supersede, resolve_target,
  mark_superseded, new_version, hash_of,
}
use embers_diaries.Engine.Reader.{
  get, get_current, get_many, get_namespace, hidden, overlay, successor, with_access,
  with_deprecated, with_successor,
}
use embers_diaries.Database.Fields.{
  required_text, IsoFormat, as_dict, get_field, of_texts, put_field, text_at, texts_in, optional_at,
}
use embers_diaries.Database.Evidence.{
  EvidenceHash, seal_evidence, evidence_dict, evidence_items, evidence_of, evidence_in,
  source_value, source_of,
}
use embers_diaries.Identity.Registry.{db_write, validate_provenance}
use embers_diaries.Database.Proposal.Payload.{
  payload, from_record, evidence_from, texts_from, float_from, derive_sources, with_sources,
  status_value, status_of,
}
use embers_diaries.Database.Proposal.Operations.{
  get_proposal, proposal_record, propose, reject, memory_value, memory_of, status_from, status_in,
  changed_status, as_discovery, memory_status, set_status,
}
use embers_diaries.Database.Proposal.Proposed.{propose-IsSound}
use embers_diaries.Database.Proposal.Status.{set_status-memory_status}
use embers_diaries.Database.Proposal.Rejected.{reject_again}

-- What a run computes through.
program : Unit {0}
unfolding Storage.exists Dict.get Dict.put write seal Storage.write Storage.check_write_limits
    Storage.increment_record_count Storage.commit_write Storage.write_record_file Storage.log_write
    Storage.file_size Storage.total_size Storage.read canonical_hash_payload compute_content_hash
    verify_integrity type_value as_dict get_field of_texts put_field text_at texts_in get
    get_current get_many get_namespace hidden overlay successor with_access with_deprecated
    with_successor access_count_of get_access_stats get_superseded_by get_supersession_chain
    chain_goes_on chain_step chain_walk is_deprecated get_annotations on_write index_record
    Master.index_record Master.get_namespace_ids Master.set_at Master.add_at Master.add_at_each
    Master.add_at_present Master.is_deprecated Master.is_superseded while seal_evidence
    evidence_dict evidence_items evidence_of evidence_in source_value source_of optional_at db_write
    validate_provenance required_text payload from_record evidence_from texts_from float_from
    derive_sources with_sources status_value status_of get_proposal proposal_record propose reject
    update supersede resolve_target mark_superseded new_version memory_value memory_of status_from
    status_in changed_status as_discovery memory_status set_status Master.mark_superseded hash_of
program = tt

-- A clock with two times.
instance abbrev two_times : IsoFormat
two_times = record {
  isoformat = λ (t : Time). if nat_eq t 7 then "7" else "9";
  fromisoformat = λ (s : String). if s == "7" then ok 7 else ok 9;
}

instance abbrev unit_size : Encoding
unit_size = record { encoded_size = λ (r : EmberRecord). 10 }

instance abbrev by_reference : EvidenceHash
by_reference = record { evidence_hash = λ (e : Evidence). e.reference }

abbrev unlimited : StorageLimits
unlimited = record { max_store_bytes = 0; max_record_bytes = 0 }

abbrev blank : Engine
blank = record { disk = empty_disk; index = Master.empty }

abbrev draw : String → WriteDraw
draw w = record { wal_id = w; now = 7 }

abbrev version_draw : String → UpdateDraw
version_draw id = record { new_id = id; write_draw = draw id }

abbrev trace : Evidence
trace = record {
  evidence_id = "e";
  source = "log";
  source_type = SourceType.reported;
  reference = "log:3";
  description = "";
  observed_at = 7;
  agent_id = none;
  session_id = none;
  content_hash = none;
}

abbrev discovery : MemoryProposal
discovery = record {
  proposal_id = "p";
  namespace = "default";
  discovery = Value.text "it rains";
  reason = "seen twice";
  evidence = trace ∷ [];
  sources = [];
  confidence = 0x3fe0000000000000;
  derivation = [];
  written_by = "ada";
  agent_id = some "ada";
  session_id = none;
  created_at = 5;
  status = ProposalStatus.promoted;
  tags = "rain" ∷ [];
}

abbrev proposed : Engine
proposed = (propose unlimited true (draw "w") 7 discovery blank).1

first_proposal : propose unlimited true (draw "w") 7 discovery blank ≡ (ok "p", proposed)
unfolding program
first_proposal = refl

abbrev proposed-IsSound : IsSound proposed.disk
unfolding program
proposed-IsSound =
    propose-IsSound unlimited true (draw "w") 7 discovery "p" blank proposed empty-IsSound refl

abbrev refused : Engine
refused = (reject unlimited (version_draw "q") "p" "too vague" "bob" proposed).1

first_rejection :
    reject unlimited (version_draw "q") "p" "too vague" "bob" proposed ≡ (ok "q", refused)
unfolding program
first_rejection = refl

reject_again_example :
    (◌≡◌ {A = String} "q" "q")
    × ((p : MemoryProposal) × ((get_proposal "p" proposed).0 ≡ ok (some p))
        × (p.status ≡ ProposalStatus.pending))
    × ((v : UpdateDraw) (why who : String)
        → (e : Error) × (reject unlimited v "p" why who refused ≡ (err e, refused)))
unfolding program
reject_again_example =
    reject_again unlimited (version_draw "q") "p" "too vague" "bob" "q" proposed refused
      proposed-IsSound refl refl

abbrev disputed : Engine
disputed = (set_status unlimited (version_draw "q") "p" MemoryStatus.disputed "bob" none proposed).1

set_status-memory_status_example :
    (memory_status "p" disputed ≡ (ok MemoryStatus.disputed, disputed))
    × (head : EmberRecord) × (get_current proposed.disk "p" ≡ ok (some head))
    × (◌≡◌ {A = String × String} ("q", "p") ("q", head.id))
unfolding program
set_status-memory_status_example =
    set_status-memory_status unlimited (version_draw "q") "p" "bob" MemoryStatus.disputed none
      ("q", "p") proposed disputed proposed-IsSound refl refl
