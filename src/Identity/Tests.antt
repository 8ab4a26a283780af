-- ===== src/Identity/Tests.antt =====
-- Runs of the registry of agents: the theorem at a concrete call.
use embers_diaries.Prelude.{String, true, ◌≡◌, refl}
use embers_diaries.Dict
use embers_diaries.Core.Record.{
  EmberRecord, Time, seal, compute_content_hash, canonical_hash_payload,
}
use embers_diaries.Core.Samples.{id_hashing}
use embers_diaries.Core.Result.{ok}
use embers_diaries.Storage
use embers_diaries.Storage.{empty_disk, Encoding, StorageLimits}
use embers_diaries.Index.Master
use embers_diaries.Engine.State.{Engine}
use embers_diaries.Engine.Writer.{write}
use embers_diaries.Engine.Sound.{empty-IsSound}
use embers_diaries.Database.Fields.{IsoFormat}
use embers_diaries.Lobby.Store.{TextMethods}
use embers_diaries.Identity.Registry.{
  AgentIdentity, Enrolment, TokenDigest, register, authenticate, agent_record, db_write,
  validate_provenance,
}
use embers_diaries.Identity.Registered.{register-authenticate}

instance abbrev unprinted : IsoFormat
unprinted = record { isoformat = λ (t : Time). "now"; fromisoformat = λ (s : String). ok 0 }

instance abbrev unit_size : Encoding
unit_size = record { encoded_size = λ (r : EmberRecord). 10 }

instance abbrev plain : TextMethods
plain = record { strip = λ (s : String). s; lower = λ (s : String). s }

-- A digest that is its token.
instance abbrev open_token : TokenDigest
open_token = record { hash_token = λ (s : String). s }

abbrev unlimited : StorageLimits
unlimited = record { max_store_bytes = 0; max_record_bytes = 0 }

abbrev draws : Enrolment
draws = record {
  drawn_id = "agent-1";
  token = "secret";
  now = 8;
  recorded = 7;
  write_draw = record { wal_id = "w"; now = 7 };
}

abbrev blank : Engine
blank = record { disk = empty_disk; index = Master.empty }

abbrev ada : AgentIdentity
ada = record {
  agent_id = "agent-1";
  name = "ada";
  provider = "unknown";
  model = "unknown";
  created_at = "now";
}

abbrev enrolled : Engine
enrolled = (register true unlimited draws "ada" "unknown" "unknown" blank).1

register-authenticate_example : authenticate "agent-1" "secret" enrolled ≡ (ok ada, enrolled)
unfolding register db_write validate_provenance agent_record write seal Storage.write Storage.exists
    Dict.get Dict.put Storage.check_write_limits Storage.total_size Storage.file_size
    Storage.increment_record_count Storage.commit_write Storage.write_record_file Storage.log_write
    compute_content_hash canonical_hash_payload
register-authenticate_example =
    register-authenticate true unlimited draws "ada" "unknown" "unknown" "secret" ada blank enrolled
      empty-IsSound refl "secret"
