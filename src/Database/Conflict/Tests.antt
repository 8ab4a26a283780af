-- ===== src/Database/Conflict/Tests.antt =====
-- Runs of conflicts: the theorem at a concrete call.
use embers_diaries.Prelude.{String, none, some, [], ◌∷◌, ◌==◌, if◌then◌else◌, nat_eq}
use embers_diaries.Core.Types.{RecordType, ConflictStatus}
use embers_diaries.Core.Record.{EmberRecord, Time, default_record}
use embers_diaries.Core.Samples.{id_hashing}
use embers_diaries.Core.Result.{ok}
use embers_diaries.Dict
use embers_diaries.Storage
use embers_diaries.Storage.{empty_disk, Encoding, StorageLimits, WriteDraw}
use embers_diaries.Index.Master
use embers_diaries.Engine.State.{Engine, UpdateDraw}
use embers_diaries.Engine.Operations.{write_op, run_ops}
use embers_diaries.Engine.Sound.{IsSound, run_ops-IsSound, empty-IsSound}
use embers_diaries.Database.Fields.{IsoFormat}
use embers_diaries.Namespace.{Manager}
use embers_diaries.Lobby.Store.{TextMethods}
use embers_diaries.Core.Record.{Fields, dict}
use embers_diaries.Database.Session.Operations.{Spare}
use embers_diaries.Database.Conflict.Payload.{Conflict, ConflictType, PairHash, payload}
use embers_diaries.Database.Conflict.Operations.{update_conflict_status}

-- A clock with two times.
instance abbrev two_times : IsoFormat
two_times = record {
  isoformat = λ (t : Time). if nat_eq t 7 then "7" else "9";
  fromisoformat = λ (s : String). if s == "7" then ok 7 else ok 9;
}

instance abbrev unit_size : Encoding
unit_size = record { encoded_size = λ (r : EmberRecord). 10 }

abbrev unlimited : StorageLimits
unlimited = record { max_store_bytes = 0; max_record_bytes = 0 }

abbrev draw : String → WriteDraw
draw w = record { wal_id = w; now = 7 }

abbrev draw_update : String → UpdateDraw
draw_update id = record { new_id = id; write_draw = draw id }

abbrev blank : Engine
blank = record { disk = empty_disk; index = Master.empty }

abbrev spare : Spare
spare = record { spare_id = "spare"; spare_time = 9 }

instance abbrev plain : TextMethods
plain = record { strip = λ (s : String). s; lower = λ (s : String). s }

instance abbrev one_pair : PairHash
one_pair = record { pair_hash = λ (n a b k : String). a }

-- Two memories that contradict each other.
abbrev dispute : Conflict
dispute = record {
  conflict_id = "c";
  namespace = "default";
  memory_a = "a";
  memory_b = "b";
  conflict_type = ConflictType.semantic;
  detected_at = 7;
  detected_by = "ada";
  status = ConflictStatus.open_conflict;
  resolution = "";
  winner_id = "";
  note = "";
  tags = [];
}

abbrev mapped : EmberRecord
mapped = record (default_record "c" 7) {
  record_type = RecordType.conflict;
  content = dict (payload dispute);
  tags = "conflict" ∷ [];
}

abbrev started : Engine
started = run_ops unlimited (write_op (draw "c") mapped ∷ []) blank

abbrev started-IsSound : IsSound started.disk
started-IsSound =
    run_ops-IsSound unlimited (write_op (draw "c") mapped ∷ []) blank (tt, tt) empty-IsSound

abbrev everyone : Manager
everyone = record { namespaces = []; registry = none }

abbrev settled : Engine
settled =
    (update_conflict_status everyone unlimited spare (draw_update "d") "c" ConflictStatus.resolved
      "a is right" "ada" (some "a") started).1
