-- ===== src/Storage.antt =====
-- embers/storage/store.py: the record files, the write protocol over the log, recovery at start,
-- and the limits. `Disk` is the store's root directory: with the files of PhysicalStore it holds the
-- sidecars that embers/engine/writer.py keeps beside them. A record file is what its bytes decode to;
-- Database/Wire is about the dicts that are encoded there.
pub mod Recovery
pub mod Limits
pub mod Frame
pub mod Reads
mod Tests
use embers_diaries.Prelude.{
  ℕ, zero, suc, ◌+◌, String, Bool, Option, none, some, List, [], ◌∷◌, ◌==◌, ltb, nat_eq,
  if◌then◌else◌, not, ◌&&◌,
}
use embers_diaries.Dict
use embers_diaries.Dict.{Dict}
use embers_diaries.Core.Types.{DeprecationReason}
use embers_diaries.Core.Record.{EmberRecord, Annotation, Time, Hashing, verify_integrity}
use embers_diaries.Core.Result.{
  Error, storage_limit, Result, ok, err, Exec, pure, lift, gets, modify, ◌>>=◌, ◌>>◌,
}
use embers_diaries.Wal
use embers_diaries.Wal.{WalEntry, Line}

-- A record file: the record that its bytes decode to, or bytes that do not decode, by their size.
pub data RecordFile : Type 0 where
  stored : EmberRecord → RecordFile
  damaged : ℕ → RecordFile

pub record Supersession : Type 0 where
  pub old_id : String
  pub new_id : String
  pub timestamp : Time

pub record Deprecation : Type 0 where
  pub record_id : String
  pub reason : DeprecationReason
  pub note : String
  pub written_by : String
  pub timestamp : Time

pub record Access : Type 0 where
  pub access_count : ℕ
  pub last_accessed : Time

pub record Disk : Type 0 where
  pub records : Dict RecordFile
  pub wal : List Line
  pub record_count : ℕ
  pub supersessions : Dict Supersession
  pub deprecations : Dict Deprecation
  pub annotations : Dict (List Annotation)
  pub access : Dict Access

abbrev pub empty_disk : Disk
empty_disk = record {
  records = [];
  wal = [];
  record_count = 0;
  supersessions = [];
  deprecations = [];
  annotations = [];
  access = [];
}

-- The size of a record's bytes, which the serialisation library decides.
pub record Encoding : Type 0 where
  pub encoded_size : EmberRecord → ℕ

-- `max_store_bytes` and `max_record_bytes`; 0 is no limit.
pub record StorageLimits : Type 0 where
  pub max_store_bytes : ℕ
  pub max_record_bytes : ℕ

-- What one write draws from outside: the id of its log entry and the clock.
pub record WriteDraw : Type 0 where
  pub wal_id : String
  pub now : Time

-- `_write_record_file`: a file that is there is kept (`_atomic_write_new`).
unfoldable pub write_record_file : EmberRecord → Disk → Disk
write_record_file r d =
    if Dict.contains d.records r.id
    then d
    else record d { records = Dict.put d.records r.id (stored r) }

abbrev pub wal_entry : WriteDraw → EmberRecord → WalEntry
wal_entry w r = record {
  wal_id = w.wal_id;
  operation = "write";
  record_id = r.id;
  row = some r;
  timestamp = w.now;
}

unfoldable pub log_write : WriteDraw → EmberRecord → Disk → Disk
log_write w r d = record d { wal = Wal.log (wal_entry w r) d.wal }

unfoldable pub commit_write : String → Time → Disk → Disk
commit_write wal_id now d = record d { wal = Wal.commit wal_id now d.wal }

-- `_increment_record_count`
unfoldable pub increment_record_count : Disk → Disk
increment_record_count d = record d { record_count = d.record_count + 1 }

-- The steps of `write` once its limits are checked, in order. Each is durable before the next one
-- starts, so a crash stops between two of them.
abbrev pub write_steps : WriteDraw → EmberRecord → List (Disk → Disk)
write_steps w r =
    log_write w r ∷ write_record_file r ∷ commit_write w.wal_id w.now ∷ increment_record_count ∷ []

abbrev pub run_steps : List (Disk → Disk) → Disk → Disk
run_steps [] d = d
run_steps (f ∷ fs) d = run_steps fs (f d)

-- The first `n` steps, then the crash.
abbrev pub run_first : ℕ → List (Disk → Disk) → Disk → Disk
run_first zero fs d = d
run_first (suc n) [] d = d
run_first (suc n) (f ∷ fs) d = run_first n fs (f d)

unfoldable pub exists : String → Disk → Bool
exists id d = Dict.contains d.records id

-- `all_ids`
abbrev pub all_ids : Disk → List String
all_ids d = Dict.keys d.records

-- `_recover`: each open entry is replayed and committed. An entry of another operation, or one whose
-- data are refused, is left as it is.
replay_row : Time → String → Option EmberRecord → Disk → Disk
replay_row now wal_id none d = d
replay_row now wal_id (some r) d = commit_write wal_id now (write_record_file r d)

unfoldable pub replay : Time → WalEntry → Disk → Disk
unfolding replay_row
replay now e d = if e.operation == "write" then replay_row now e.wal_id e.row d else d

unfoldable pub replay_all : Time → List WalEntry → Disk → Disk
replay_all now [] d = d
replay_all now (e ∷ es) d = replay_all now es (replay now e d)

unfoldable pub recover : Time → Disk → Disk
recover now d = replay_all now (Wal.recover d.wal) d

module _ ⦃h : Hashing⦄ where
  -- `read`: missing and undecodable files give `none`, a hash that does not match raises.
  unfoldable pub read : String → Disk → Result (Option EmberRecord)
  read id d = elim (Dict.get d.records id) [
    | none ↦ ok none
    | some (damaged n) ↦ ok none
    | some (stored r) ↦ elim r.content_hash [
      | none ↦ ok (some r)
      | some hash ↦ elim (verify_integrity r) [ ok b ↦ ok (some r) | err e ↦ err e ]
    ]
  ]

module _ ⦃c : Encoding⦄ where
  unfoldable pub file_size : RecordFile → ℕ
  file_size (stored r) = c.encoded_size r
  file_size (damaged n) = n

  unfoldable pub total_size : Dict RecordFile → ℕ
  total_size [] = 0
  total_size ((k, f) ∷ d) = file_size f + total_size d

  -- `_check_write_limits`
  unfoldable pub check_write_limits : StorageLimits → Dict RecordFile → ℕ → Result (Unit {0})
  check_write_limits l records size =
      if not (nat_eq l.max_record_bytes 0) && ltb l.max_record_bytes size
      then err (storage_limit "storage.max_record_bytes" l.max_record_bytes size)
      else let attempted = total_size records + size in
        if not (nat_eq l.max_store_bytes 0) && ltb l.max_store_bytes attempted
        then err (storage_limit "storage.max_store_bytes" l.max_store_bytes attempted)
        else ok tt

  unfoldable pub write : StorageLimits → WriteDraw → EmberRecord → Exec Disk String
  write l w r = do
    records ← gets (λ d. d.records)
    lift (check_write_limits l records (c.encoded_size r))
    modify (run_steps (write_steps w r))
    pure r.id
