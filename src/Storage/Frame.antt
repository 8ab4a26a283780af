-- ===== src/Storage/Frame.antt =====
-- What a whole write leaves of the disk, field by field.
use embers_diaries.Prelude.{◌+◌, [], ◌∷◌, ◌++◌, ◌≡◌, Bool-cases, inl, inr, append_assoc}
use embers_diaries.Dict
use embers_diaries.Core.Record.{EmberRecord}
use embers_diaries.Wal
use embers_diaries.Wal.{pending, committed}
use embers_diaries.Storage.{
  Disk, WriteDraw, write_record_file, log_write, commit_write, increment_record_count, write_steps,
  run_steps, wal_entry,
}

-- A whole write adds at most one record file, two lines of the log and one to the counter.
pub run_steps-write_steps :
    (w : WriteDraw) (r : EmberRecord) (d : Disk)
    → run_steps (write_steps w r) d ≡ record d {
      records = (write_record_file r d).records;
      wal = d.wal ++ pending (wal_entry w r) ∷ committed w.wal_id w.now ∷ [];
      record_count = d.record_count + 1;
    }
unfolding log_write commit_write increment_record_count write_record_file Wal.log Wal.commit
run_steps-write_steps w r d = elim (Bool-cases (Dict.contains d.records r.id)) [
  | inl there ↦ rw there (rw append_assoc)
  | inr new ↦ rw new (rw append_assoc)
]
