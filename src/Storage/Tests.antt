-- ===== src/Storage/Tests.antt =====
-- Runs of the store: the theorems at concrete disks.
use embers_diaries.Prelude.{◌↔◌, ◌≤◌, String, [], ◌≡◌, refl, nat_eq, if◌then◌else◌, ◌⊎◌}
use embers_diaries.Dict
use embers_diaries.Core.Record.{EmberRecord}
use embers_diaries.Core.Samples.{sealed_note, id_hashing}
use embers_diaries.Core.Result.{storage_limit, err}
use embers_diaries.Wal
use embers_diaries.Wal.{pending}
use embers_diaries.Storage.{
  Disk, empty_disk, Encoding, StorageLimits, WriteDraw, write_record_file, log_write, commit_write,
  increment_record_count, write_steps, run_steps, run_first, recover, file_size, total_size,
  check_write_limits, write,
}
use embers_diaries.Storage.Recovery.{recover-crash}
use embers_diaries.Storage.Limits.{write-WithinLimits, write_refused, OverLimit}

instance abbrev unit_size : Encoding
unit_size = record { encoded_size = λ (r : EmberRecord). 10 }

abbrev draw : String → WriteDraw
draw w = record { wal_id = w; now = 7 }

abbrev one_note : Disk
one_note = run_steps (write_steps (draw "w1") (sealed_note "a")) empty_disk

abbrev two_notes : Disk
two_notes = run_steps (write_steps (draw "w2") (sealed_note "b")) one_note

abbrev small : StorageLimits
small = record { max_store_bytes = 25; max_record_bytes = 20 }

recover-crash_example :
    let crashed = recover 9 (run_first 2 (write_steps (draw "w2") (sealed_note "b")) one_note) in
    (crashed.records ≡ (
      if nat_eq 2 0
      then one_note.records
      else (run_steps (write_steps (draw "w2") (sealed_note "b")) one_note).records))
    × (Wal.recover crashed.wal ≡ [])
unfolding write_record_file log_write commit_write increment_record_count Wal.recover Wal.commit
    Dict.get Wal.log Wal.scan Wal.scan_line Dict.put
recover-crash_example = recover-crash 2 (draw "w2") (sealed_note "b") 9 one_note refl refl

write-WithinLimits_example :
    ((small.max_record_bytes ≡ 0) ⊎ (10 ≤ small.max_record_bytes))
    × ((small.max_store_bytes ≡ 0)
        ⊎ (total_size (write small (draw "w2") (sealed_note "b") one_note).1.records
            ≤ small.max_store_bytes))
unfolding write check_write_limits total_size file_size write_record_file log_write commit_write
    increment_record_count Dict.get Dict.put
write-WithinLimits_example = write-WithinLimits small (sealed_note "b") one_note (draw "w2") refl

write_refused_example :
    (((write small (draw "w3") (sealed_note "c") two_notes).0
        ≡ err (storage_limit "storage.max_store_bytes" 25 30))
      ↔ OverLimit small (sealed_note "c") two_notes (storage_limit "storage.max_store_bytes" 25 30))
    × ((write small (draw "w3") (sealed_note "c") two_notes
          ≡ (err (storage_limit "storage.max_store_bytes" 25 30), two_notes))
        ↔ OverLimit small
            (sealed_note "c")
            two_notes
            (storage_limit "storage.max_store_bytes" 25 30))
unfolding write check_write_limits total_size increment_record_count commit_write write_record_file
    Dict.get log_write Dict.put file_size
write_refused_example =
    write_refused small (sealed_note "c") two_notes (draw "w3")
      (storage_limit "storage.max_store_bytes" 25 30)
