-- ===== src/Storage/Recovery.antt =====
-- Crashes in the middle of a write, and what recovery makes of them.
use embers_diaries.Prelude.{
  ℕ, zero, suc, String, Option, none, some, List, [], ◌∷◌, ◌≡◌, refl, ap, ◌∙◌, arith, ◌==◌, eq_iff,
  nat_eq, if◌then◌else◌,
}
use embers_diaries.Dict
use embers_diaries.Dict.{Dict}
use embers_diaries.Core.Record.{EmberRecord, Time}
use embers_diaries.Wal
use embers_diaries.Wal.{WalEntry, Line}
use embers_diaries.Wal.Scan.{IsFresh}
use embers_diaries.Wal.Recovery.{recover-log, recover-commit-log}
use embers_diaries.Storage.{
  RecordFile, stored, Disk, WriteDraw, write_record_file, wal_entry, log_write, commit_write,
  increment_record_count, replay_row, write_steps, run_steps, run_first, replay, replay_all,
  recover,
}

-- A file that is there is never replaced.
pub get-write_record_file :
    (r : EmberRecord) (d : Disk) (k : String)
    → Dict.get (write_record_file r d).records k ≡ (
        if Dict.contains d.records r.id
        then Dict.get d.records k
        else if r.id == k
        then some (stored r)
        else Dict.get d.records k)
unfolding write_record_file
get-write_record_file r d k = ground (arith, Dict.get-put d.records r.id k (stored r))

pub write_record_file_twice :
    (r : EmberRecord) (d : Disk)
    → write_record_file r (write_record_file r d) ≡ write_record_file r d
unfolding write_record_file
write_record_file_twice r d = ground (arith, Dict.get-put_self d.records r.id (stored r))

abbrev Keeps : Dict RecordFile → Dict RecordFile → Type 0
Keeps a b = (k : String) (f : RecordFile) → Dict.get a k ≡ some f → Dict.get b k ≡ some f

write_record_file-Keeps :
    (r : EmberRecord) (d : Disk) → Keeps d.records (write_record_file r d).records
write_record_file-Keeps r d k f h = ground (arith, get-write_record_file r d k, eq_iff r.id k)

replay_row-Keeps :
    (now : Time) (w : String) (o : Option EmberRecord) (d : Disk)
    → Keeps d.records (replay_row now w o d).records
unfolding replay_row commit_write
replay_row-Keeps now w none d k f h = h
replay_row-Keeps now w (some r) d k f h = write_record_file-Keeps r d k f h

replay-Keeps : (now : Time) (e : WalEntry) (d : Disk) → Keeps d.records (replay now e d).records
unfolding replay
replay-Keeps now e d k f h = ground (arith, replay_row-Keeps now e.wal_id e.row d k f h)

replay_all-Keeps :
    (now : Time) (es : List WalEntry) (d : Disk) → Keeps d.records (replay_all now es d).records
unfolding replay_all
replay_all-Keeps now [] d k f h = h
replay_all-Keeps now (e ∷ es) d k f h =
    replay_all-Keeps now es (replay now e d) k f (replay-Keeps now e d k f h)

-- Recovery replaces no record file, whatever the log holds.
pub recover-Keeps :
    (now : Time) (d : Disk) (k : String) (f : RecordFile)
    → Dict.get d.records k ≡ some f
    → Dict.get (recover now d).records k ≡ some f
unfolding recover
recover-Keeps now d k f h = replay_all-Keeps now (Wal.recover d.wal) d k f h

-- A log with no open entry is left as it is.
recover_settled : (now : Time) (d : Disk) → Wal.recover d.wal ≡ [] → recover now d ≡ d
unfolding recover replay_all
recover_settled now d h = rw h

wal-write_record_file : (r : EmberRecord) (d : Disk) → (write_record_file r d).wal ≡ d.wal
unfolding write_record_file
wal-write_record_file r d = ground arith

module _ (w : WriteDraw) (r : EmberRecord) (later : Time) where
  -- One open entry, that of the write: recovery finishes the write.
  recover_open :
      (d : Disk)
      → Wal.recover d.wal ≡ wal_entry w r ∷ []
      → recover later d ≡ commit_write w.wal_id later (write_record_file r d)
  unfolding recover replay_all replay replay_row
  recover_open d h = rw h

  module _ (d : Disk) (fresh : IsFresh w.wal_id d.wal) (settled : Wal.recover d.wal ≡ []) where
    open_after_log : Wal.recover (log_write w r d).wal ≡ wal_entry w r ∷ []
    unfolding log_write
    open_after_log = rw (recover-log (wal_entry w r) d.wal fresh) (rw settled)

    settled_after :
        (e : Disk) (now : Time)
        → e.wal ≡ (log_write w r d).wal
        → Wal.recover (commit_write w.wal_id now e).wal ≡ []
    unfolding log_write commit_write
    settled_after e now h = rw h (recover-commit-log (wal_entry w r) now d.wal fresh ∙ settled)

    crash_logged :
        (e : Disk)
        → e.wal ≡ (log_write w r d).wal
        → ((recover later e).records ≡ (write_record_file r e).records)
          × (Wal.recover (recover later e).wal ≡ [])
    crash_logged e h = rw (recover_open e (rw h open_after_log)) (
      unfold commit_write in refl,
      settled_after (write_record_file r e) later (wal-write_record_file r e ∙ h),
    )

    crash_committed :
        (e : Disk)
        → e.wal ≡ (commit_write w.wal_id w.now (write_record_file r (log_write w r d))).wal
        → (recover later e ≡ e) × (Wal.recover e.wal ≡ [])
    crash_committed e h =
        let done : Wal.recover e.wal ≡ [] = rw h (
          settled_after (write_record_file r (log_write w r d)) w.now
            (wal-write_record_file r (log_write w r d))) in
        (recover_settled later e done, done)

wal-counted : (n : ℕ) (e : Disk) → (run_first n (increment_record_count ∷ []) e).wal ≡ e.wal
unfolding increment_record_count
wal-counted zero e = refl
wal-counted (suc zero) e = refl
wal-counted (suc (suc n)) e = refl

records-counted :
    (n : ℕ) (w : WriteDraw) (r : EmberRecord) (d : Disk)
    → (run_first (suc (suc (suc n))) (write_steps w r) d).records ≡ (
        if nat_eq (suc (suc (suc n))) 0 then d.records else (run_steps (write_steps w r) d).records)
unfolding increment_record_count commit_write
records-counted zero w r d = refl
records-counted (suc zero) w r d = refl
records-counted (suc (suc n)) w r d = ground arith

-- After a crash between any two steps of a write, recovery leaves either the records from before the
-- write or those after it, and no open entry: before the log entry is durable the former, from then
-- on the latter. The log has no open entry before, and no line with the id of the write.
pub recover-crash :
    (n : ℕ) (w : WriteDraw) (r : EmberRecord) (later : Time) (d : Disk)
    → IsFresh w.wal_id d.wal
    → Wal.recover d.wal ≡ []
    → let crashed = recover later (run_first n (write_steps w r) d) in
      (crashed.records
        ≡ (if nat_eq n 0 then d.records else (run_steps (write_steps w r) d).records))
      × (Wal.recover crashed.wal ≡ [])
unfolding commit_write increment_record_count
recover-crash zero w r later d fresh settled = rw (recover_settled later d settled) (refl, settled)
recover-crash (suc zero) w r later d fresh settled =
    crash_logged w r later d fresh settled (log_write w r d) refl
recover-crash (suc (suc zero)) w r later d fresh settled =
    let d' = log_write w r d in
    let (found, done) =
      crash_logged w r later d fresh settled (write_record_file r d')
        (wal-write_record_file r d') in
    (found ∙ ap (λ (e : Disk). e.records) (write_record_file_twice r d'), done)
recover-crash (suc (suc (suc n))) w r later d fresh settled =
    let e = commit_write w.wal_id w.now (write_record_file r (log_write w r d)) in
    let (same, done) =
      crash_committed w r later d fresh settled (run_first n (increment_record_count ∷ []) e)
        (wal-counted n e) in
    (
      ap (λ (x : Disk). x.records) same ∙ records-counted n w r d,
      ap (λ (x : Disk). Wal.recover x.wal) same ∙ done,
    )
