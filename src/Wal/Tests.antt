-- ===== src/Wal/Tests.antt =====
-- Runs of the log: the theorems at concrete logs.
use embers_diaries.Prelude.{String, some, List, [], ◌∷◌, ◌≡◌, refl, length}
use embers_diaries.Core.Samples.{note}
use embers_diaries.Wal.{WalEntry, Line, pending, committed, other, recover, checkpoint, log, commit}
use embers_diaries.Wal.Recovery.{recover-commit-log, recover-checkpoint}

abbrev entry : String → String → WalEntry
entry w id = record {
  wal_id = w;
  operation = "write";
  record_id = id;
  row = some (note id);
  timestamp = 7;
}

-- One write done, one interrupted, one line torn.
abbrev torn_log : List Line
torn_log = pending (entry "w1" "a") ∷ committed "w1" 8 ∷ other ∷ pending (entry "w2" "b") ∷ []

recover-commit-log_example :
    recover (commit "w3" 9 (log (entry "w3" "c") torn_log)) ≡ recover torn_log
recover-commit-log_example = recover-commit-log (entry "w3" "c") 9 torn_log refl

recover-checkpoint_example :
    (recover (checkpoint torn_log) ≡ recover torn_log)
    × (length (checkpoint torn_log) ≡ length (recover torn_log))
    × (checkpoint (checkpoint torn_log) ≡ checkpoint torn_log)
recover-checkpoint_example = recover-checkpoint torn_log

recover_torn : recover torn_log ≡ entry "w2" "b" ∷ []
unfolding recover embers_diaries.Wal.scan embers_diaries.Wal.scan_line embers_diaries.Dict.put
recover_torn = refl
