-- ===== src/Wal.antt =====
-- embers/engine/wal.py: the write-ahead log, with the routines that the module uses when the
-- native extension is absent. A file is the list of its lines.
pub mod Scan
pub mod Keyed
pub mod Recovery
mod Tests
use embers_diaries.Prelude.{
  String, Bool, Option, List, [], ◌∷◌, ◌++◌, map, ◌≡◌, refl, member, add, select, not, false, ◌==◌,
}
use embers_diaries.Dict
use embers_diaries.Dict.{Dict}
use embers_diaries.Core.Record.{EmberRecord, Time}

-- A PENDING entry. `row` is what `EmberRecord.from_dict` makes of the entry's data, and `none`
-- where it refuses them.
pub record WalEntry : Type 0 where
  pub wal_id : String
  pub operation : String
  pub record_id : String
  pub row : Option EmberRecord
  pub timestamp : Time

-- `other` is a line that is blank, that does not decode, or that has another status.
pub data Line : Type 0 where
  pending : WalEntry → Line
  committed : String → Time → Line
  other : Line

-- The two variables of the loop of `_recover_wal_lines`.
pub record Scanned : Type 0 where
  pub entries : Dict WalEntry
  pub done : List String

unfoldable pub scan_line : Scanned → Line → Scanned
scan_line s (pending e) = record s { entries = Dict.put s.entries e.wal_id e }
scan_line s (committed w t) = record s { done = add w s.done }
scan_line s other = s

unfoldable pub scan : Scanned → List Line → Scanned
scan s [] = s
scan s (l ∷ ls) = scan (scan_line s l) ls

abbrev pub start : Scanned
start = record { entries = []; done = [] }

abbrev pub open_entries : Scanned → List WalEntry
open_entries s = select (λ e. not (member e.wal_id s.done)) (Dict.values s.entries)

-- `_recover_wal_lines`, and `recover`, which decodes its lines.
unfoldable pub recover : List Line → List WalEntry
recover ls = open_entries (scan start ls)

-- `_checkpoint_wal`: the file is written anew with the pending lines.
unfoldable pub checkpoint : List Line → List Line
checkpoint ls = map pending (recover ls)

-- `log` and `commit` each append one line.
unfoldable pub log : WalEntry → List Line → List Line
log e ls = ls ++ pending e ∷ []

unfoldable pub commit : String → Time → List Line → List Line
commit w t ls = ls ++ committed w t ∷ []

-- Whether an id stands on some line of the log.
abbrev line_id : String → Line → Bool
line_id w (pending e) = e.wal_id == w
line_id w (committed v t) = v == w
line_id w other = false
