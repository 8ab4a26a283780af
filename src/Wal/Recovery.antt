-- ===== src/Wal/Recovery.antt =====
-- What `recover` reports after `log`, `commit` and `checkpoint`.
use embers_diaries.Prelude.{
  String, false, List, [], ◌∷◌, ◌++◌, map, ◌≡◌, refl, ap, ◌∙◌, arith, ◌==◌, eq_refl, member, select,
  not, append-nil, length, length-map,
}
use embers_diaries.Dict
use embers_diaries.Core.Record.{Time}
use embers_diaries.Wal.{
  WalEntry, Line, pending, committed, scan, scan_line, start, recover, checkpoint, log, commit,
}
use embers_diaries.Wal.Scan.{
  IsFresh, scan-append, scan_fresh, put_fresh, values-append, select-append, select-add,
}
use embers_diaries.Wal.Keyed.{
  scan-IsKeyed, IsDistinct, absent_id, ids, select-IsDistinct, select_other, scan-pending,
  HasNoneOf-nil, select_none_done,
}

-- A logged entry is reported last, behind what was open before.
pub recover-log :
    (e : WalEntry) (ls : List Line)
    → IsFresh e.wal_id ls
    → recover (log e ls) ≡ recover ls ++ e ∷ []
unfolding recover log scan_line
recover-log e ls fresh =
    let s = scan start ls in
    let facts = scan_fresh e.wal_id start ls fresh (Dict.get-empty e.wal_id) refl in
    rw (scan-append start ls (pending e)) (
      rw (put_fresh s.entries e.wal_id e facts.0) (
        rw (values-append s.entries ((e.wal_id, e) ∷ []))
          (rw select-append (ground (arith, facts.1)))))

-- A commit marker takes the entry with its id, and no other, from the report.
pub recover-commit :
    (w : String) (t : Time) (ls : List Line)
    → recover (commit w t ls) ≡ select (λ e. not (w == e.wal_id)) (recover ls)
unfolding recover commit scan_line
recover-commit w t ls =
    let s = scan start ls in
    rw (scan-append start ls (committed w t)) (select-add w s.done (Dict.values s.entries))

-- An id that no line holds is the id of no open entry.
pub recover_fresh :
    (w : String) (ls : List Line) → IsFresh w ls → member w (ids (recover ls)) ≡ false
unfolding recover
recover_fresh w ls fresh =
    absent_id w _ (scan start ls).entries (scan-IsKeyed start ls tt)
      (scan_fresh w start ls fresh (Dict.get-empty w) refl).0

-- Each open entry is reported once.
pub recover-IsDistinct : (ls : List Line) → IsDistinct (recover ls)
unfolding recover
recover-IsDistinct ls = select-IsDistinct _ (scan start ls).entries (scan-IsKeyed start ls tt)

-- An entry that is logged under an id not in the log and then committed leaves the report of open
-- entries as it was.
pub recover-commit-log :
    (e : WalEntry) (t : Time) (ls : List Line)
    → IsFresh e.wal_id ls
    → recover (commit e.wal_id t (log e ls)) ≡ recover ls
recover-commit-log e t ls fresh = rw (recover-commit e.wal_id t (log e ls)) (
    rw (recover-log e ls fresh) (
      rw (select-append _ (recover ls) (e ∷ [])) (
        rw (eq_refl e.wal_id)
          (append-nil _ ∙ select_other e.wal_id (recover ls) (recover_fresh e.wal_id ls fresh)))))

recover-map_pending : (xs : List WalEntry) → IsDistinct xs → recover (map pending xs) ≡ xs
unfolding recover
recover-map_pending xs h =
    let (found, done) = scan-pending start xs h (HasNoneOf-nil xs) in
    rw (found, done) (select_none_done xs)

-- The compacted log reports the open entries of the log that it replaces, in the same order; it has
-- one line for each, and compacting it again changes nothing.
pub recover-checkpoint :
    (ls : List Line)
    → (recover (checkpoint ls) ≡ recover ls)
      × (length (checkpoint ls) ≡ length (recover ls))
      × (checkpoint (checkpoint ls) ≡ checkpoint ls)
unfolding checkpoint
recover-checkpoint ls =
    let kept = recover-map_pending (recover ls) (recover-IsDistinct ls) in
    (kept, length-map (recover ls) pending, ap (map pending) kept)
