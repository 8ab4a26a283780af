-- ===== src/Wal/Keyed.antt =====
-- The entries that the scan of the log collects (embers/engine/wal.py), by their ids.
use embers_diaries.Prelude.{
  String, Bool, false, none, List, [], ◌∷◌, ◌++◌, map, ◌≡◌, refl, ap, sym, ◌∙◌, arith, ◌==◌, eq_iff,
  member, append-nil, append_assoc, select, not,
}
use embers_diaries.Dict
use embers_diaries.Dict.{Dict}
use embers_diaries.Wal.{WalEntry, Line, pending, committed, other, Scanned, scan, scan_line}
use embers_diaries.Wal.Scan.{put_fresh, values-append}

abbrev pub IsKeyed : Dict WalEntry → Type 0
IsKeyed [] = Unit
IsKeyed ((k, e) ∷ d) = (k ≡ e.wal_id) × (Dict.get d k ≡ none) × IsKeyed d

abbrev pub ids : List WalEntry → List String
ids xs = map (λ e. e.wal_id) xs

abbrev pub IsDistinct : List WalEntry → Type 0
IsDistinct [] = Unit
IsDistinct (e ∷ xs) = (member e.wal_id (ids xs) ≡ false) × IsDistinct xs

put-IsKeyed : (d : Dict WalEntry) (e : WalEntry) → IsKeyed d → IsKeyed (Dict.put d e.wal_id e)
unfolding Dict.put
put-IsKeyed [] e h = (refl, Dict.get-empty e.wal_id, tt)
put-IsKeyed ((j, v) ∷ d) e h =
    ground (
      arith,
      put-IsKeyed d e h.2,
      Dict.get-put d e.wal_id j e,
      eq_iff j e.wal_id,
      eq_iff e.wal_id j,
    )

pub scan-IsKeyed : (s : Scanned) (ls : List Line) → IsKeyed s.entries → IsKeyed (scan s ls).entries
unfolding scan scan_line
scan-IsKeyed s [] h = h
scan-IsKeyed s (pending e ∷ ls) h =
    scan-IsKeyed (scan_line s (pending e)) ls (put-IsKeyed s.entries e h)
scan-IsKeyed s (committed w t ∷ ls) h = scan-IsKeyed (scan_line s (committed w t)) ls h
scan-IsKeyed s (other ∷ ls) h = scan-IsKeyed s ls h

-- An id under which nothing is kept is the id of no selected entry.
pub absent_id :
    (w : String) (p : WalEntry → Bool) (d : Dict WalEntry)
    → IsKeyed d
    → Dict.get d w ≡ none
    → member w (ids (select p (Dict.values d))) ≡ false
unfolding Dict.get
absent_id w p [] h g = refl
absent_id w p ((k, e) ∷ d) h g = ground (arith, absent_id w p d h.2, eq_iff k w, eq_iff e.wal_id w)

pub select-IsDistinct :
    (p : WalEntry → Bool) (d : Dict WalEntry) → IsKeyed d → IsDistinct (select p (Dict.values d))
select-IsDistinct p [] h = tt
select-IsDistinct p ((k, e) ∷ d) h =
    ground (arith, select-IsDistinct p d h.2, absent_id k p d h.2 h.1)

-- To select by an inequality that holds of all changes nothing.
pub select_other :
    (w : String) (xs : List WalEntry)
    → member w (ids xs) ≡ false
    → select (λ e. not (w == e.wal_id)) xs ≡ xs
select_other w [] h = refl
select_other w (x ∷ xs) h = ground (arith, select_other w xs, eq_iff x.wal_id w, eq_iff w x.wal_id)

abbrev pub HasNoneOf : Dict WalEntry → List WalEntry → Type 0
HasNoneOf d [] = Unit
HasNoneOf d (x ∷ xs) = (Dict.get d x.wal_id ≡ none) × HasNoneOf d xs

HasNoneOf-put :
    (d : Dict WalEntry) (e : WalEntry) (xs : List WalEntry)
    → member e.wal_id (ids xs) ≡ false
    → HasNoneOf d xs
    → HasNoneOf (Dict.put d e.wal_id e) xs
HasNoneOf-put d e [] m h = tt
HasNoneOf-put d e (x ∷ xs) m h = ground (
  arith,
  Dict.get-put d e.wal_id x.wal_id e,
  HasNoneOf-put d e xs,
  eq_iff x.wal_id e.wal_id,
  eq_iff e.wal_id x.wal_id,
)

-- To scan pending lines with new, distinct ids is to append their entries.
pub scan-pending :
    (s : Scanned) (xs : List WalEntry)
    → IsDistinct xs
    → HasNoneOf s.entries xs
    → (Dict.values (scan s (map pending xs)).entries ≡ Dict.values s.entries ++ xs)
      × ((scan s (map pending xs)).done ≡ s.done)
unfolding scan scan_line
scan-pending s [] h n = (sym (append-nil _), refl)
scan-pending s (x ∷ xs) h n =
    let (found, done) =
      scan-pending (scan_line s (pending x)) xs h.1 (HasNoneOf-put s.entries x xs h.0 n.1) in
    (
      found
          ∙ (rw (put_fresh s.entries x.wal_id x n.0)
              (rw (values-append s.entries ((x.wal_id, x) ∷ [])) (rw append_assoc))),
      done,
    )

pub HasNoneOf-nil : (xs : List WalEntry) → HasNoneOf [] xs
HasNoneOf-nil [] = tt
HasNoneOf-nil (x ∷ xs) = (Dict.get-empty x.wal_id, HasNoneOf-nil xs)

pub select_none_done : (xs : List WalEntry) → select (λ e. not (member e.wal_id [])) xs ≡ xs
select_none_done [] = refl
select_none_done (x ∷ xs) = ap (◌∷◌ x) (select_none_done xs)
