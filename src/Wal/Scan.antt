-- ===== src/Wal/Scan.antt =====
-- The scan of the log: what one more line at the end changes, ids that no line holds, and the
-- entries kept under their own ids.
use embers_diaries.Prelude.{
  String, Bool, false, none, List, [], ◌∷◌, ◌++◌, ◌≡◌, refl, ap, arith, ◌==◌, member, add,
  member-add, select, any_of, not,
}
use embers_diaries.Dict
use embers_diaries.Dict.{Dict}
use embers_diaries.Wal.{
  WalEntry, Line, pending, committed, other, line_id, Scanned, scan, scan_line,
}

pub scan-append :
    (s : Scanned) (ls : List Line) (l : Line) → scan s (ls ++ l ∷ []) ≡ scan_line (scan s ls) l
unfolding scan
scan-append s [] l = refl
scan-append s (k ∷ ls) l = scan-append (scan_line s k) ls l

abbrev pub IsFresh : String → List Line → Type 0
IsFresh w ls = any_of (line_id w) ls ≡ false

-- An id that no line holds is neither an entry nor done.
pub scan_fresh :
    (w : String) (s : Scanned) (ls : List Line)
    → IsFresh w ls
    → Dict.get s.entries w ≡ none
    → member w s.done ≡ false
    → (Dict.get (scan s ls).entries w ≡ none) × (member w (scan s ls).done ≡ false)
unfolding scan scan_line
scan_fresh w s [] h g m = (g, m)
scan_fresh w s (pending e ∷ ls) h g m =
    scan_fresh w (scan_line s (pending e)) ls (ground arith)
      (ground (arith, Dict.get-put s.entries e.wal_id w e)) m
scan_fresh w s (committed v t ∷ ls) h g m =
    scan_fresh w (scan_line s (committed v t)) ls (ground arith) g
      (ground (arith, member-add w v s.done))
scan_fresh w s (other ∷ ls) h g m = scan_fresh w s ls h g m

pub put_fresh {ℓ} :
    {V : Type ℓ} (d : Dict V) (k : String) (v : V)
    → Dict.get d k ≡ none
    → Dict.put d k v ≡ d ++ (k, v) ∷ []
unfolding Dict.get Dict.put
put_fresh [] k v h = refl
put_fresh ((j, w) ∷ d) k v h = ground (arith, put_fresh d k v)

pub values-append {ℓ} :
    {V : Type ℓ} (d e : Dict V) → Dict.values (d ++ e) ≡ Dict.values d ++ Dict.values e
values-append [] e = refl
values-append (x ∷ d) e = ap (◌∷◌ x.1) (values-append d e)

pub select-append {ℓ} :
    {A : Type ℓ} (p : A → Bool) (xs ys : List A) → select p (xs ++ ys) ≡ select p xs ++ select p ys
select-append p [] ys = refl
select-append p (x ∷ xs) ys = ground (arith, select-append p xs ys)

-- To commit one more id is to drop its entry.
pub select-add :
    (w : String) (done : List String) (xs : List WalEntry)
    → select (λ e. not (member e.wal_id (add w done))) xs
      ≡ select (λ e. not (w == e.wal_id)) (select (λ e. not (member e.wal_id done)) xs)
select-add w done [] = refl
select-add w done (x ∷ xs) = ground (arith, select-add w done xs, member-add x.wal_id w done)
