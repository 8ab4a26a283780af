-- ===== src/Engine/Reader.antt =====
-- embers/engine/reader.py: reads through the sidecars and the master index. A reader of EmberDB has
-- both a writer and an index, so the branches without them are not there. `track_access` is not
-- used by the source.
use embers_diaries.Prelude.{
  ℕ, zero, suc, String, Bool, true, false, Option, none, some, List, [], ◌∷◌, ◌==◌, ◌&&◌, nat_eq,
  if◌then◌else◌, not, is_some, leb, select,
}
use embers_diaries.Core.Record.{EmberRecord, Time, Hashing}
use embers_diaries.Core.Result.{Result, ok, err}
use embers_diaries.Storage
use embers_diaries.Storage.{Disk}
use embers_diaries.Index.Master.{MasterIndex, get_namespace_ids}
use embers_diaries.Engine.Writer.{
  get_superseded_by, get_supersession_chain, last_of, is_deprecated, get_annotations,
  get_access_stats,
}

infixl 10 ◌>>=◌
abbrev pub ◌>>=◌ {ℓ κ} : {A : Type ℓ} {B : Type κ} → Result A → (A → Result B) → Result B
ok a >>= f = f a
err e >>= f = err e

-- `if superseded_by`: the empty text counts as none.
abbrev truthy : Option String → Option String
truthy none = none
truthy (some s) = if s == "" then none else some s

-- The successor that `get` sees.
unfoldable pub successor : Disk → String → Option String
successor d id = truthy (get_superseded_by d id)

-- The overlays of `get` on the stored record: deprecation, supersession, annotations, accesses.
unfoldable pub with_deprecated : Bool → EmberRecord → EmberRecord
with_deprecated b r = if b then record r { deprecated = true } else r

unfoldable pub with_successor : Option String → EmberRecord → EmberRecord
with_successor none r = r
with_successor (some s) r = record r { superseded_by = some s }

unfoldable pub with_access : ℕ × Option Time → EmberRecord → EmberRecord
with_access (count, last) r =
    if nat_eq count 0 then r else record r { access_count = count; last_accessed = last }

unfoldable pub overlay : Disk → String → EmberRecord → EmberRecord
unfolding with_deprecated with_successor with_access
overlay d id r =
    with_access (get_access_stats d id)
      (record (with_successor (successor d id) (with_deprecated (is_deprecated d id) r)) {
        annotations = get_annotations d id;
      })

-- Whether the filters of `get` hide a record.
unfoldable pub hidden : Disk → Bool → Bool → String → Bool
hidden d include_deprecated include_superseded id =
    if is_deprecated d id && not include_deprecated
    then true
    else is_some (successor d id) && not include_superseded

shown : Disk → Bool → Bool → String → Option EmberRecord → Option EmberRecord
shown d dep sup id none = none
shown d dep sup id (some r) = if hidden d dep sup id then none else some (overlay d id r)

abbrev pub cons_found : Option EmberRecord → List EmberRecord → List EmberRecord
cons_found none rs = rs
cons_found (some r) rs = r ∷ rs

-- `valid[-1]`, or the given value where there is none.
abbrev pub last_record : Option EmberRecord → List EmberRecord → Option EmberRecord
last_record best [] = best
last_record best (r ∷ rs) = last_record (some r) rs

-- `[r for r in history if r.created_at <= timestamp]`
abbrev pub valid_at : Time → List EmberRecord → List EmberRecord
valid_at at history = select (λ (r : EmberRecord). leb r.created_at at) history

abbrev first : ℕ → List String → List String
first zero xs = []
first (suc n) [] = []
first (suc n) (x ∷ xs) = x ∷ first n xs

cut : Option ℕ → List String → List String
cut none ids = ids
cut (some n) ids = first n ids

module _ ⦃h : Hashing⦄ (d : Disk) where
  -- `get`, with `include_deprecated` and `include_superseded` first.
  unfoldable pub get : Bool → Bool → String → Result (Option EmberRecord)
  unfolding shown
  get dep sup id = do found ← Storage.read id d; ok (shown d dep sup id found)

  unfoldable pub get_current : String → Result (Option EmberRecord)
  get_current id = get false false (last_of (get_supersession_chain d id) id)

  -- `get_many`; with both flags set, also the loop of `get_history`.
  unfoldable pub get_many : Bool → Bool → List String → Result (List EmberRecord)
  get_many dep sup [] = ok []
  get_many dep sup (id ∷ ids) = do
    found ← get dep sup id
    rest ← get_many dep sup ids
    ok (cons_found found rest)

  unfoldable pub get_history : String → Result (List EmberRecord)
  get_history id = get_many true true (get_supersession_chain d id)

  -- `get_at`: the last version of the history that was made by the given time.
  unfoldable pub get_at : String → Time → Result (Option EmberRecord)
  get_at id at = do history ← get_history id; ok (last_record none (valid_at at history))

  -- `get_namespace`, through the master index.
  unfoldable pub get_namespace :
      MasterIndex → String → Bool → Bool → Option ℕ → Result (List EmberRecord)
  unfolding cut
  get_namespace x namespace dep sup limit =
      get_many dep sup (cut limit (get_namespace_ids x namespace dep sup))

  unfoldable pub get_all : Bool → Bool → Result (List EmberRecord)
  get_all dep sup = get_many dep sup (Storage.all_ids d)
