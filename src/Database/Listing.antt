-- ===== src/Database/Listing.antt =====
-- The sweep that `conflict_records`, `failures` and `proposals` of embers/db.py share: over the
-- records of a type in some namespaces, each resolved to its current version, and each version once.
-- The namespaces of all records are a set, listed in the order in which they are met.
pub mod Complete
pub mod Sweep
pub mod Namespaces
use embers_diaries.Prelude.{
  String, Bool, true, false, Option, none, some, List, [], ◌∷◌, ◌++◌, if◌then◌else◌, not, member,
  add, get_or,
}
use embers_diaries.Core.Types.{RecordType}
use embers_diaries.Core.Record.{EmberRecord, Hashing}
use embers_diaries.Core.Result.{Result, ok}
use embers_diaries.Storage
use embers_diaries.Storage.{Disk}
use embers_diaries.Index.Master.{MasterIndex}
use embers_diaries.Engine.Reader.{◌>>=◌, get_current, get_namespace}
use embers_diaries.Database.Versions.{is_of_type}

-- A `for` loop whose body may raise.
unfoldable pub fold_result {ℓ κ} :
    {A : Type ℓ} {S : Type κ} → (A → S → Result S) → List A → S → Result S
fold_result body [] s = ok s
fold_result body (x ∷ xs) s = do s' ← body x s; fold_result body xs s'

-- `out` and `seen`
pub record Listed (B : Type 0) : Type 0 where
  pub out : List B
  pub seen : List String

abbrev pub nothing_listed : {B : Type 0} → Listed B
nothing_listed = record { out = []; seen = [] }

abbrev pub with_namespace : Option EmberRecord → List String → List String
with_namespace none namespaces = namespaces
with_namespace (some r) namespaces = add r.namespace namespaces

module _ ⦃h : Hashing⦄ (d : Disk) where
  -- `_all_namespaces`
  unfoldable pub all_namespaces : Result (List String)
  unfolding fold_result
  all_namespaces =
      fold_result
        (λ id namespaces. do found ← Storage.read id d; ok (with_namespace found namespaces))
        (Storage.all_ids d) []

  module _ {B : Type 0} (type : RecordType) (read_in : EmberRecord → Result B)
      (keep : B → Bool) where
    -- One version: it is listed once, and only if it is kept.
    unfoldable pub list_version : EmberRecord → Listed B → Result (Listed B)
    list_version r s = if member r.id s.seen then ok s else do
      b ← read_in r
      ok (record { out = if keep b then s.out ++ b ∷ [] else s.out; seen = r.id ∷ s.seen })

    -- One record of a namespace: `get_current(rec.id) or rec`.
    unfoldable pub list_record : EmberRecord → Listed B → Result (Listed B)
    unfolding list_version
    list_record r s =
        if not (is_of_type type r)
        then ok s
        else do current ← get_current d r.id; list_version (get_or current r) s

    -- One namespace.
    unfoldable pub list_namespace : MasterIndex → String → Listed B → Result (Listed B)
    unfolding list_record fold_result
    list_namespace x namespace s = do
      rs ← get_namespace d x namespace true false none
      fold_result list_record rs s
