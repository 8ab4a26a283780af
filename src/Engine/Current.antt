-- ===== src/Engine/Current.antt =====
-- `ReadEngine.get_current` (embers/engine/reader.py).
use embers_diaries.Prelude.{
  String, false, Option, none, some, ◌≡◌, refl, map_option, if◌then◌else◌, Bool-cases, inl, inr,
}
use embers_diaries.Core.Record.{EmberRecord, Hashing}
use embers_diaries.Core.Result.{Result, Result-cases, ok}
use embers_diaries.Storage
use embers_diaries.Storage.{Disk}
use embers_diaries.Engine.Writer.{get_superseded_by, is_deprecated}
use embers_diaries.Engine.Reader.{◌>>=◌, successor, overlay, hidden, get, get_current}
use embers_diaries.Engine.Lineage.{IsLineage}
use embers_diaries.Engine.Chain.{last_of-get_supersession_chain}
use embers_diaries.Engine.Cas.{head_of}

module _ ⦃h : Hashing⦄ where
  -- The head, unless it is deprecated, with its overlays.
  abbrev pub head_record : Disk → String → Result (Option EmberRecord)
  head_record d id = do
    found ← Storage.read (head_of d id) d
    ok (
        if is_deprecated d (head_of d id)
        then none
        else map_option (overlay d (head_of d id)) found)

  get_top :
      (d : Disk) (id : String)
      → get_superseded_by d id ≡ none
      → get d false false id ≡ (do
        found ← Storage.read id d
        ok (if is_deprecated d id then none else map_option (overlay d id) found))
  unfolding get hidden successor
  get_top d id top = elim (Result-cases (Storage.read id d)) [
    | inr (e, p) ↦ rw p refl
    | inl (none, p) ↦ elim (Bool-cases (is_deprecated d id)) [
      | inl b ↦ rw (p, b) refl
      | inr b ↦ rw (p, b) refl
    ]
    | inl (some r, p) ↦ elim (Bool-cases (is_deprecated d id)) [
      | inl b ↦ simp (p, b, top)
      | inr b ↦ simp (p, b, top)
    ]
  ]

  -- Where the version links are well formed, `get_current` gives the last version of the record that
  -- was asked for, under the overlays, or nothing where that version is deprecated: it is never
  -- hidden for having a successor.
  pub get_current_lem : (d : Disk) (id : String) → IsLineage d → get_current d id ≡ head_record d id
  unfolding get_current
  get_current_lem d id lineage =
      get_top d (head_of d id) (last_of-get_supersession_chain d lineage id).1
