-- ===== src/Engine/History.antt =====
-- `ReadEngine.get_at` and the history that it searches (embers/engine/reader.py).
mod Tests
use embers_diaries.Prelude.{
  String, true, false, Option, none, some, List, [], ◌∷◌, ◌++◌, ◌≡◌, refl, ap, ◌∙◌, sym, arith, ◌≤◌,
  ◌<◌, leb, ◌⊎◌, inl, inr, Bool-cases, All, if◌then◌else◌,
}
use embers_diaries.Core.Record.{EmberRecord, Time, Hashing}
use embers_diaries.Core.Result.{Result, Result-cases, ok, err}
use embers_diaries.Storage.{Disk}
use embers_diaries.Engine.Reader.{last_record, valid_at, get_at, get_history}

abbrev IsLate : Time → EmberRecord → Type 0
IsLate at r = at < r.created_at

-- The last record of a list that was made by a time: those behind it were made later.
abbrev pub IsLastBy : Time → List EmberRecord → EmberRecord → Type 0
IsLastBy at rs r =
    (before : List EmberRecord) × (after : List EmberRecord) × (rs ≡ before ++ r ∷ after)
    × (r.created_at ≤ at)
    × All (IsLate at) after

last_record_cases :
    (at : Time) (best : Option EmberRecord) (rs : List EmberRecord)
    → ((last_record best (valid_at at rs) ≡ best) × All (IsLate at) rs)
      ⊎ ((r : EmberRecord) × (last_record best (valid_at at rs) ≡ some r) × IsLastBy at rs r)
last_record_cases at best [] = inl (refl, tt)
last_record_cases at best (q ∷ rs) = elim (Bool-cases (leb q.created_at at)) [
  | inl e ↦ elim (last_record_cases at (some q) rs) [
    | inl (same, late) ↦ inr (q, rw e same, ([], rs, refl, ground arith, late))
    | inr (r, same, (before, after, split, low, late)) ↦
        inr (r, rw e same, (q ∷ before, after, ap (λ x. q ∷ x) split, low, late))
  ]
  | inr e ↦ elim (last_record_cases at best rs) [
    | inl (same, late) ↦ inl (rw e same, (ground arith, late))
    | inr (r, same, (before, after, split, low, late)) ↦
        inr (r, rw e same, (q ∷ before, after, ap (λ x. q ∷ x) split, low, late))
  ]
]

module _ ⦃h : Hashing⦄ where
  -- Where the history of a record can be read, `get_at` gives the last version in it that was made by
  -- the given time, and nothing exactly where every version was made later.
  pub get_at_lem :
      (d : Disk) (id : String) (at : Time) (rs : List EmberRecord)
      → get_history d id ≡ ok rs
      → ((get_at d id at ≡ ok none) × All (IsLate at) rs)
        ⊎ ((r : EmberRecord) × (get_at d id at ≡ ok (some r)) × IsLastBy at rs r)
  unfolding get_at
  get_at_lem d id at rs e = elim (last_record_cases at none rs) [
    | inl (same, late) ↦ inl (rw (e, same) refl, late)
    | inr (r, same, rest) ↦ inr (r, rw (e, same) refl, rest)
  ]
