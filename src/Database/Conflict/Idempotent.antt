-- ===== src/Database/Conflict/Idempotent.antt =====
-- `map_conflict` (embers/db.py), called twice for a pair of memories.
use embers_diaries.Prelude.{String, ◌≡◌, ◌⊎◌}
use embers_diaries.Dict
use embers_diaries.Core.Record.{Hashing}
use embers_diaries.Namespace.{Manager}
use embers_diaries.Database.Fields.{IsoFormat}
use embers_diaries.Database.Session.Operations.{Spare}
use embers_diaries.Database.Conflict.Payload.{Conflict, PairHash}

module _ ⦃h : Hashing⦄ ⦃i : IsoFormat⦄ ⦃p : PairHash⦄ (m : Manager) (d : Spare) where
  -- Two names for the same two memories.
  abbrev pub SamePair : String → String → String → String → Type 0
  SamePair a b a' b' = ((a' ≡ a) × (b' ≡ b)) ⊎ ((a' ≡ b) × (b' ≡ a))
