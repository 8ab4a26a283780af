-- ===== src/Database/Conflict/Transitions.antt =====
-- What a change of a conflict's status does (embers/db.py).
use embers_diaries.Prelude.{
  String, true, false, Option, some, ◌≡◌, ◌||◌, ◌==◌, ◌&&◌, not, get_or, if◌then◌else◌,
}
use embers_diaries.Core.Types.{ConflictStatus}
use embers_diaries.Core.Record.{Hashing, Fields, text}
use embers_diaries.Storage
use embers_diaries.Storage.{Encoding, StorageLimits}
use embers_diaries.Engine.State.{Engine}
use embers_diaries.Namespace.{Manager}
use embers_diaries.Database.Fields.{IsoFormat, get_field}
use embers_diaries.Database.Conflict.Payload.{Conflict, PairHash, status_value, is_terminal}
use embers_diaries.Lobby.Store.{TextMethods}

-- What the transition needs: the conflict is not closed, the status is not `open`, and a winner is named
-- only for a resolution, and is one of the two.
pub record IsLegal (c : Conflict) (status : ConflictStatus) (winner : Option String) : Type 0 where
  pub live : is_terminal (status_value c.status) ≡ false
  pub moved : (status_value status == "open") ≡ false
  pub chosen :
      (w : String)
      → winner ≡ some w
      → (status_value status ≡ "resolved") × (((w == c.memory_a) || (w == c.memory_b)) ≡ true)

module _ ⦃h : Hashing⦄ ⦃i : IsoFormat⦄ ⦃q : PairHash⦄ ⦃t : TextMethods⦄ ⦃c : Encoding⦄ (m : Manager)
    (limits : StorageLimits) where
  -- What a payload says after a transition: the new status, the resolution if one was given, the winner
  -- or the empty text, and for every other key what it said before.
  abbrev pub Moved : Fields → ConflictStatus → String → Option String → Fields → Type 0
  Moved before status resolution winner after =
      (k : String)
      → get_field after k ≡ (
          if k == "winner_id"
          then some (text (get_or winner ""))
          else if (k == "resolution") && not (resolution == "")
          then some (text resolution)
          else if k == "status"
          then some (text (status_value status))
          else get_field before k)
