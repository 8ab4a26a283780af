-- ===== src/Lobby/Runs.antt =====
-- Runs of calls on the boards of embers/lobby/store.py.
use embers_diaries.Prelude.{ℕ, String, true, Option, some, List, [], ◌∷◌, ◌≡◌, arith}
use embers_diaries.Dict
use embers_diaries.Dict.{Dict}
use embers_diaries.Core.Result.{Result, ok, err}
use embers_diaries.Core.Triples.{Outcome}
use embers_diaries.Lobby.Board.{LobbyConfig, Board}
use embers_diaries.Lobby.Store.{LobbyStore, Moments, TextMethods, configure, reset}
use embers_diaries.Lobby.Operations.{
  take_post, heartbeat, leave, snapshot, summary_for_session, mark_promoted, close, open_board,
  publish, corroborate,
}
use embers_diaries.Lobby.Seats.{IsSeated, fits}
use embers_diaries.Lobby.Membership.{Seated}
use embers_diaries.Lobby.Calls.{
  Kept, heartbeat-Seated, summary-Seated, snapshot-Seated, take_post-Seated, leave-Seated,
  close-Seated,
}
use embers_diaries.Lobby.Posting.{publish-Seated, corroborate-Seated}
use embers_diaries.Lobby.Opening.{IsNew, mark_promoted-Seated, open_board-Seated}

-- A store without boards.
pub no_boards-IsSeated : (limit : ℕ) → IsSeated limit [] []
no_boards-IsSeated limit = record {
  keyed = λ k b p. absurd (ground (arith, p, Dict.get-empty {V = Board} k));
  named = Dict.get-empty {V = Board} "";
  distinct = tt;
  seated = λ sid k p. absurd (ground (arith, p, Dict.get-empty {V = String} sid));
  alone = λ sid k b n p. absurd (ground (arith, p, Dict.get-empty {V = Board} k));
  fitting = λ k b p. absurd (ground (arith, p, Dict.get-empty {V = Board} k));
}

-- A call of the store, with what it draws.
pub data Op : Type 0 where
  open_op : Moments → String → String → String → String → String → String → Op
  publish_op : Moments → String → String → String → String → String → String → Option String → Op
  corroborate_op : Moments → String → String → String → Op
  heartbeat_op : Moments → String → String → Op
  leave_op snapshot_op summary_op close_op : Moments → String → Op
  take_op : Moments → String → String → Op
  promoted_op : Moments → String → String → String → Op
  configure_op : LobbyConfig → Op
  reset_op : Op

module _ ⦃text : TextMethods⦄ where
  unfoldable pub apply_op : Op → LobbyStore → LobbyStore
  apply_op (open_op m id sid agent task namespace room) s =
      (open_board m id sid agent task namespace room s).1
  apply_op (publish_op m id sid agent room kind content approach) s =
      (publish m id sid agent room kind content approach s).1
  apply_op (corroborate_op m sid agent post_id) s = (corroborate m sid agent post_id s).1
  apply_op (heartbeat_op m sid agent) s = (heartbeat m sid agent s).1
  apply_op (leave_op m sid) s = (leave m sid s).1
  apply_op (snapshot_op m sid) s = (snapshot m sid s).1
  apply_op (summary_op m sid) s = (summary_for_session m sid s).1
  apply_op (close_op m sid) s = (close m sid s).1
  apply_op (take_op m sid post_id) s = (take_post m sid post_id s).1
  apply_op (promoted_op m board_id post_id proposal_id) s =
      mark_promoted m board_id post_id proposal_id s
  apply_op (configure_op config) s = configure config s
  apply_op reset_op s = reset s

  unfoldable pub run_ops : List Op → LobbyStore → LobbyStore
  run_ops [] s = s
  run_ops (op ∷ ops) s = run_ops ops (apply_op op s)

  -- A board that is made has a new id, and a new limit is one that the boards keep.
  abbrev pub IsAllowed : Op → LobbyStore → Type 0
  IsAllowed (open_op m id sid agent task namespace room) s = IsNew id s
  IsAllowed (configure_op config) s =
      (k : String) (b : Board) → Dict.get s.boards k ≡ some b → fits config.max_agents b ≡ true
  IsAllowed _ s = Unit

  abbrev pub AllAllowed : List Op → LobbyStore → Type 0
  AllAllowed [] s = Unit
  AllAllowed (op ∷ ops) s = IsAllowed op s × AllAllowed ops (apply_op op s)

  settled :
      {A : Type 0} (out : Result A × LobbyStore) → Outcome {A = A} Kept Seated out → Seated out.1
  settled (ok a, s) k = k
  settled (err e, s) k = k

  apply_op-Seated : (op : Op) (s : LobbyStore) → IsAllowed op s → Seated s → Seated (apply_op op s)
  unfolding apply_op configure reset
  apply_op-Seated (open_op m id sid agent task namespace room) s new k =
      settled _ (open_board-Seated m id sid agent task namespace room s (k, new))
  apply_op-Seated (publish_op m id sid agent room kind content approach) s new k =
      settled _ (publish-Seated m id sid agent room kind content approach s k)
  apply_op-Seated (corroborate_op m sid agent post_id) s new k =
      settled _ (corroborate-Seated m sid agent post_id s k)
  apply_op-Seated (heartbeat_op m sid agent) s new k = settled _ (heartbeat-Seated m sid agent s k)
  apply_op-Seated (leave_op m sid) s new k = settled _ (leave-Seated m sid s k)
  apply_op-Seated (snapshot_op m sid) s new k = settled _ (snapshot-Seated m sid s k)
  apply_op-Seated (summary_op m sid) s new k = settled _ (summary-Seated m sid s k)
  apply_op-Seated (close_op m sid) s new k = settled _ (close-Seated m sid s k)
  apply_op-Seated (take_op m sid post_id) s new k = settled _ (take_post-Seated m sid post_id s k)
  apply_op-Seated (promoted_op m board_id post_id proposal_id) s new k =
      mark_promoted-Seated m board_id post_id proposal_id s k
  apply_op-Seated (configure_op config) s new k = record {
    keyed = k.keyed;
    named = k.named;
    distinct = k.distinct;
    seated = k.seated;
    alone = k.alone;
    fitting = new;
  }
  apply_op-Seated reset_op s new k = no_boards-IsSeated s.config.max_agents

  -- Every run of calls of the store keeps this, whether they return or raise, as long as each board that
  -- is made has a new id and a new limit is one that the boards keep: each board stands once, under
  -- its id; a session that has a seat has it at a board that is open and lists it among the
  -- participants; a session with a name is listed by no open board but the one where it has its seat;
  -- and no board has more participants than the limit.
  pub run_ops-Seated :
      (ops : List Op) (s : LobbyStore) → AllAllowed ops s → Seated s → Seated (run_ops ops s)
  unfolding run_ops
  run_ops-Seated [] s new k = k
  run_ops-Seated (op ∷ ops) s new k =
      run_ops-Seated ops (apply_op op s) new.1 (apply_op-Seated op s new.0 k)
