-- ===== src/Lobby/Calls.antt =====
-- Who sits where after an operation of embers/lobby/store.py, whether it returns or raises.
use embers_diaries.Prelude.{
  Bool-cases, inl, inr, map_option, String, true, Option, none, some, ◌≡◌, refl, arith, ◌==◌, ◌&&◌,
  not, member, length-discard,
}
use embers_diaries.Dict
use embers_diaries.Dict.{Dict}
use embers_diaries.Core.Result.{value_error, pure, raise_if, modify, require, ◌>>=◌}
use embers_diaries.Core.Triples.{Outcome, Triple, Triple_then}
use embers_diaries.Lobby.Board.{BoardStatus, Board, Post, touch, find_post}
use embers_diaries.Lobby.Store.{LobbyStore, Moments, board_for_session, require_board}
use embers_diaries.Lobby.Operations.{
  summary_for_session, summary_of, require_post, take_post, heartbeat, leave, leave_board, without,
  snapshot, close, unseat,
}
use embers_diaries.Lobby.Seats.{Moves-IsSeated, fits}
use embers_diaries.Lobby.Seating.{leave-Moves, close-Moves}
use embers_diaries.Lobby.Membership.{
  Seated, At, Found, save-At, board_for_session-Triple, require_board-Triple, raise_if-Triple,
  show-Triple,
}

abbrev pub Kept : {A : Type 0} → A → LobbyStore → Type 0
Kept a = Seated

pub require_post-Triple :
    (m : Moments) (sid post_id : String)
    → Triple Seated (require_post m sid post_id) (λ found. At sid found.0) Seated
unfolding require_post
require_post-Triple m sid post_id =
    Triple_then Seated (At sid) (λ (found : Board × Post). At sid found.0) Seated
      (require_board m.checked sid) _ (require_board-Triple m.checked sid)
      (λ b s k.
        elim (find_post post_id b.posts)
          as (λ o.
            Outcome (λ (found : Board × Post). At sid found.0) Seated
              ((require o value_error >>= λ post. pure (b, post)) s)) [ none ↦ k.0 | some p ↦ k ])

pub heartbeat-Seated :
    (m : Moments) (sid agent : String) → Triple Seated (heartbeat m sid agent) Kept Seated
unfolding heartbeat
heartbeat-Seated m sid agent =
    Triple_then Seated (At sid) Kept Seated (require_board m.checked sid) _
      (require_board-Triple m.checked sid)
      (λ b s k. (save-At sid b (touch m.seen sid agent b) s refl refl refl k).0)

pub snapshot-Seated : (m : Moments) (sid : String) → Triple Seated (snapshot m sid) Kept Seated
unfolding snapshot
snapshot-Seated m sid =
    Triple_then Seated (At sid) Kept Seated (require_board m.checked sid) _
      (require_board-Triple m.checked sid) (show-Triple m.shown sid)

pub take_post-Seated :
    (m : Moments) (sid post_id : String) → Triple Seated (take_post m sid post_id) Kept Seated
unfolding take_post
take_post-Seated m sid post_id =
    Triple_then Seated (λ (found : Board × Post). At sid found.0) Kept Seated
      (require_post m sid post_id) _ (require_post-Triple m sid post_id) (λ found s k. k.0)

pub summary-Seated :
    (m : Moments) (sid : String) → Triple Seated (summary_for_session m sid) Kept Seated
unfolding summary_for_session
summary-Seated m sid s k = elim (Bool-cases s.config.enabled) [
  | inr e ↦ simp e k
  | inl e ↦ simp e (
      Triple_then Seated (Found sid) Kept Seated (board_for_session m.checked sid)
        (λ found. pure (map_option summary_of found)) (board_for_session-Triple m.checked sid)
        seated s k)
]
  where
    seated : (o : Option Board) → Triple (Found sid o) (pure (map_option summary_of o)) Kept Seated
    seated none t q = q.0
    seated (some b) t q = q.0

pub leave-Seated : (m : Moments) (sid : String) → Triple Seated (leave m sid) Kept Seated
unfolding leave leave_board
leave-Seated m sid =
    Triple_then Seated (Found sid) Kept Seated (board_for_session m.checked sid) _
      (board_for_session-Triple m.checked sid) left
  where
    left : (o : Option Board) → Triple (Found sid o) (modify (leave_board m sid o)) Kept Seated
    left none s k = k.0
    left (some b) s (seated, there, opened, seat) =
        let c = without sid b in
        let fit : fits s.config.max_agents c ≡ true =
          ground (arith, seated.fitting b.board_id b there, length-discard sid b.participants) in
        Moves-IsSeated s.config.max_agents s.boards s.by_session c (Dict.remove s.by_session sid)
          (leave-Moves s.config.max_agents s.boards s.by_session seated b c sid there seat refl refl
            fit)
          seated

pub close-Seated : (m : Moments) (sid : String) → Triple Seated (close m sid) Kept Seated
unfolding close
close-Seated m sid =
    Triple_then Seated (At sid) Kept Seated (require_board m.checked sid) _
      (require_board-Triple m.checked sid)
      (λ b.
        Triple_then (At sid b) (λ _. At sid b) Kept Seated
          (raise_if (not (member sid b.participants) && not (b.opened_by.session == sid))
            value_error)
          _ (raise_if-Triple (At sid b) _ value_error (λ s k. k.0))
          (λ _ s k.
            let c = record b { status = BoardStatus.closed } in
            Moves-IsSeated s.config.max_agents s.boards s.by_session c
              (unseat b.board_id b.participants s.by_session)
              (close-Moves s.config.max_agents s.boards s.by_session k.0 b c k.1 refl refl) k.0))
