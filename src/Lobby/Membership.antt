-- ===== src/Lobby/Membership.antt =====
-- What the steps of the operations of embers/lobby/store.py leave: who sits where.
use embers_diaries.Prelude.{
  String, Bool, true, false, Option, none, some, ◌≡◌, arith, ◌==◌, ◌⊎◌, inl, inr, ◌∙◌, sym, ap,
  subst, Option-cases, Bool-cases,
}
use embers_diaries.Dict
use embers_diaries.Dict.{Dict}
use embers_diaries.Core.Record.{Time}
use embers_diaries.Core.Result.{Error, value_error, ok, raise_if, modify, require}
use embers_diaries.Core.Triples.{Outcome, Triple, Triple_then}
use embers_diaries.Lobby.Board.{is_open, Board, expire_posts, has_room}
use embers_diaries.Lobby.Store.{
  LobbyStore, save, current_board, board_for_session, require_board, check_capacity, show,
}
use embers_diaries.Lobby.Seats.{IsSeated, Moves-IsSeated, named_board}
use embers_diaries.Lobby.Seating.{same-Moves}

abbrev pub Seated : LobbyStore → Type 0
Seated s = IsSeated s.config.max_agents s.boards s.by_session

-- The session has its seat at the board, which is open and stands in the store as it is.
abbrev pub At : String → Board → LobbyStore → Type 0
At sid b s =
    Seated s
    × (Dict.get s.boards b.board_id ≡ some b)
    × (is_open b.status ≡ true)
    × (Dict.get s.by_session sid ≡ some b.board_id)

-- The session has no seat.
abbrev pub Free : String → LobbyStore → Type 0
Free sid s = Seated s × (((sid == "") ≡ true) ⊎ (Dict.get s.by_session sid ≡ none))

abbrev pub Found : String → Option Board → LobbyStore → Type 0
Found sid none s = Free sid s
Found sid (some b) s = At sid b s

expire_posts_seats :
    (s : LobbyStore) (now : Time) (b : Board)
    → ((expire_posts s.config now b).board_id ≡ b.board_id)
      × ((expire_posts s.config now b).status ≡ b.status)
      × ((expire_posts s.config now b).participants ≡ b.participants)
unfolding expire_posts
expire_posts_seats s now b = ground arith

-- A board is saved whose seats are as before.
pub save-At :
    (sid : String) (a b : Board) (s : LobbyStore)
    → b.board_id ≡ a.board_id
    → b.status ≡ a.status
    → b.participants ≡ a.participants
    → At sid a s
    → At sid b (save b s)
save-At sid a b s same status seats (seated, there, opened, seat) =
    let found : Dict.get s.boards b.board_id ≡ some a = ap (Dict.get s.boards) same ∙ there in
    (
      Moves-IsSeated s.config.max_agents s.boards s.by_session b s.by_session
          (same-Moves s.config.max_agents s.boards s.by_session seated a b found status seats)
          seated,
      Dict.get-put_self s.boards b.board_id b,
      ap is_open status ∙ opened,
      seat ∙ ap some (sym same),
    )

-- The board of a session in the table of seats, as `board_for_session` looks it up.
current_board_absent :
    (sid : String) (s : LobbyStore) → Dict.get s.by_session sid ≡ none → current_board s sid ≡ none
unfolding current_board
current_board_absent sid s e = ground (arith, e)

current_board_present :
    (sid id : String) (b : Board) (s : LobbyStore)
    → Dict.get s.by_session sid ≡ some id
    → (id == "") ≡ false
    → Dict.get s.boards id ≡ some b
    → is_open b.status ≡ true
    → current_board s sid ≡ some b
unfolding current_board
current_board_present sid id b s e n there opened = ground (arith, e, n, there, opened)

current_board-Found : (sid : String) (s : LobbyStore) → Seated s → Found sid (current_board s sid) s
current_board-Found sid s k = elim (Option-cases (Dict.get s.by_session sid)) [
  | inl e ↦ subst (λ o. Found sid o s) (sym (current_board_absent sid s e)) (k, inr e)
  | inr (id, e) ↦
      let (b, there, opened, listed) = k.seated sid id e in
      let name = named_board s.config.max_agents s.boards s.by_session id b k there in
      let key = k.keyed id b there in
      subst (λ o. Found sid o s) (sym (current_board_present sid id b s e name there opened))
        (k, ap (Dict.get s.boards) key ∙ there, opened, e ∙ ap some (sym key))
]

expired-At :
    (now : Time) (sid : String) (b : Board) (s : LobbyStore)
    → At sid b s
    → At sid (expire_posts s.config now b) (save (expire_posts s.config now b) s)
expired-At now sid b s k =
    let (same, status, seats) = expire_posts_seats s now b in
    save-At sid b (expire_posts s.config now b) s same status seats k

pub board_for_session-Triple :
    (now : Time) (sid : String) → Triple Seated (board_for_session now sid) (Found sid) Seated
unfolding board_for_session
board_for_session-Triple now sid s k = elim (Bool-cases s.config.enabled) [
  | inr e ↦ rw e k
  | inl e ↦ elim (Bool-cases (sid == "")) [
    | inl f ↦ rw (e, f) (k, inl f)
    | inr f ↦ rw (e, f) (by_board (current_board s sid) (current_board-Found sid s k))
  ]
]
  where
    by_board :
        (o : Option Board)
        → Found sid o s
        → Outcome (Found sid) Seated (elim o [
          | none ↦ (ok none, s)
          | some board ↦
              let fresh = expire_posts s.config now board in (ok (some fresh), save fresh s)
        ])
    by_board none p = p
    by_board (some b) p = expired-At now sid b s p

require-Triple :
    (sid : String) (o : Option Board) → Triple (Found sid o) (require o value_error) (At sid) Seated
require-Triple sid none s k = k.0
require-Triple sid (some b) s k = k

pub require_board-Triple :
    (now : Time) (sid : String) → Triple Seated (require_board now sid) (At sid) Seated
unfolding require_board
require_board-Triple now sid =
    Triple_then Seated (Found sid) (At sid) Seated (board_for_session now sid) _
      (board_for_session-Triple now sid) (require-Triple sid)

-- A test that raises changes nothing.
pub raise_if-Triple :
    (P : LobbyStore → Type 0) (test : Bool) (e : Error)
    → ((s : LobbyStore) → P s → Seated s)
    → Triple P (raise_if test e) (λ _. P) Seated
raise_if-Triple P true e f s p = f s p
raise_if-Triple P false e f s p = p

pub check_capacity-Triple :
    (P : LobbyStore → Type 0) (b : Board) (sid : String)
    → ((s : LobbyStore) → P s → Seated s)
    → Triple P (check_capacity b sid) (λ _ s. P s × (has_room s.config b sid ≡ true)) Seated
check_capacity-Triple P b sid f s p = elim (Bool-cases (has_room s.config b sid)) [
  | inl e ↦ rw e (p, e)
  | inr e ↦ rw e (f s p)
]

pub save-Triple :
    (sid : String) (a b : Board)
    → b.board_id ≡ a.board_id
    → b.status ≡ a.status
    → b.participants ≡ a.participants
    → Triple (At sid a) (modify (save b)) (λ _. At sid b) Seated
save-Triple sid a b same status seats s k = save-At sid a b s same status seats k

pub show-Triple :
    (now : Time) (sid : String) (b : Board) → Triple (At sid b) (show now b) (λ _. Seated) Seated
show-Triple now sid b s k = (expired-At now sid b s k).0
