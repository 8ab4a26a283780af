-- ===== src/Lobby/Store.antt =====
-- embers/lobby/store.py: the store of boards and its operations. Each runs under the lock of the store.
-- A board is an object in the table of boards, under its id; the operations change it in place, and
-- `save` writes each change through.
use embers_diaries.Prelude.{
  String, Bool, Option, none, some, List, [], ◌∷◌, ◌==◌, ◌&&◌, if◌then◌else◌, not, add,
}
use embers_diaries.Dict
use embers_diaries.Dict.{Dict}
use embers_diaries.Core.Record.{Time}
use embers_diaries.Core.Result.{
  value_error, ok, err, Exec, pure, raise_if, modify, require, ◌>>=◌, ◌>>◌,
}
use embers_diaries.Lobby.Realtime
use embers_diaries.Lobby.Realtime.{LobbyEventBroker}
use embers_diaries.Lobby.Board.{
  LobbyConfig, BoardStatus, is_open, Agent, Post, Presence, Board, View, expire_posts, touch,
  has_room, view,
}

-- What `close` answers.
pub record Closing : Type 0 where
  pub closed_board : String
  pub unpromoted_failures : List Post

-- The data of the events.
pub data Notice : Type 0 where
  participant_joined : Agent → Notice
  opened : View → Notice
  post_published : Post → Notice
  post_corroborated : Post → Agent → Notice
  presence_updated : Presence → Notice
  participant_left : String → Notice
  post_promoted : String → String → Notice
  closed : Closing → Notice

pub record LobbyStore : Type 0 where
  pub config : LobbyConfig
  pub boards : Dict Board
  pub by_session : Dict String
  pub events : LobbyEventBroker Notice

-- The readings of the clock that one call takes, in their order.
pub record Moments : Type 0 where
  pub checked : Time
  pub made : Time
  pub seen : Time
  pub shown : Time
  pub emitted : Time

-- `str.strip` and `str.lower`, of Python's library.
pub record TextMethods : Type 0 where
  pub strip : String → String
  pub lower : String → String

abbrev pub save : Board → LobbyStore → LobbyStore
save board s = record s { boards = Dict.put s.boards board.board_id board }

-- `_emit`
abbrev pub emit : Time → String → String → Notice → LobbyStore → LobbyStore
emit now board_id kind notice s = record s {
  events = (Realtime.publish board_id kind notice now s.events).1;
}

unfoldable pub configure : LobbyConfig → LobbyStore → LobbyStore
configure config s = record s { config = config }

unfoldable pub reset : LobbyStore → LobbyStore
reset s = record s { boards = []; by_session = []; events = Realtime.reset s.events }

-- The board of a session that is open, as it stands.
unfoldable pub current_board : LobbyStore → String → Option Board
current_board s session_id = elim (Dict.get s.by_session session_id) [
  | none ↦ none
  | some id ↦ if id == "" then none else elim (Dict.get s.boards id) [
    | none ↦ none
    | some board ↦ if is_open board.status then some board else none
  ]
]

-- `board_for_session`; the empty text stands for no session.
unfoldable pub board_for_session : Time → String → Exec LobbyStore (Option Board)
unfolding current_board
board_for_session now session_id s =
    if not s.config.enabled
    then (err value_error, s)
    else if session_id == ""
    then (ok none, s)
    else elim (current_board s session_id) [
      | none ↦ (ok none, s)
      | some board ↦ let fresh = expire_posts s.config now board in (ok (some fresh), save fresh s)
    ]

unfoldable pub require_board : Time → String → Exec LobbyStore Board
require_board now session_id = do
  found ← board_for_session now session_id
  require found value_error

abbrev pub check_capacity : Board → String → Exec LobbyStore (Unit {0})
check_capacity board session_id s =
    raise_if (not (has_room s.config board session_id)) value_error s

-- `_public`, which expires the posts of the board once more.
abbrev pub show : Time → Board → Exec LobbyStore View
show now board s =
    let fresh = expire_posts s.config now board in (ok (view s.config now fresh), save fresh s)

-- The session joins the board, and is seen there.
unfoldable pub enter : Time → String → String → Board → Exec LobbyStore Board
enter now session_id agent_id board s =
    let seated =
      touch now session_id agent_id
        (record board { participants = add session_id board.participants }) in
    (
      ok seated,
      record (save seated s) { by_session = Dict.put s.by_session session_id board.board_id },
    )

module _ ⦃text : TextMethods⦄ where
  abbrev pub normal : String → String
  normal s = text.lower (text.strip s)

abbrev pub namespace_or_default : String → String
namespace_or_default namespace = if namespace == "" then "default" else namespace

abbrev pub is_for : String → String → String → Board → Bool
is_for task namespace room board =
    is_open board.status
    && (board.task == task)
    && (board.namespace == namespace_or_default namespace)
    && (board.room == room)

-- `open`, which draws the id of a board that it makes.
unfoldable pub join_board : Moments → String → String → Board → Exec LobbyStore View
join_board m session_id agent_id board = do
  check_capacity board session_id
  seated ← enter m.seen session_id agent_id board
  joined ← show m.shown seated
  modify (
      emit m.emitted board.board_id "lobby.participant_joined"
        (participant_joined (record { agent = agent_id; session = session_id })))
  pure joined

unfoldable pub new_board :
    Moments → String → String → String → String → String → String → Exec LobbyStore View
new_board m id session_id agent_id task namespace room = do
  let board : Board = record {
    board_id = id;
    task = task;
    namespace = namespace_or_default namespace;
    room = room;
    status = BoardStatus.opened;
    opened_by = record { agent = agent_id; session = session_id };
    participants = session_id ∷ [];
    posts = [];
    presence = [];
    opened_at = m.made;
  }
  seated ← enter m.seen session_id agent_id board
  shown ← show m.shown seated
  modify (emit m.emitted id "lobby.opened" (opened shown))
  pure shown
