-- ===== src/Lobby/Operations.antt =====
-- The operations of embers/lobby/store.py on boards, posts and presence. What one call draws from
-- outside is passed to it: its readings of the clock, and the id of a board or a post that it makes.
use embers_diaries.Prelude.{
  ℕ, length, map_option, String, Bool, Option, none, some, List, [], ◌∷◌, ◌++◌, ◌==◌, ◌||◌, ◌&&◌,
  if◌then◌else◌, not, select, member, discard, find_first, get_or,
}
use embers_diaries.Dict
use embers_diaries.Dict.{Dict}
use embers_diaries.Core.Result.{
  ok, ◌>>=◌, value_error, Exec, pure, raise_if, gets, modify, require, ◌>>=◌, ◌>>◌,
}
use embers_diaries.Lobby.Board.{
  LobbyConfig, BoardStatus, Agent, Post, Presence, Board, View, touch, find_post, amend_post,
  is_same, has_corroborated, is_too_large, is_room, is_type,
}
use embers_diaries.Lobby.Store.{
  LobbyStore, Moments, TextMethods, post_published, post_corroborated, presence_updated,
  participant_left, post_promoted, closed, Closing, save, emit, board_for_session, require_board,
  check_capacity, show, enter, normal, is_for, join_board, new_board,
}

-- `x.strip() or None`
abbrev pub stripped : String → Option String
stripped s = if s == "" then none else some s

-- `post.get("promoted_to")` is falsy.
abbrev pub is_unpromoted : Post → Bool
is_unpromoted p = get_or p.promoted_to "" == ""

-- `_find_post`
unfoldable pub require_post : Moments → String → String → Exec LobbyStore (Board × Post)
require_post m session_id post_id = do
  board ← require_board m.checked session_id
  post ← require (find_post post_id board.posts) value_error
  pure (board, post)

-- `take_post`
unfoldable pub take_post : Moments → String → String → Exec LobbyStore Post
take_post m session_id post_id = do found ← require_post m session_id post_id; pure found.1

unfoldable pub heartbeat : Moments → String → String → Exec LobbyStore Presence
heartbeat m session_id agent_id = do
  board ← require_board m.checked session_id
  modify (save (touch m.seen session_id agent_id board))
  let presence : Presence = record {
    present = record { agent = agent_id; session = session_id };
    last_seen = m.seen;
  }
  modify (emit m.emitted board.board_id "lobby.presence_updated" (presence_updated presence))
  pure presence

-- A board without a session, its place among the participants and its presence.
abbrev pub without : String → Board → Board
without session_id board = record board {
  participants = discard session_id board.participants;
  presence = Dict.remove board.presence session_id;
}

unfoldable pub leave_board : Moments → String → Option Board → LobbyStore → LobbyStore
leave_board m session_id none s = s
leave_board m session_id (some board) s =
    emit m.emitted board.board_id "lobby.participant_left" (participant_left session_id)
      (record (save (without session_id board) s) {
        by_session = Dict.remove s.by_session session_id;
      })

-- `leave`
unfoldable pub leave : Moments → String → Exec LobbyStore (Unit {0})
leave m session_id = do
  found ← board_for_session m.checked session_id
  modify (leave_board m session_id found)

-- `snapshot`
unfoldable pub snapshot : Moments → String → Exec LobbyStore View
snapshot m session_id = do board ← require_board m.checked session_id; show m.shown board

-- What `summary_for_session` answers.
pub record Summary : Type 0 where
  pub board_id : String
  pub task : String
  pub namespace : String
  pub room : String
  pub status : BoardStatus
  pub post_count : ℕ

abbrev pub summary_of : Board → Summary
summary_of board = record {
  board_id = board.board_id;
  task = board.task;
  namespace = board.namespace;
  room = board.room;
  status = board.status;
  post_count = length board.posts;
}

-- `summary_for_session`
unfoldable pub summary_for_session : Moments → String → Exec LobbyStore (Option Summary)
summary_for_session m session_id s =
    if not s.config.enabled
    then (ok none, s)
    else (board_for_session m.checked session_id >>= λ found. pure (map_option summary_of found)) s

-- `mark_promoted`, of a post that `take_post` returned: a post that its board no longer holds is not
-- seen again.
unfoldable pub mark_promoted : Moments → String → String → String → LobbyStore → LobbyStore
mark_promoted m board_id post_id proposal_id s = elim (Dict.get s.boards board_id) [
  | none ↦ s
  | some board ↦
      emit m.emitted board.board_id "lobby.post_promoted" (post_promoted post_id proposal_id) (
        save
          (record board {
            posts =
                amend_post post_id (λ (p : Post). record p { promoted_to = some proposal_id })
                  board.posts;
          })
          s)
]

-- The loop of `close` over the participants.
unfoldable pub unseat : String → List String → Dict String → Dict String
unseat board_id [] d = d
unseat board_id (sid ∷ sids) d =
    unseat board_id sids (if get_or (Dict.get d sid) "" == board_id then Dict.remove d sid else d)

-- `close`
unfoldable pub close : Moments → String → Exec LobbyStore Closing
close m session_id = do
  board ← require_board m.checked session_id
  raise_if
      (not (member session_id board.participants) && not (board.opened_by.session == session_id))
      value_error
  let answer : Closing = record {
    closed_board = board.board_id;
    unpromoted_failures =
        select (λ (p : Post). (p.post_type == "failure") && is_unpromoted p) board.posts;
  }
  modify (save (record board { status = BoardStatus.closed }))
  modify (λ s. record s { by_session = unseat board.board_id board.participants s.by_session })
  modify (emit m.emitted board.board_id "lobby.closed" (closed answer))
  pure answer

-- The post stands on its board before the room of the board is checked.
unfoldable pub append_post : Moments → String → String → Board → Post → Exec LobbyStore Post
append_post m session_id agent_id board post = do
  let posted = record board { posts = board.posts ++ post ∷ [] }
  modify (save posted)
  check_capacity posted session_id
  seated ← enter m.seen session_id agent_id posted
  modify (emit m.emitted board.board_id "lobby.post_published" (post_published post))
  pure post

module _ ⦃text : TextMethods⦄ where
  unfoldable pub reopen :
      Moments
      → String
      → String
      → String
      → Option Board
      → String
      → String
      → String
      → Exec LobbyStore View
  reopen m id session_id agent_id (some board) task namespace room = do
    let seen = touch m.seen session_id agent_id board
    modify (save seen)
    show m.shown seen
  reopen m id session_id agent_id none task namespace room = do
    same ← gets (λ s. find_first (is_for task namespace room) (Dict.values s.boards))
    λ s. elim same [
      | some board ↦ join_board m session_id agent_id board s
      | none ↦ new_board m id session_id agent_id task namespace room s
    ]

  -- `open`
  unfoldable pub open_board :
      Moments → String → String → String → String → String → String → Exec LobbyStore View
  open_board m id session_id agent_id task namespace room = do
    on ← gets (λ s. s.config.enabled)
    raise_if (not on) value_error
    raise_if (not (is_room (normal room))) value_error
    raise_if (text.strip task == "") value_error
    existing ← board_for_session m.checked session_id
    reopen m id session_id agent_id existing (text.strip task) namespace (normal room)

  -- The tests of `publish`, which all raise the same error.
  abbrev pub is_refused : LobbyConfig → Board → String → String → String → Bool
  is_refused config board room kind body =
      not (is_room room)
      || not (room == board.room)
      || not (is_type kind)
      || (body == "")
      || is_too_large config body

  abbrev pub new_post :
      Moments → String → String → String → Board → String → String → String → Option String → Post
  new_post m id session_id agent_id board room post_type body approach = record {
    post_id = id;
    board_id = board.board_id;
    author = record { agent = agent_id; session = session_id };
    room = room;
    post_type = post_type;
    body = body;
    approach = stripped (text.strip (get_or approach ""));
    corroborations = [];
    promoted_to = none;
    created_at = m.made;
  }

  -- `publish`
  unfoldable pub publish :
      Moments
      → String
      → String
      → String
      → String
      → String
      → String
      → Option String
      → Exec LobbyStore Post
  publish m id session_id agent_id room post_type body approach = do
    board ← require_board m.checked session_id
    config ← gets (λ s. s.config)
    raise_if (is_refused config board (normal room) (normal post_type) (text.strip body))
        value_error
    append_post m session_id agent_id board (
        new_post m id session_id agent_id board (normal room) (normal post_type) (text.strip body)
          approach)

-- The corroboration of a post that is not one's own and not corroborated before.
unfoldable pub add_corroboration : Moments → Agent → Board → Post → Exec LobbyStore Post
add_corroboration m who board post = do
  check_capacity board who.session
  let done = record post {
    corroborations =
        post.corroborations ++ record { by_agent = who; corroborated_at = m.made } ∷ [];
  }
  let amended = record board { posts = amend_post post.post_id (λ p. done) board.posts }
  modify (save amended)
  seated ← enter m.seen who.session who.agent amended
  modify (emit m.emitted board.board_id "lobby.post_corroborated" (post_corroborated done who))
  pure done

-- `corroborate`
unfoldable pub corroborate : Moments → String → String → String → Exec LobbyStore Post
corroborate m session_id agent_id post_id = do
  let who : Agent = record { agent = agent_id; session = session_id }
  found ← require_post m session_id post_id
  raise_if (is_same found.1.author who) value_error
  if has_corroborated who found.1 then pure found.1 else add_corroboration m who found.0 found.1
