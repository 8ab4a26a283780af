-- ===== src/Lobby/Board.antt =====
-- The boards of embers/lobby/store.py and the helpers that read or change one board. Times count
-- microseconds.
use embers_diaries.Prelude.{
  ℕ, ◌-◌, ◌*◌, String, Bool, true, false, Option, List, [], ◌∷◌, ◌==◌, ◌||◌, ◌&&◌, if◌then◌else◌,
  not, leb, nat_eq, ltb, length, select, member, map, any_of, find_first,
}
use Prim.Native.String.{compare as compare_text, len}
use text.Mathlib.Text.{is_le}
use embers_diaries.Dict
use embers_diaries.Dict.{Dict}
use embers_diaries.Core.Record.{Time}

-- The section `lobby` of the configuration; 0 stands for no limit.
pub record LobbyConfig : Type 0 where
  pub enabled : Bool
  pub max_agents : ℕ
  pub message_ttl_seconds : ℕ
  pub presence_timeout_seconds : ℕ
  pub heartbeat_interval_seconds : ℕ
  pub max_message_bytes : ℕ

-- `"open"` and `"closed"`.
pub data BoardStatus : Type 0 where
  opened closed : BoardStatus

abbrev pub is_open : BoardStatus → Bool
is_open BoardStatus.opened = true
is_open BoardStatus.closed = false

pub record Agent : Type 0 where
  pub agent : String
  pub session : String

pub record Corroboration : Type 0 where
  pub by_agent : Agent
  pub corroborated_at : Time

pub record Post : Type 0 where
  pub post_id : String
  pub board_id : String
  pub author : Agent
  pub room : String
  pub post_type : String
  pub body : String
  pub approach : Option String
  pub corroborations : List Corroboration
  pub promoted_to : Option String
  pub created_at : Time

pub record Presence : Type 0 where
  pub present : Agent
  pub last_seen : Time

pub record Board : Type 0 where
  pub board_id : String
  pub task : String
  pub namespace : String
  pub room : String
  pub status : BoardStatus
  pub opened_by : Agent
  pub participants : List String
  pub posts : List Post
  pub presence : Dict Presence
  pub opened_at : Time

-- What `_public` shows of a board.
pub record View : Type 0 where
  pub shown_id : String
  pub shown_task : String
  pub shown_namespace : String
  pub shown_room : String
  pub shown_status : BoardStatus
  pub shown_opened_by : Agent
  pub shown_participants : List String
  pub shown_presence : List (Presence × String)
  pub shown_interval : ℕ
  pub shown_posts : List Post

-- `sorted(xs, key=key)`, which is stable.
module _ {A : Type 0} (key : A → String) where
  unfoldable pub insert_by : A → List A → List A
  insert_by a [] = a ∷ []
  insert_by a (x ∷ xs) =
      let rest = insert_by a xs in
      if is_le (compare_text (key a) (key x)) then a ∷ x ∷ xs else x ∷ rest

  unfoldable pub sorted : List A → List A
  sorted [] = []
  sorted (x ∷ xs) = insert_by x (sorted xs)

-- `now - then`, in seconds, is at most a number of them. A time that is still to come passes.
abbrev pub within : Time → Time → ℕ → Bool
within now then_ seconds = leb (now - then_) (seconds * 1000000)

-- `_expire_posts`
unfoldable pub expire_posts : LobbyConfig → Time → Board → Board
expire_posts config now board =
    let ttl = config.message_ttl_seconds in
    if nat_eq ttl 0
    then board
    else record board { posts = select (λ (p : Post). within now p.created_at ttl) board.posts }

-- `_touch`
abbrev pub touch : Time → String → String → Board → Board
touch now session_id agent_id board = record board {
  presence =
      Dict.put board.presence session_id
        (record { present = record { agent = agent_id; session = session_id }; last_seen = now });
}

-- `_check_capacity`
unfoldable pub has_room : LobbyConfig → Board → String → Bool
has_room config board session_id =
    nat_eq config.max_agents 0
    || member session_id board.participants
    || ltb (length board.participants) config.max_agents

abbrev pub with_status : LobbyConfig → Time → Presence → Presence × String
with_status config now p =
    (p, if within now p.last_seen config.presence_timeout_seconds then "online" else "stale")

-- `_public`, of a board whose posts have been expired.
unfoldable pub view : LobbyConfig → Time → Board → View
view config now board = record {
  shown_id = board.board_id;
  shown_task = board.task;
  shown_namespace = board.namespace;
  shown_room = board.room;
  shown_status = board.status;
  shown_opened_by = board.opened_by;
  shown_participants = sorted (λ s. s) board.participants;
  shown_presence =
      sorted (λ (p : Presence × String). p.0.present.session)
        (map (with_status config now) (Dict.values board.presence));
  shown_interval = config.heartbeat_interval_seconds;
  shown_posts = board.posts;
}

-- The post that a loop over the posts finds, and that post changed in place.
abbrev pub find_post : String → List Post → Option Post
find_post post_id posts = find_first (λ (p : Post). p.post_id == post_id) posts

unfoldable pub amend_post : String → (Post → Post) → List Post → List Post
amend_post post_id change [] = []
amend_post post_id change (p ∷ posts) =
    let rest = amend_post post_id change posts in
    if p.post_id == post_id then change p ∷ posts else p ∷ rest

-- Whether an author, or one who corroborated, is the same session or the same agent.
abbrev pub is_same : Agent → Agent → Bool
is_same a b = (a.session == b.session) || (a.agent == b.agent)

abbrev pub has_corroborated : Agent → Post → Bool
has_corroborated who p = any_of (λ (c : Corroboration). is_same c.by_agent who) p.corroborations

-- `len(body.encode("utf-8"))` against the limit.
abbrev pub is_too_large : LobbyConfig → String → Bool
is_too_large config body =
    not (nat_eq config.max_message_bytes 0) && ltb config.max_message_bytes (len body)

abbrev pub is_room : String → Bool
is_room room = (room == "project") || (room == "task")

abbrev pub is_type : String → Bool
is_type kind = (kind == "failure") || (kind == "discovery") || (kind == "question")
