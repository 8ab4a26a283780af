-- ===== src/Lobby/Tests.antt =====
-- Runs of the lobby: the theorems at concrete calls.
use embers_diaries.Prelude.{
  ℕ, ◌≤◌, ◌<◌, String, true, false, none, List, [], ◌∷◌, ◌≡◌, refl, arith, ◌||◌,
}
use embers_diaries.Dict
use embers_diaries.Lobby.Realtime.{Event, LobbySubscription, LobbyEventBroker, schedule, subscribe}
use embers_diaries.Lobby.Announced.{
  Client, Steps, publishes, none_left, then_on, has, resync_after, IsInformed,
}
use embers_diaries.Lobby.Delivery.{joined, Steps-Informed, catch_up, catch_up-received, waiting}
use embers_diaries.Lobby.Board.{LobbyConfig}
use embers_diaries.Lobby.Store.{LobbyStore, Moments, TextMethods}
use embers_diaries.Lobby.Operations.{publish, close}
use embers_diaries.Lobby.Membership.{Seated}
use embers_diaries.Lobby.Runs.{
  Op, open_op, publish_op, heartbeat_op, run_ops, run_ops-Seated, no_boards-IsSeated,
}
use embers_diaries.Lobby.Effects.{Published, publish-Published, Closed, close-Closed}

-- Texts that need no stripping.
instance abbrev plain : TextMethods
plain = record { strip = λ (s : String). s; lower = λ (s : String). s }

abbrev no_events : {D : Type 0} → LobbyEventBroker D
no_events = record { queue_size = 2; sequences = []; subscribers = []; objects = [] }

abbrev event : ℕ → Event String
event n = record {
  kind = "posted";
  board_id = "b";
  sequence = n;
  occurred_at = 0;
  payload = "";
  resync_required = false;
}

abbrev fresh_subscription : LobbySubscription String
fresh_subscription = record { subscribed_to = "b"; queue = []; scheduled = []; loop_closed = false }

-- Two events reach a queue with one place.
abbrev once : Client String
once = record { subscription = schedule (event 1) fresh_subscription; received = []; published = 1 }

abbrev twice : Client String
twice = record {
  subscription = schedule (event 2) (schedule (event 1) fresh_subscription);
  received = [];
  published = 2;
}

abbrev two_steps : Steps 1 (joined fresh_subscription 0) twice
two_steps =
    then_on (publishes (event 1) refl refl) (then_on (publishes (event 2) refl refl) none_left)

Steps-Informed_example : IsInformed 1 0 twice
Steps-Informed_example = Steps-Informed 1 0 fresh_subscription twice refl refl two_steps

catch_up-received_example :
    (waiting (catch_up 1 2 twice) ≡ 0)
    × ((catch_up 1 2 twice).published ≡ 2)
    × ((m : ℕ)
        → 0 < m
        → m ≤ 2
        → (has m (catch_up 1 2 twice).received || resync_after m (catch_up 1 2 twice).received)
          ≡ true)
catch_up-received_example =
    catch_up-received 1 0 2 twice (Steps-Informed 1 0 fresh_subscription twice refl refl two_steps)
      (omega arith)

abbrev watched : LobbyEventBroker String
watched = subscribe "k" "b" no_events

abbrev config : LobbyConfig
config = record {
  enabled = true;
  max_agents = 2;
  message_ttl_seconds = 60;
  presence_timeout_seconds = 60;
  heartbeat_interval_seconds = 20;
  max_message_bytes = 0;
}

abbrev no_boards : LobbyStore
no_boards = record { config = config; boards = []; by_session = []; events = no_events }

abbrev moments : Moments
moments = record { checked = 1; made = 2; seen = 3; shown = 4; emitted = 5 }

-- Ada opens a board, posts and is seen again.
abbrev visits : List Op
visits =
    open_op moments "b" "s" "ada" "parse" "" "task"
    ∷ publish_op moments "p" "s" "ada" "task" "failure" "it loops" none
    ∷ heartbeat_op moments "s" "ada"
    ∷ []

run_ops-Seated_example : Seated (run_ops visits no_boards)
unfolding Dict.get
run_ops-Seated_example =
    run_ops-Seated visits no_boards ((refl, refl), (tt, (tt, tt))) (no_boards-IsSeated 2)

abbrev visited : LobbyStore
visited = run_ops visits no_boards

visited-Seated : Seated visited
unfolding Dict.get
visited-Seated =
    run_ops-Seated visits no_boards ((refl, refl), (tt, (tt, tt))) (no_boards-IsSeated 2)

publish-Published_example :
    let (result, t) = publish moments "q" "s" "ada" "task" "question" "why" none visited in
    Published visited t moments "s" result
publish-Published_example =
    let out = publish moments "q" "s" "ada" "task" "question" "why" none visited in
    publish-Published moments "q" "s" "ada" "task" "question" "why" none visited out.1 out.0
      visited-Seated refl

close-Closed_example :
    let (result, t) = close moments "s" visited in Closed visited t moments "s" result
close-Closed_example =
    let out = close moments "s" visited in
    close-Closed moments "s" visited out.1 out.0 visited-Seated refl
