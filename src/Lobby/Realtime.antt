-- ===== src/Lobby/Realtime.antt =====
-- embers/lobby/realtime.py: the fan-out of lobby events. A subscription is an object of its own, which
-- the table of subscribers names by its id; `scheduled` holds the calls of `_enqueue` that its event
-- loop has taken (`call_soon_threadsafe`) and not made yet, and `loop_closed` says that the loop takes
-- no more. `D` is the data of an event, a value that nothing changes.
use embers_diaries.Prelude.{
  ℕ, ◌+◌, String, Bool, true, false, Option, none, some, List, [], ◌∷◌, ◌++◌, if◌then◌else◌, not,
  ◌&&◌, length, add, discard, get_or, nat_eq, leb,
}
use embers_diaries.Dict
use embers_diaries.Dict.{Dict}
use embers_diaries.Core.Record.{Time}

module _ (D : Type 0) where
  pub record Event : Type 0 where
    pub kind : String
    pub board_id : String
    pub sequence : ℕ
    pub occurred_at : Time
    pub payload : D
    pub resync_required : Bool

  pub record LobbySubscription : Type 0 where
    pub subscribed_to : String
    pub queue : List Event
    pub scheduled : List Event
    pub loop_closed : Bool

  pub record LobbyEventBroker : Type 0 where
    pub queue_size : ℕ
    pub sequences : Dict ℕ
    pub subscribers : Dict (List String)
    pub objects : Dict LobbySubscription

module _ {D : Type 0} where
  -- `asyncio.Queue.full`: a size of 0 means no bound.
  abbrev pub is_full : ℕ → List (Event D) → Bool
  is_full size queue = not (nat_eq size 0) && leb size (length queue)

  -- `queue.get_nowait()`, its value thrown away.
  abbrev pub drop_oldest : List (Event D) → List (Event D)
  drop_oldest [] = []
  drop_oldest (e ∷ queue) = queue

  -- `_enqueue`. After the oldest event is thrown away there is room.
  unfoldable pub queue_after : ℕ → List (Event D) → Event D → List (Event D)
  queue_after size queue e =
      if is_full size queue
      then drop_oldest queue ++ record e { resync_required = true } ∷ []
      else queue ++ e ∷ []

  abbrev pub enqueue : ℕ → LobbySubscription D → Event D → LobbySubscription D
  enqueue size x e = record x { queue = queue_after size x.queue e }

  abbrev pub schedule : Event D → LobbySubscription D → LobbySubscription D
  schedule e x = record x { scheduled = x.scheduled ++ e ∷ [] }

  -- The event loop makes the call that it took first.
  unfoldable pub run_callback : ℕ → LobbySubscription D → LobbySubscription D
  run_callback size x = elim x.scheduled [
    | [] ↦ x
    | e ∷ rest ↦ enqueue size (record x { scheduled = rest }) e
  ]

  -- `LobbySubscription.get`, which waits as long as the queue is empty.
  unfoldable pub take : LobbySubscription D → Option (Event D) × LobbySubscription D
  take x = elim x.queue [ [] ↦ (none, x) | e ∷ rest ↦ (some e, record x { queue = rest }) ]

  abbrev pub subscribers_of : LobbyEventBroker D → String → List String
  subscribers_of b board_id = get_or (Dict.get b.subscribers board_id) []

  -- `subscribe`, under the id that it draws.
  unfoldable pub subscribe : String → String → LobbyEventBroker D → LobbyEventBroker D
  subscribe id board_id b = record b {
    subscribers = Dict.put b.subscribers board_id (add id (subscribers_of b board_id));
    objects =
        Dict.put b.objects id
          (record { subscribed_to = board_id; queue = []; scheduled = []; loop_closed = false });
  }

  -- `unsubscribe`; the object itself lives on.
  unfoldable pub unsubscribe : String → String → LobbyEventBroker D → LobbyEventBroker D
  unsubscribe id board_id b = elim (Dict.get b.subscribers board_id) [
    | none ↦ b
    | some ids ↦ record b {
      subscribers = elim (discard id ids) [
        | [] ↦ Dict.remove b.subscribers board_id
        | rest ↦ Dict.put b.subscribers board_id rest
      ];
    }
  ]

  unfoldable pub current_sequence : LobbyEventBroker D → String → ℕ
  current_sequence b board_id = get_or (Dict.get b.sequences board_id) 0

  -- One round of the loop of `publish`: a loop that is closed raises, and its subscription goes.
  unfoldable pub send : Event D → String → LobbyEventBroker D → LobbyEventBroker D
  send e id b = elim (Dict.get b.objects id) [
    | none ↦ b
    | some x ↦
        if x.loop_closed
        then unsubscribe id x.subscribed_to b
        else record b { objects = Dict.put b.objects id (schedule e x) }
  ]

  unfoldable pub send_all : Event D → List String → LobbyEventBroker D → LobbyEventBroker D
  send_all e [] b = b
  send_all e (id ∷ ids) b = send_all e ids (send e id b)

  -- `publish`
  unfoldable pub publish :
      String → String → D → Time → LobbyEventBroker D → Event D × LobbyEventBroker D
  publish board_id kind payload now b =
      let sequence = current_sequence b board_id + 1 in
      let e : Event D = record {
        kind = kind;
        board_id = board_id;
        sequence = sequence;
        occurred_at = now;
        payload = payload;
        resync_required = false;
      } in
      (
        e,
        send_all e (subscribers_of b board_id)
            (record b { sequences = Dict.put b.sequences board_id sequence }),
      )

  unfoldable pub reset : LobbyEventBroker D → LobbyEventBroker D
  reset b = record b { subscribers = []; sequences = [] }
