-- ===== src/Lobby/Publishing.antt =====
-- `publish` of the broker and its subscribers (embers/lobby/realtime.py).
use embers_diaries.Prelude.{
  ◌+◌, String, false, List, [], ◌∷◌, ◌≡◌, ◌==◌, refl, arith, ◌∙◌, ap, member, NoRepeats, get_or,
  eq_iff, if◌then◌else◌, map_option, Option-cases, inl, inr,
}
use embers_diaries.Dict
use embers_diaries.Core.Record.{Time}
use embers_diaries.Lobby.Realtime.{
  Event, LobbySubscription, LobbyEventBroker, schedule, subscribers_of, unsubscribe,
  current_sequence, send, send_all, publish,
}

module _ {D : Type 0} where
  -- What sending an event does to a subscription.
  abbrev pub sent : Event D → LobbySubscription D → LobbySubscription D
  sent e x = if x.loop_closed then x else schedule e x

  objects-unsubscribe :
      (id board_id : String) (b : LobbyEventBroker D)
      → (unsubscribe id board_id b).objects ≡ b.objects
  unfolding unsubscribe
  objects-unsubscribe id board_id b = ground arith

  sequences-send :
      (e : Event D) (id : String) (b : LobbyEventBroker D) → (send e id b).sequences ≡ b.sequences
  unfolding send unsubscribe
  sequences-send e id b = ground arith

  objects-send :
      (e : Event D) (id k : String) (b : LobbyEventBroker D)
      → Dict.get (send e id b).objects k
        ≡ (if id == k then map_option (sent e) (Dict.get b.objects k) else Dict.get b.objects k)
  unfolding send
  objects-send e id k b = elim (Option-cases (Dict.get b.objects id)) [
    | inl p ↦ ground (arith, p, eq_iff id k)
    | inr (x, p) ↦ ground (
      arith,
      p,
      eq_iff id k,
      Dict.get-put b.objects id k (schedule e x),
      objects-unsubscribe id x.subscribed_to b,
    )
  ]

  sequences-send_all :
      (e : Event D) (ids : List String) (b : LobbyEventBroker D)
      → (send_all e ids b).sequences ≡ b.sequences
  unfolding send_all
  sequences-send_all e [] b = refl
  sequences-send_all e (id ∷ ids) b = sequences-send_all e ids (send e id b) ∙ sequences-send e id b

  objects-send_all :
      (e : Event D) (ids : List String) (k : String) (b : LobbyEventBroker D)
      → NoRepeats ids
      → Dict.get (send_all e ids b).objects k ≡ (
          if member k ids then map_option (sent e) (Dict.get b.objects k) else Dict.get b.objects k)
  unfolding send_all
  objects-send_all e [] k b d = refl
  objects-send_all e (id ∷ ids) k b d =
      ground
        (arith, objects-send_all e ids k (send e id b) d.1, objects-send e id k b, d.0, eq_iff id k)

  -- The number of an event is one more than the last of its board, and becomes the last; those of
  -- other boards stay. The loop of every subscriber of the board that is not closed takes the event,
  -- once and at the end; a subscription that is not listed for the board stays as it is.
  pub publish-sent :
      (board_id kind : String) (payload : D) (now : Time) (b : LobbyEventBroker D)
      → NoRepeats (subscribers_of b board_id)
      → let (e, t) = publish board_id kind payload now b in
        (e.sequence ≡ current_sequence b board_id + 1)
        × (e.resync_required ≡ false)
        × ((k : String)
            → current_sequence t k
              ≡ (if board_id == k then current_sequence b board_id + 1 else current_sequence b k))
        × ((k : String)
            → Dict.get t.objects k ≡ (
                if member k (subscribers_of b board_id)
                then map_option (sent e) (Dict.get b.objects k)
                else Dict.get b.objects k))
  unfolding publish current_sequence
  publish-sent board_id kind payload now b d =
      let sequence = current_sequence b board_id + 1 in
      let e : Event D = record {
        kind = kind;
        board_id = board_id;
        sequence = sequence;
        occurred_at = now;
        payload = payload;
        resync_required = false;
      } in
      let c = record b { sequences = Dict.put b.sequences board_id sequence } in
      let ids = subscribers_of b board_id in
      (
        refl,
        refl,
        λ k.
            ap (λ d. get_or (Dict.get d k) 0) (sequences-send_all e ids c)
            ∙ ground (arith, Dict.get-put b.sequences board_id k sequence),
        λ k. objects-send_all e ids k c d,
      )
