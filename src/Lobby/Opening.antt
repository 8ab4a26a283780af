-- ===== src/Lobby/Opening.antt =====
-- Who sits where after `open` and `mark_promoted` of embers/lobby/store.py.
use embers_diaries.Prelude.{
  String, Bool, true, false, Option, none, some, [], ◌∷◌, ◌≡◌, refl, arith, ◌==◌, inl, inr, not,
  find_first, ◌∙◌, sym, ap, subst,
}
use embers_diaries.Dict
use embers_diaries.Dict.{Dict}
use embers_diaries.Core.Record.{Time}
use embers_diaries.Core.Result.{
  value_error, Result, ok, err, Exec, pure, raise_if, modify, ◌>>=◌, ◌>>◌,
}
use embers_diaries.Core.Triples.{Outcome, Triple, Triple_then}
use embers_diaries.Lobby.Board.{
  BoardStatus, is_open, Board, Post, View, has_room, touch, is_room, amend_post,
}
use embers_diaries.Lobby.Store.{
  LobbyStore, Moments, TextMethods, save, board_for_session, check_capacity, show, enter,
  join_board, new_board, is_for, normal, emit, post_promoted, participant_joined, opened,
  namespace_or_default,
}
use embers_diaries.Lobby.Operations.{mark_promoted, open_board, reopen}
use embers_diaries.Lobby.Seats.{Moves-IsSeated}
use embers_diaries.Lobby.Seating.{same-Moves}
use embers_diaries.Lobby.Membership.{
  Seated, At, Free, Found, save-At, board_for_session-Triple, raise_if-Triple,
  check_capacity-Triple, show-Triple,
}
use embers_diaries.Lobby.Entering.{Ready, enter-Triple, enter_new-Triple}
use embers_diaries.Lobby.Calls.{Kept}

pub mark_promoted-Seated :
    (m : Moments) (board_id post_id proposal_id : String) (s : LobbyStore)
    → Seated s
    → Seated (mark_promoted m board_id post_id proposal_id s)
unfolding mark_promoted
mark_promoted-Seated m board_id post_id proposal_id s k = by_board (Dict.get s.boards board_id) refl
  where
    promoted : Board → Board
    promoted board = record board {
      posts =
          amend_post post_id (λ (p : Post). record p { promoted_to = some proposal_id })
            board.posts;
    }

    by_board :
        (o : Option Board)
        → Dict.get s.boards board_id ≡ o
        → Seated (elim o [
          | none ↦ s
          | some board ↦
              emit m.emitted board.board_id "lobby.post_promoted"
                (post_promoted post_id proposal_id)
                (save (promoted board) s)
        ])
    by_board none e = k
    by_board (some b) e =
        let there = ap (Dict.get s.boards) (k.keyed board_id b e) ∙ e in
        Moves-IsSeated s.config.max_agents s.boards s.by_session (promoted b) s.by_session
          (same-Moves s.config.max_agents s.boards s.by_session k b (promoted b) there refl refl) k

-- The id that a call draws is not empty and names no board yet.
abbrev pub IsNew : String → LobbyStore → Type 0
IsNew id s = ((id == "") ≡ false) × (Dict.get s.boards id ≡ none)

-- A session without a seat, and a board that it may take one at.
abbrev Joining : String → Board → LobbyStore → Type 0
Joining sid b s = Free sid s × (Dict.get s.boards b.board_id ≡ some b) × (is_open b.status ≡ true)

Joining-Ready :
    (sid : String) (b : Board) (s : LobbyStore)
    → Joining sid b s × (has_room s.config b sid ≡ true)
    → Ready sid b s
Joining-Ready sid b s k = elim k.0.0.1 [
  | inl e ↦ (k.0.0.0, k.0.1, k.0.2, k.1, inl e)
  | inr e ↦ (k.0.0.0, k.0.1, k.0.2, k.1, inr (inl e))
]

module _ (m : Moments) (sid agent : String) where
  shown_then :
      {A : Type 0} (now : Time) (c : Board) (after : View → Exec LobbyStore A)
      → ((v : View) → Triple Seated (after v) Kept Seated)
      → Triple (At sid c) (show now c >>= after) Kept Seated
  shown_then now c after t =
      Triple_then (At sid c) (λ _. Seated) Kept Seated (show now c) after (show-Triple now sid c) t

  join_board-Seated : (b : Board) → Triple (Joining sid b) (join_board m sid agent b) Kept Seated
  unfolding join_board
  join_board-Seated b =
      Triple_then (Joining sid b) (λ _ s. Joining sid b s × (has_room s.config b sid ≡ true)) Kept
        Seated (check_capacity b sid) _ (check_capacity-Triple (Joining sid b) b sid (λ s k. k.0.0))
        (λ _.
          Triple_then (λ s. Joining sid b s × (has_room s.config b sid ≡ true)) (At sid) Kept Seated
            (enter m.seen sid agent b) _
            (λ s k. enter-Triple m.seen sid agent b s (Joining-Ready sid b s k))
            (λ c s k.
              shown_then m.shown c
                (λ v.
                  modify (
                    emit m.emitted b.board_id "lobby.participant_joined"
                      (participant_joined (record { agent = agent; session = sid })))
                  >> pure v)
                (λ v s k. k) s k))

  new_board-Seated :
      (id task namespace room : String)
      → Triple
          (λ s. Free sid s × IsNew id s)
          (new_board m id sid agent task namespace room)
          Kept
          Seated
  unfolding new_board
  new_board-Seated id task namespace room =
      let board : Board = record {
        board_id = id;
        task = task;
        namespace = namespace_or_default namespace;
        room = room;
        status = BoardStatus.opened;
        opened_by = record { agent = agent; session = sid };
        participants = sid ∷ [];
        posts = [];
        presence = [];
        opened_at = m.made;
      } in
      Triple_then (λ s. Free sid s × IsNew id s) (At sid) Kept Seated (enter m.seen sid agent board)
        _ (λ s k. enter_new-Triple m.seen sid agent board s (k.0, k.1.1, k.1.0, refl, refl))
        (λ c s k.
          shown_then m.shown c (λ v. modify (emit m.emitted id "lobby.opened" (opened v)) >> pure v)
            (λ v s k. k) s k)

-- What is known when a session with a draw in hand has looked for its board.
abbrev FoundNew : String → String → Option Board → LobbyStore → Type 0
FoundNew id sid none s = Free sid s × IsNew id s
FoundNew id sid (some b) s = At sid b s

board_for_session_absent :
    (now : Time) (sid : String) (s t : LobbyStore)
    → board_for_session now sid s ≡ (ok none, t)
    → t ≡ s
unfolding board_for_session
board_for_session_absent now sid s t p = ground (arith, p)

board_for_session-FoundNew :
    (now : Time) (id sid : String)
    → Triple (λ s. Seated s × IsNew id s) (board_for_session now sid) (FoundNew id sid) Seated
board_for_session-FoundNew now id sid s (k, new) =
    both (board_for_session now sid s) (board_for_session-Triple now sid s k)
      (board_for_session_absent now sid s)
  where
    both :
        (out : Result (Option Board) × LobbyStore)
        → Outcome (Found sid) Seated out
        → ((t : LobbyStore) → out ≡ (ok none, t) → t ≡ s)
        → Outcome (FoundNew id sid) Seated out
    both (ok none, t) p q = (p, subst (IsNew id) (sym (q t refl)) new)
    both (ok (some b), t) p q = p
    both (err e, t) p q = p

module _ ⦃text : TextMethods⦄ (m : Moments) (id sid agent : String) where
  reopen-Seated :
      (o : Option Board) (task namespace room : String)
      → Triple (FoundNew id sid o) (reopen m id sid agent o task namespace room) Kept Seated
  unfolding reopen
  reopen-Seated (some b) task namespace room s k =
      show-Triple m.shown sid (touch m.seen sid agent b) (save (touch m.seen sid agent b) s)
        (save-At sid b (touch m.seen sid agent b) s refl refl refl k)
  reopen-Seated none task namespace room s (free, new) =
      by_match (find_first (is_for task namespace room) (Dict.values s.boards)) refl
    where
      by_match :
          (o : Option Board)
          → find_first (is_for task namespace room) (Dict.values s.boards) ≡ o
          → Outcome {A = View} Kept Seated (elim o [
            | some board ↦ join_board m sid agent board s
            | none ↦ new_board m id sid agent task namespace room s
          ])
      by_match none e = new_board-Seated m sid agent id task namespace room s (free, new)
      by_match (some b) e =
          let (k, found, passes) =
            Dict.get-find_first s.boards (is_for task namespace room) b free.0.distinct e in
          let there = ap (Dict.get s.boards) (free.0.keyed k b found) ∙ found in
          join_board-Seated m sid agent b s (free, there, ground (arith, passes))

  pub open_board-Seated :
      (task namespace room : String)
      → Triple
          (λ s. Seated s × IsNew id s)
          (open_board m id sid agent task namespace room)
          Kept
          Seated
  unfolding open_board
  open_board-Seated task namespace room s k =
      checked (not s.config.enabled)
        (raise_if (not (is_room (normal room))) value_error
          >> (raise_if (text.strip task == "") value_error >> join))
        (checked (not (is_room (normal room)))
          (raise_if (text.strip task == "") value_error >> join)
          (checked (text.strip task == "") join (
            Triple_then (λ s. Seated s × IsNew id s) (FoundNew id sid) Kept Seated
              (board_for_session m.checked sid)
              (λ o. reopen m id sid agent o (text.strip task) namespace (normal room))
              (board_for_session-FoundNew m.checked id sid)
              (λ o. reopen-Seated o (text.strip task) namespace (normal room)))))
        s k
    where
      join : Exec LobbyStore View
      join = do
        o ← board_for_session m.checked sid
        reopen m id sid agent o (text.strip task) namespace (normal room)

      checked :
          (test : Bool) (rest : Exec LobbyStore View)
          → Triple (λ s. Seated s × IsNew id s) rest Kept Seated
          → Triple (λ s. Seated s × IsNew id s) (raise_if test value_error >> rest) Kept Seated
      checked test rest t =
          Triple_then (λ s. Seated s × IsNew id s) (λ _ s. Seated s × IsNew id s) Kept Seated
            (raise_if test value_error) (λ _. rest)
            (raise_if-Triple (λ s. Seated s × IsNew id s) test value_error (λ s k. k.0)) (λ _. t)
