-- ===== src/Lobby/Entering.antt =====
-- What entering a board leaves: who sits where (embers/lobby/store.py).
use embers_diaries.Prelude.{
  String, true, false, none, some, [], ◌∷◌, ◌≡◌, refl, arith, ◌==◌, ◌⊎◌, inr, eq_refl, member, add,
  length-append,
}
use embers_diaries.Dict
use embers_diaries.Dict.{Dict}
use embers_diaries.Core.Record.{Time}
use embers_diaries.Core.Triples.{Triple}
use embers_diaries.Lobby.Board.{is_open, Board, has_room, touch}
use embers_diaries.Lobby.Store.{LobbyStore, enter}
use embers_diaries.Lobby.Seats.{Moves-IsSeated, fits}
use embers_diaries.Lobby.Seating.{enter-Moves, new-Moves}
use embers_diaries.Lobby.Membership.{Seated, At, Free}

-- A board that has room, and a session that has no other seat.
abbrev pub Ready : String → Board → LobbyStore → Type 0
Ready sid b s =
    Seated s
    × (Dict.get s.boards b.board_id ≡ some b)
    × (is_open b.status ≡ true)
    × (has_room s.config b sid ≡ true)
    × (((sid == "") ≡ true)
        ⊎ (Dict.get s.by_session sid ≡ none)
        ⊎ (Dict.get s.by_session sid ≡ some b.board_id))

-- A board that is not in the store yet, and lists the session that makes it.
abbrev pub ReadyNew : String → Board → LobbyStore → Type 0
ReadyNew sid b s =
    Free sid s
    × (Dict.get s.boards b.board_id ≡ none)
    × ((b.board_id == "") ≡ false)
    × (is_open b.status ≡ true)
    × (b.participants ≡ sid ∷ [])

fits-add :
    (s : LobbyStore) (sid : String) (b c : Board)
    → c.participants ≡ add sid b.participants
    → has_room s.config b sid ≡ true
    → fits s.config.max_agents b ≡ true
    → fits s.config.max_agents c ≡ true
unfolding has_room
fits-add s sid b c seats room fit =
    rw seats (ground (arith, room, fit, length-append b.participants (sid ∷ [])))

pub enter-Triple :
    (now : Time) (sid agent : String) (b : Board)
    → Triple (Ready sid b) (enter now sid agent b) (At sid) Seated
unfolding enter
enter-Triple now sid agent b s (seated, there, opened, room, free) =
    let c = touch now sid agent (record b { participants = add sid b.participants }) in
    let fit = fits-add s sid b c refl room (seated.fitting b.board_id b there) in
    (
      Moves-IsSeated s.config.max_agents s.boards s.by_session c
          (Dict.put s.by_session sid b.board_id)
          (enter-Moves s.config.max_agents s.boards s.by_session seated b c sid there opened refl
            refl fit free)
          seated,
      Dict.get-put_self s.boards b.board_id c,
      opened,
      Dict.get-put_self s.by_session sid b.board_id,
    )

pub enter_new-Triple :
    (now : Time) (sid agent : String) (b : Board)
    → Triple (ReadyNew sid b) (enter now sid agent b) (At sid) Seated
unfolding enter
enter_new-Triple now sid agent b s ((seated, free), fresh, name, opened, seats) =
    let c = touch now sid agent (record b { participants = add sid b.participants }) in
    let first : c.participants ≡ sid ∷ [] = rw seats (ground (arith, eq_refl sid)) in
    (
      Moves-IsSeated s.config.max_agents s.boards s.by_session c
          (Dict.put s.by_session sid b.board_id)
          (new-Moves s.config.max_agents s.boards s.by_session seated c sid name fresh opened first
            free)
          seated,
      Dict.get-put_self s.boards b.board_id c,
      opened,
      Dict.get-put_self s.by_session sid b.board_id,
    )

-- Whoever has a seat at a board is one of its participants, and so finds room there.
pub At-member :
    (sid : String) (b : Board) (s : LobbyStore) → At sid b s → member sid b.participants ≡ true
At-member sid b s (seated, there, opened, seat) =
    let (c, found, _, listed) = seated.seated sid b.board_id seat in
    ground (arith, found, there, listed)

pub At-has_room :
    (sid : String) (b : Board) (s : LobbyStore) → At sid b s → has_room s.config b sid ≡ true
unfolding has_room
At-has_room sid b s k = ground (arith, At-member sid b s k)

pub At-Ready : (sid : String) (b : Board) (s : LobbyStore) → At sid b s → Ready sid b s
At-Ready sid b s k = (k.0, k.1, k.2, At-has_room sid b s k, inr (inr k.3))
