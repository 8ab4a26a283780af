-- ===== src/Lobby/Effects.antt =====
-- What `publish` and `close` of embers/lobby/store.py do to the boards and the seats.
use embers_diaries.Prelude.{
  String, true, false, Option, none, some, ◌⊎◌, [], ◌∷◌, ◌++◌, ◌≡◌, ◌≢◌, refl, arith, ◌==◌, ◌∙◌, ap,
  sym, Bool-cases, inl, inr, eq_refl, select, subst, add, ◌&&◌,
}
use embers_diaries.Dict
use embers_diaries.Dict.{Dict}
use embers_diaries.Core.Record.{Time}
use embers_diaries.Core.Result.{Error, Result, ok, err}
use embers_diaries.Core.Triples.{Outcome}
use embers_diaries.Lobby.Board.{BoardStatus, Board, Post, has_room, touch}
use embers_diaries.Lobby.Store.{
  current_board, LobbyStore, Moments, TextMethods, Closing, save, require_board, enter, normal,
  board_for_session, Notice, emit, post_published,
}
use embers_diaries.Lobby.Operations.{
  publish, is_refused, new_post, append_post, close, unseat, is_unpromoted,
}
use embers_diaries.Lobby.Seating.{unseat_kept, unseat_other}
use embers_diaries.Lobby.Membership.{Seated, At, require_board-Triple}
use embers_diaries.Lobby.Entering.{At-has_room, At-member}

-- A post stands at the end of its board.
pub record Posted (b : Board) (post : Post) (t : LobbyStore) : Type 0 where
  pub after : Board
  pub there : Dict.get t.boards b.board_id ≡ some after
  pub posts : after.posts ≡ b.posts ++ post ∷ []

-- The store after a post that was appended.
abbrev posted_store : Moments → String → String → Board → Post → LobbyStore → LobbyStore
posted_store m sid agent b post s =
    let posted = record b { posts = b.posts ++ post ∷ [] } in
    emit m.emitted b.board_id "lobby.post_published" (post_published post)
      (enter m.seen sid agent posted (save posted s)).1

-- The board of a session has room for it, so a post that is appended is published.
append_post_ok :
    (m : Moments) (sid agent : String) (b : Board) (post : Post) (s : LobbyStore)
    → At sid b s
    → append_post m sid agent b post s ≡ (ok post, posted_store m sid agent b post s)
unfolding append_post enter has_room
append_post_ok m sid agent b post s k = simp (At-has_room sid b s k) refl

posted_store-Posted :
    (m : Moments) (sid agent : String) (b : Board) (post : Post) (s : LobbyStore)
    → Posted b post (posted_store m sid agent b post s)
unfolding enter
posted_store-Posted m sid agent b post s =
    let posted = record b { posts = b.posts ++ post ∷ [] } in
    let seated =
      touch m.seen sid agent (record posted { participants = add sid posted.participants }) in
    record {
      after = seated;
      there = Dict.get-put_self (save posted s).boards b.board_id seated;
      posts = refl;
    }

module _ ⦃text : TextMethods⦄ where
  -- `publish` posts or leaves the board alone.
  abbrev pub Published : LobbyStore → LobbyStore → Moments → String → Result Post → Type 0
  Published s t m sid (err e) = t ≡ (require_board m.checked sid s).1
  Published s t m sid (ok post) =
      (b : Board) × ((require_board m.checked sid s).0 ≡ ok b) × Posted b post t

  -- A call of `publish` that returns has put its post at the end of the board of its session; one that
  -- raises leaves the store as the lookup of that board left it, so that the post that is appended
  -- before the limit on participants is checked never stays behind. The store is one that calls lead
  -- to: whoever has a seat is listed.
  pub publish-Published :
      (m : Moments) (id sid agent room kind content : String) (approach : Option String)
      (s t : LobbyStore) (result : Result Post)
      → Seated s
      → publish m id sid agent room kind content approach s ≡ (result, t)
      → Published s t m sid result
  unfolding publish
  publish-Published m id sid agent room kind content approach s t result k p =
      by_board (require_board m.checked sid s) (require_board-Triple m.checked sid s k) refl
    where
      by_board :
          (out : Result Board × LobbyStore)
          → Outcome (At sid) Seated out
          → require_board m.checked sid s ≡ out
          → Published s t m sid result
      by_board (err e, u) q eq =
          subst (λ (x : Result Post × LobbyStore). Published s x.1 m sid x.0) (rw eq at p)
            (sym (ap (λ x. x.1) eq))
      by_board (ok b, u) q eq =
          let post =
            new_post m id sid agent b (normal room) (normal kind) (text.strip content) approach in
          elim (Bool-cases
            (is_refused u.config b (normal room) (normal kind) (text.strip content))) [
              | inl e ↦
                  subst (λ (x : Result Post × LobbyStore). Published s x.1 m sid x.0)
                    (rw (eq, e) at p) (sym (ap (λ x. x.1) eq))
              | inr e ↦
                  subst (λ (x : Result Post × LobbyStore). Published s x.1 m sid x.0)
                    (sym (append_post_ok m sid agent b post u q) ∙ rw (eq, e) at p)
                    (b, ap (λ x. x.0) eq, posted_store-Posted m sid agent b post u)
            ]

by_session-require_board :
    (now : Time) (sid : String) (s : LobbyStore)
    → (require_board now sid s).1.by_session ≡ s.by_session
unfolding require_board board_for_session
by_session-require_board now sid s = ground arith

require_board_err :
    (now : Time) (sid : String) (s : LobbyStore) (e : Error)
    → (require_board now sid s).0 ≡ err e
    → (s.config.enabled ≡ false) ⊎ ((sid == "") ≡ true) ⊎ (current_board s sid ≡ none)
unfolding require_board board_for_session
require_board_err now sid s e p = ground (arith, p)

-- The store after a board was closed.
abbrev closed_store : Moments → Board → Closing → LobbyStore → LobbyStore
closed_store m b answer s =
    emit m.emitted b.board_id "lobby.closed" (Notice.closed answer)
      (record (save (record b { status = BoardStatus.closed }) s) {
        by_session = unseat b.board_id b.participants s.by_session;
      })

abbrev answer_of : Board → Closing
answer_of b = record {
  closed_board = b.board_id;
  unpromoted_failures =
      select (λ (p : Post). (p.post_type == "failure") && is_unpromoted p) b.posts;
}

close_ok :
    (m : Moments) (sid : String) (b : Board) (s u : LobbyStore)
    → require_board m.checked sid s ≡ (ok b, u)
    → At sid b u
    → close m sid s ≡ (ok (answer_of b), closed_store m b (answer_of b) u)
unfolding close
close_ok m sid b s u eq k = simp (eq, At-member sid b u k) refl

-- `close` fails only where the lobby is disabled or the session has no board; else the board is closed,
-- no session keeps a seat at it, and all others keep theirs.
abbrev pub Closed : LobbyStore → LobbyStore → Moments → String → Result Closing → Type 0
Closed s t m sid (err e) =
    (s.config.enabled ≡ false) ⊎ ((sid == "") ≡ true) ⊎ (current_board s sid ≡ none)
Closed s t m sid (ok answer) =
    (b : Board) × ((require_board m.checked sid s).0 ≡ ok b)
    × (answer.closed_board ≡ b.board_id)
    × ((after : Board) × (Dict.get t.boards b.board_id ≡ some after)
        × (after.status ≡ BoardStatus.closed))
    × ((x : String) → Dict.get t.by_session x ≢ some b.board_id)
    × ((x k : String)
        → (b.board_id == k) ≡ false
        → Dict.get s.by_session x ≡ some k
        → Dict.get t.by_session x ≡ some k)

-- A call of `close` raises only if the lobby is disabled, or its session has no open board; otherwise that
-- board is closed afterwards, no session has a seat at it, and every session with a seat at another
-- board keeps it. The store is one that
-- calls lead to: whoever has a seat is listed.
pub close-Closed :
    (m : Moments) (sid : String) (s t : LobbyStore) (result : Result Closing)
    → Seated s
    → close m sid s ≡ (result, t)
    → Closed s t m sid result
unfolding close
close-Closed m sid s t result k p =
    by_board (require_board m.checked sid s) (require_board-Triple m.checked sid s k) refl
  where
    by_board :
        (out : Result Board × LobbyStore)
        → Outcome (At sid) Seated out
        → require_board m.checked sid s ≡ out
        → Closed s t m sid result
    by_board (err e, u) q eq =
        subst (λ (x : Result Closing × LobbyStore). Closed s x.1 m sid x.0) (rw eq at p)
          (require_board_err m.checked sid s e (ap (λ x. x.0) eq))
    by_board (ok b, u) q eq =
        let same : u.by_session ≡ s.by_session =
          ap (λ x. x.1.by_session) (sym eq) ∙ by_session-require_board m.checked sid s in
        subst (λ (x : Result Closing × LobbyStore). Closed s x.1 m sid x.0)
          (sym (close_ok m sid b s u eq q) ∙ p)
          (
            b,
            ap (λ x. x.0) eq,
            refl,
            (
              record b { status = BoardStatus.closed },
              Dict.get-put_self u.boards b.board_id (record b { status = BoardStatus.closed }),
              refl,
            ),
            λ x seat.
                let (old, kept) =
                  unseat_kept b.board_id b.participants u.by_session x b.board_id seat in
                ground (arith, kept, At-member x b u (q.0, q.1, q.2, old), eq_refl b.board_id),
            λ x k n seat.
                unseat_other b.board_id b.participants u.by_session x k n
                  (ap (λ (d : Dict String). Dict.get d x) same ∙ seat),
          )
