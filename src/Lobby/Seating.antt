-- ===== src/Lobby/Seating.antt =====
-- Taking a seat at a board, leaving it and closing the board (embers/lobby/store.py).
use embers_diaries.Prelude.{
  ℕ, String, true, false, none, some, List, [], ◌∷◌, ◌≡◌, refl, arith, ◌==◌, ◌&&◌, ◌⊎◌, inl, inr,
  eq_iff, eq_refl, if◌then◌else◌, member, add, discard, member-add, member-discard, get_or, ◌∙◌,
  sym, Bool-cases,
}
use embers_diaries.Dict
use embers_diaries.Dict.{Dict}
use embers_diaries.Lobby.Board.{is_open, Board}
use embers_diaries.Lobby.Operations.{unseat}
use embers_diaries.Lobby.Seats.{IsSeated, Moves, fits, named_board}

-- A seat that is left after the participants of a board lost theirs is one of before, and not of a
-- participant at that board.
pub unseat_kept :
    (id : String) (sids : List String) (d : Dict String) (x k : String)
    → Dict.get (unseat id sids d) x ≡ some k
    → (Dict.get d x ≡ some k) × ((member x sids && (k == id)) ≡ false)
unfolding unseat
unseat_kept id [] d x k p = (p, refl)
unseat_kept id (sid ∷ sids) d x k p = elim (Bool-cases (get_or (Dict.get d sid) "" == id)) [
  | inl e ↦
      let (old, out) = unseat_kept id sids (Dict.remove d sid) x k (rw e at p) in
      ground (arith, old, out, eq_iff sid x, Dict.get-remove d sid x)
  | inr e ↦
      let (old, out) = unseat_kept id sids d x k (rw e at p) in
      ground (arith, old, out, e, eq_iff sid x)
]

pub unseat_other :
    (id : String) (sids : List String) (d : Dict String) (x k : String)
    → (id == k) ≡ false
    → Dict.get d x ≡ some k
    → Dict.get (unseat id sids d) x ≡ some k
unfolding unseat
unseat_other id [] d x k e p = p
unseat_other id (sid ∷ sids) d x k e p =
    unseat_other id sids _ x k e
      (ground (arith, p, e, eq_iff id k, eq_iff k id, eq_iff sid x, Dict.get-remove d sid x))

module _ (limit : ℕ) (boards : Dict Board) (by_session : Dict String)
    (s : IsSeated limit boards by_session) where
  -- A board whose seats stay.
  pub same-Moves :
      (a b : Board)
      → Dict.get boards b.board_id ≡ some a
      → b.status ≡ a.status
      → b.participants ≡ a.participants
      → Moves limit by_session b by_session
  same-Moves a b p status seats = record {
    named = named_board limit boards by_session b.board_id a s p;
    fitting = rw seats (s.fitting b.board_id a p);
    seated_here = λ sid q.
        let (c, f, opened, listed) = s.seated sid b.board_id q in
        ground (arith, f, p, opened, listed, status, seats);
    seated_there = λ sid k e q. q;
    alone_here = λ sid n opened listed.
        s.alone sid b.board_id a n p (rw status at opened) (rw seats at listed);
    alone_there = λ sid k n e q. q;
  }

  -- A session without a seat, or with this one, takes a seat at a board that has room.
  pub enter-Moves :
      (a b : Board) (sid : String)
      → Dict.get boards b.board_id ≡ some a
      → is_open b.status ≡ true
      → b.status ≡ a.status
      → b.participants ≡ add sid a.participants
      → fits limit b ≡ true
      → ((sid == "") ≡ true)
        ⊎ (Dict.get by_session sid ≡ none)
        ⊎ (Dict.get by_session sid ≡ some b.board_id)
      → Moves limit by_session b (Dict.put by_session sid b.board_id)
  enter-Moves a b sid p opened status seats room free = record {
    named = named_board limit boards by_session b.board_id a s p;
    fitting = room;
    seated_here = λ x q. elim (Bool-cases (sid == x)) [
      | inl e ↦
          (opened, rw seats (ground (arith, member-add x sid a.participants, eq_iff sid x, e)))
      | inr e ↦
          let old : Dict.get by_session x ≡ some b.board_id =
            ground (arith, q, e, Dict.get-put by_session sid x b.board_id) in
          let (c, f, open_c, listed) = s.seated x b.board_id old in
          (opened, rw seats (ground (arith, member-add x sid a.participants, f, p, listed)))
    ];
    seated_there = λ x k e q.
        ground (arith, q, e, eq_iff b.board_id k, Dict.get-put by_session sid x b.board_id);
    alone_here = λ x n open_b listed. elim (Bool-cases (sid == x)) [
      | inl e ↦ ground (arith, e, Dict.get-put by_session sid x b.board_id)
      | inr e ↦
          let old : member x a.participants ≡ true =
            ground (arith, rw seats at listed, e, member-add x sid a.participants) in
          Dict.get-put by_session sid x b.board_id
          ∙ rw e (s.alone x b.board_id a n p (rw status at opened) old)
    ];
    alone_there = λ x k n e q. ground (
      arith,
      q,
      n,
      e,
      free,
      eq_iff b.board_id k,
      eq_iff sid x,
      eq_iff x "",
      eq_iff sid "",
      Dict.get-put by_session sid x b.board_id,
    );
  }

  -- A session without a seat takes the first one of a new board.
  pub new-Moves :
      (b : Board) (sid : String)
      → (b.board_id == "") ≡ false
      → Dict.get boards b.board_id ≡ none
      → is_open b.status ≡ true
      → b.participants ≡ sid ∷ []
      → ((sid == "") ≡ true) ⊎ (Dict.get by_session sid ≡ none)
      → Moves limit by_session b (Dict.put by_session sid b.board_id)
  new-Moves b sid n fresh opened seats free = record {
    named = n;
    fitting = rw seats (ground arith);
    seated_here = λ x q. elim (Bool-cases (sid == x)) [
      | inl e ↦ (opened, rw seats (ground (arith, e)))
      | inr e ↦
          let old : Dict.get by_session x ≡ some b.board_id =
            ground (arith, q, e, Dict.get-put by_session sid x b.board_id) in
          let (c, f, open_c, listed) = s.seated x b.board_id old in
          absurd (ground (arith, f, fresh))
    ];
    seated_there = λ x k e q.
        ground (arith, q, e, eq_iff b.board_id k, Dict.get-put by_session sid x b.board_id);
    alone_here = λ x m open_b listed.
        ground (arith, rw seats at listed, Dict.get-put by_session sid x b.board_id);
    alone_there = λ x k m e q. ground (
      arith,
      q,
      m,
      e,
      free,
      eq_iff b.board_id k,
      eq_iff sid x,
      eq_iff x "",
      eq_iff sid "",
      Dict.get-put by_session sid x b.board_id,
    );
  }

  -- A session gives up its seat.
  pub leave-Moves :
      (a b : Board) (sid : String)
      → Dict.get boards b.board_id ≡ some a
      → Dict.get by_session sid ≡ some b.board_id
      → b.status ≡ a.status
      → b.participants ≡ discard sid a.participants
      → fits limit b ≡ true
      → Moves limit by_session b (Dict.remove by_session sid)
  leave-Moves a b sid p seat status seats room = record {
    named = named_board limit boards by_session b.board_id a s p;
    fitting = room;
    seated_here = λ x q.
        let old : Dict.get by_session x ≡ some b.board_id =
          ground (arith, q, Dict.get-remove by_session sid x) in
        let (c, f, open_c, listed) = s.seated x b.board_id old in
        (
          ground (arith, f, p, open_c, status),
          rw seats (
              ground (
                arith,
                f,
                p,
                listed,
                q,
                member-discard x sid a.participants,
                Dict.get-remove by_session sid x,
              )),
        );
    seated_there = λ x k e q. ground (arith, q, Dict.get-remove by_session sid x);
    alone_here = λ x n open_b listed.
        let there : (if sid == x then false else member x a.participants) ≡ true =
          sym (member-discard x sid a.participants) ∙ rw seats at listed in
        let old : member x a.participants ≡ true = ground (arith, there) in
        ground (
          arith,
          there,
          s.alone x b.board_id a n p (rw status at open_b) old,
          Dict.get-remove by_session sid x,
        );
    alone_there = λ x k n e q.
        ground
          (arith, q, e, seat, eq_iff b.board_id k, eq_iff sid x, Dict.get-remove by_session sid x);
  }

  -- A board is closed, and its participants lose their seats.
  pub close-Moves :
      (a b : Board)
      → Dict.get boards b.board_id ≡ some a
      → is_open b.status ≡ false
      → b.participants ≡ a.participants
      → Moves limit by_session b (unseat b.board_id a.participants by_session)
  close-Moves a b p shut seats = record {
    named = named_board limit boards by_session b.board_id a s p;
    fitting = rw seats (s.fitting b.board_id a p);
    seated_here = λ x q.
        let (old, kept) = unseat_kept b.board_id a.participants by_session x b.board_id q in
        let (c, f, open_c, listed) = s.seated x b.board_id old in
        absurd (ground (arith, kept, f, p, listed, eq_refl b.board_id));
    seated_there = λ x k e q. (unseat_kept b.board_id a.participants by_session x k q).0;
    alone_here = λ x n open_b listed. absurd (ground (arith, open_b, shut));
    alone_there = λ x k n e q. unseat_other b.board_id a.participants by_session x k e q;
  }
