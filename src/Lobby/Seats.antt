-- ===== src/Lobby/Seats.antt =====
-- Who sits at which board of embers/lobby/store.py, and the changes of boards and seats that its
-- operations make.
use embers_diaries.Prelude.{
  ℕ, String, Bool, true, false, none, some, ◌≡◌, arith, ◌==◌, ◌||◌, ◌⊎◌, inl, inr, eq_iff,
  NoRepeats, length, member, nat_eq, leb, ◌∙◌, sym, ap, subst, Bool-cases,
}
use embers_diaries.Dict
use embers_diaries.Dict.{Dict}
use embers_diaries.Lobby.Board.{is_open, Board}

abbrev pub fits : ℕ → Board → Bool
fits limit b = nat_eq limit 0 || leb (length b.participants) limit

-- Each board stands once, under its id, which is not empty; a session that has a seat has it at a
-- board that is open and lists it; a session with a name that an open board lists has its seat there,
-- and so is listed by no other open board; and no board has more participants than the limit, unless
-- that is 0.
pub record IsSeated (limit : ℕ) (boards : Dict Board) (by_session : Dict String) : Type 0 where
  pub keyed : (k : String) (b : Board) → Dict.get boards k ≡ some b → b.board_id ≡ k
  pub named : Dict.get boards "" ≡ none
  pub distinct : NoRepeats (Dict.keys boards)
  pub seated :
      (sid k : String)
      → Dict.get by_session sid ≡ some k
      → (b : Board) × (Dict.get boards k ≡ some b)
        × (is_open b.status ≡ true)
        × (member sid b.participants ≡ true)
  pub alone :
      (sid k : String) (b : Board)
      → (sid == "") ≡ false
      → Dict.get boards k ≡ some b
      → is_open b.status ≡ true
      → member sid b.participants ≡ true
      → Dict.get by_session sid ≡ some k
  pub fitting : (k : String) (b : Board) → Dict.get boards k ≡ some b → fits limit b ≡ true

-- A lookup after a board was saved: it is that board, or the one that was there.
put_cases :
    (boards : Dict Board) (b c : Board) (k : String)
    → Dict.get (Dict.put boards b.board_id b) k ≡ some c
    → ((b.board_id ≡ k) × (b ≡ c)) ⊎ (((b.board_id == k) ≡ false) × (Dict.get boards k ≡ some c))
put_cases boards b c k p = elim (Bool-cases (b.board_id == k)) [
  | inl e ↦
      inl ((eq_iff b.board_id k).0 e, ground (arith, p, e, Dict.get-put boards b.board_id k b))
  | inr e ↦ inr (e, ground (arith, p, e, Dict.get-put boards b.board_id k b))
]

-- A board is saved and the seats become others: what keeps every session at its board.
pub record Moves (limit : ℕ) (by_session : Dict String) (b : Board) (later : Dict String)
    : Type 0 where
  pub named : (b.board_id == "") ≡ false
  pub fitting : fits limit b ≡ true
  pub seated_here :
      (sid : String)
      → Dict.get later sid ≡ some b.board_id
      → (is_open b.status ≡ true) × (member sid b.participants ≡ true)
  pub seated_there :
      (sid k : String)
      → (b.board_id == k) ≡ false
      → Dict.get later sid ≡ some k
      → Dict.get by_session sid ≡ some k
  pub alone_here :
      (sid : String)
      → (sid == "") ≡ false
      → is_open b.status ≡ true
      → member sid b.participants ≡ true
      → Dict.get later sid ≡ some b.board_id
  pub alone_there :
      (sid k : String)
      → (sid == "") ≡ false
      → (b.board_id == k) ≡ false
      → Dict.get by_session sid ≡ some k
      → Dict.get later sid ≡ some k

pub Moves-IsSeated :
    (limit : ℕ) (boards : Dict Board) (by_session : Dict String) (b : Board) (later : Dict String)
    → Moves limit by_session b later
    → IsSeated limit boards by_session
    → IsSeated limit (Dict.put boards b.board_id b) later
Moves-IsSeated limit boards by_session b later m s = record {
  keyed = λ k c q. elim (put_cases boards b c k q) [
    | inl (e, f) ↦ sym (ap (λ (x : Board). x.board_id) f) ∙ e
    | inr (e, f) ↦ s.keyed k c f
  ];
  named = ground (arith, s.named, m.named, Dict.get-put boards b.board_id "" b);
  distinct = Dict.NoRepeats-put boards b.board_id b s.distinct;
  seated = λ sid k q. elim (Bool-cases (b.board_id == k)) [
    | inl e ↦
        let (opened, listed) = m.seated_here sid (q ∙ ap some (sym ((eq_iff b.board_id k).0 e))) in
        (b, ground (arith, e, Dict.get-put boards b.board_id k b), opened, listed)
    | inr e ↦
        let (c, f, opened, listed) = s.seated sid k (m.seated_there sid k e q) in
        (c, ground (arith, e, f, Dict.get-put boards b.board_id k b), opened, listed)
  ];
  alone = λ sid k c n q opened listed. elim (put_cases boards b c k q) [
    | inl (e, f) ↦
        m.alone_here sid n (ap (λ (x : Board). is_open x.status) f ∙ opened)
          (ap (λ (x : Board). member sid x.participants) f ∙ listed)
        ∙ ap some e
    | inr (e, f) ↦ m.alone_there sid k n e (s.alone sid k c n f opened listed)
  ];
  fitting = λ k c q. elim (put_cases boards b c k q) [
    | inl (e, f) ↦ sym (ap (fits limit) f) ∙ m.fitting
    | inr (e, f) ↦ s.fitting k c f
  ];
}

-- An id that names a board is not empty.
pub named_board :
    (limit : ℕ) (boards : Dict Board) (by_session : Dict String) (k : String) (b : Board)
    → IsSeated limit boards by_session
    → Dict.get boards k ≡ some b
    → (k == "") ≡ false
named_board limit boards by_session k b s p = elim (Bool-cases (k == "")) [
  | inr e ↦ e
  | inl e ↦
      absurd
        (ground (arith, subst (λ j. Dict.get boards j ≡ some b) ((eq_iff k "").0 e) p, s.named))
]
