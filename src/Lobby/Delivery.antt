-- ===== src/Lobby/Delivery.antt =====
-- The steps of a subscriber of a board, and its reading to the end (embers/lobby/realtime.py).
use embers_diaries.Prelude.{
  ℕ, zero, suc, ◌-◌, ◌+◌, ◌≤◌, ◌<◌, true, List, [], ◌∷◌, ◌≡◌, ap, refl, arith, ◌||◌, length,
  length-append, Bool-cases, inl, inr, ◌∙◌,
}
use embers_diaries.Lobby.Realtime.{
  Event, LobbySubscription, is_full, queue_after, run_callback, take,
}
use embers_diaries.Lobby.Announced.{
  Client, Step, Steps, publishes, calls, takes, none_left, then_on, receive, has, resync_after,
  Informed, IsInformed, publishes-Informed, keeps-Informed, drops-Informed, takes-Informed,
  List-cases,
}

module _ {D : Type 0} where
  queue_after-Informed :
      (size start published : ℕ) (received queue scheduled : List (Event D)) (e : Event D)
      → Informed size start published received queue (e ∷ scheduled)
      → Informed size start published received (queue_after size queue e) scheduled
  unfolding queue_after
  queue_after-Informed size start published received [] scheduled e k =
      elim (Bool-cases (is_full {D = D} size [])) [
        | inl p ↦ absurd (ground (arith, p))
        | inr p ↦ rw p (keeps-Informed size start published received [] scheduled e p k)
      ]
  queue_after-Informed size start published received (h ∷ queue) scheduled e k =
      elim (Bool-cases (is_full size (h ∷ queue))) [
        | inl p ↦ rw p (drops-Informed size start published received queue scheduled h e k)
        | inr p ↦ rw p (keeps-Informed size start published received (h ∷ queue) scheduled e p k)
      ]

  calls-IsInformed :
      (size start : ℕ) (c : Client D)
      → IsInformed size start c
      → IsInformed size start (record c { subscription = run_callback size c.subscription })
  unfolding run_callback
  calls-IsInformed size start c k = elim (List-cases c.subscription.scheduled) [
    | inl e ↦ rw e (rw e at k)
    | inr (e, rest, p) ↦ rw p (
        queue_after-Informed size start c.published c.received c.subscription.queue rest e
          (rw p at k))
  ]

  takes-IsInformed :
      (size start : ℕ) (c : Client D)
      → IsInformed size start c
      → IsInformed size start (receive (take c.subscription) c)
  unfolding take
  takes-IsInformed size start c k = elim (List-cases c.subscription.queue) [
    | inl e ↦ rw e (rw e at k)
    | inr (e, rest, p) ↦ rw p (
        takes-Informed size start c.published c.received rest c.subscription.scheduled e
          (rw p at k))
  ]

  Step-IsInformed :
      (size start : ℕ) (a b : Client D)
      → Step size a b
      → IsInformed size start a
      → IsInformed size start b
  Step-IsInformed size start a _ (publishes e p q) k =
      publishes-Informed size start a.published a.received a.subscription.queue
        a.subscription.scheduled e p k
  Step-IsInformed size start a _ calls k = calls-IsInformed size start a k
  Step-IsInformed size start a _ takes k = takes-IsInformed size start a k

  Steps-IsInformed :
      (size start : ℕ) (a b : Client D)
      → Steps size a b
      → IsInformed size start a
      → IsInformed size start b
  Steps-IsInformed size start a _ none_left k = k
  Steps-IsInformed size start a c (then_on {b = b} s r) k =
      Steps-IsInformed size start b c r (Step-IsInformed size start a b s k)

  -- A subscriber that joined a board after the number `start`, and has taken nothing yet.
  abbrev pub joined : LobbySubscription D → ℕ → Client D
  joined x start = record { subscription = x; received = []; published = start }

  joined-IsInformed :
      (size start : ℕ) (x : LobbySubscription D)
      → x.queue ≡ []
      → x.scheduled ≡ []
      → IsInformed size start (joined x start)
  joined-IsInformed size start x p q =
      rw (p, q)
        (record {
          rising = (start, start, omega arith, omega arith, omega arith);
          informed = λ n l u. absurd (omega (arith, l, u));
          bounded = λ l. omega arith;
        })

  -- A subscriber is never left in the dark: after any steps since it joined, the numbers of the events
  -- that it received, will find in its queue or that its loop holds rise; every number that its board
  -- has given out since is among them, or a later event that it received or will find in the queue
  -- asks it to read the board anew; and a queue with a bound stays within it.
  pub Steps-Informed :
      (size start : ℕ) (x : LobbySubscription D) (c : Client D)
      → x.queue ≡ []
      → x.scheduled ≡ []
      → Steps size (joined x start) c
      → IsInformed size start c
  Steps-Informed size start x c p q steps =
      Steps-IsInformed size start (joined x start) c steps (joined-IsInformed size start x p q)

  -- The loop makes a call, and the subscriber takes an event, as long as there are any.
  unfoldable pub round : ℕ → Client D → Client D
  round size c =
      let d = record c { subscription = run_callback size c.subscription } in
      receive (take d.subscription) d

  unfoldable pub catch_up : ℕ → ℕ → Client D → Client D
  catch_up size zero c = c
  catch_up size (suc n) c = catch_up size n (round size c)

  abbrev pub waiting : Client D → ℕ
  waiting c = length c.subscription.scheduled + length c.subscription.queue

  queue_after-length :
      (size : ℕ) (queue : List (Event D)) (e : Event D)
      → length (queue_after size queue e) ≤ length queue + 1
  unfolding queue_after
  queue_after-length size [] e = ground (arith)
  queue_after-length size (h ∷ queue) e = ground (
    arith,
    length-append queue (record e { resync_required = true } ∷ []),
    length-append queue (e ∷ []),
  )

  waiting-round : (size : ℕ) (c : Client D) → waiting (round size c) ≤ waiting c - 1
  unfolding round run_callback take
  waiting-round size c = elim (List-cases c.subscription.scheduled) [
    | inl e ↦ elim (List-cases c.subscription.queue) [
      | inl f ↦ rw (e, f) omega arith
      | inr (x, rest, f) ↦ rw (e, f) omega arith
    ]
    | inr (e, rest, p) ↦
        let q = queue_after size c.subscription.queue e in
        elim (List-cases q) [
          | inl f ↦ rw (p, f) omega arith
          | inr (x, more, f) ↦
              rw (p, f)
                (ground (
                  arith,
                  queue_after-length size c.subscription.queue e,
                  ap (length {A = Event D}) f,
                ))
        ]
  ]

  round-IsInformed :
      (size start : ℕ) (c : Client D)
      → IsInformed size start c
      → IsInformed size start (round size c)
  unfolding round
  round-IsInformed size start c k =
      takes-IsInformed size start (record c { subscription = run_callback size c.subscription })
        (calls-IsInformed size start c k)

  published-round : (size : ℕ) (c : Client D) → (round size c).published ≡ c.published
  unfolding round take
  published-round size c = elim (List-cases (run_callback size c.subscription).queue) [
    | inl e ↦ rw e refl
    | inr (x, rest, e) ↦ rw e refl
  ]

  nothing_waits :
      (size start published : ℕ) (received queue scheduled : List (Event D))
      → Informed size start published received queue scheduled
      → length scheduled + length queue ≤ 0
      → (m : ℕ) → start < m
      → m ≤ published
      → (has m received || resync_after m received) ≡ true
  nothing_waits size start published received [] [] k l m above below =
      ground (arith, k.informed m above below)
  nothing_waits size start published received (e ∷ queue) scheduled k l m above below =
      absurd (omega (arith, l))
  nothing_waits size start published received [] (e ∷ scheduled) k l m above below =
      absurd (omega (arith, l))

  -- A subscriber that catches up, with at least as many rounds as events wait, ends with nothing
  -- waiting: then each number that its board has given out since it joined is one that it received,
  -- or is below one whose event asked it to read the board anew.
  pub catch_up-received :
      (size start n : ℕ) (c : Client D)
      → IsInformed size start c
      → waiting c ≤ n
      → (waiting (catch_up size n c) ≡ 0)
        × ((catch_up size n c).published ≡ c.published)
        × ((m : ℕ)
            → start < m
            → m ≤ c.published
            → (has m (catch_up size n c).received || resync_after m (catch_up size n c).received)
              ≡ true)
  unfolding catch_up
  catch_up-received size start zero c k l = (
    omega (arith, l),
    refl,
    nothing_waits size start c.published c.received c.subscription.queue c.subscription.scheduled k
        l,
  )
  catch_up-received size start (suc n) c k l =
      let (done, kept, heard) =
        catch_up-received size start n (round size c) (round-IsInformed size start c k)
          (omega (arith, l, waiting-round size c)) in
      let same = published-round size c in
      (done, kept ∙ same, λ m above below. heard m above (omega (arith, below, same)))
