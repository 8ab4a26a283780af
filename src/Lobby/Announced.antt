-- ===== src/Lobby/Announced.antt =====
-- One subscriber of a board, from its subscription on (embers/lobby/realtime.py): what was published,
-- what its event loop and its queue hold, and what it has received.
use embers_diaries.Prelude.{
  ℕ, ◌+◌, ◌≤◌, ◌<◌, Bool, true, false, Option, none, some, List, [], ◌∷◌, ◌++◌, ◌≡◌, refl, arith,
  ◌||◌, ◌&&◌, nat_eq, ltb, any_of, length, length-append, inl, inr, ◌⊎◌,
}
use embers_diaries.Lobby.Realtime.{Event, LobbySubscription, is_full, schedule, run_callback, take}

any_of-append :
    {A : Type 0} (test : A → Bool) (xs ys : List A)
    → any_of test (xs ++ ys) ≡ (any_of test xs || any_of test ys)
any_of-append test [] ys = refl
any_of-append test (x ∷ xs) ys = ground (arith, any_of-append test xs ys)

pub List-cases :
    {A : Type 0} (xs : List A) → (xs ≡ []) ⊎ ((x : A) × (rest : List A) × (xs ≡ x ∷ rest))
List-cases [] = inl refl
List-cases (x ∷ rest) = inr (x, rest, refl)

-- A subscriber, and the last number that its board has given out.
pub record Client (D : Type 0) : Type 0 where
  pub subscription : LobbySubscription D
  pub received : List (Event D)
  pub published : ℕ

module _ {D : Type 0} where
  -- What the subscriber has received or will find in its queue.
  abbrev pub visible : Client D → List (Event D)
  visible c = c.received ++ c.subscription.queue

  abbrev pub has : ℕ → List (Event D) → Bool
  has n es = any_of (λ e. nat_eq e.sequence n) es

  -- Some later event says that the subscriber must read the board anew.
  abbrev pub resync_after : ℕ → List (Event D) → Bool
  resync_after n es = any_of (λ e. ltb n e.sequence && e.resync_required) es

  -- The numbers rise, from above `lo` to at most `hi`.
  abbrev pub Rises : ℕ → List (Event D) → ℕ → Type 0
  Rises lo [] hi = lo ≤ hi
  Rises lo (e ∷ es) hi = (lo < e.sequence) × Rises e.sequence es hi

  Rises-le : (lo : ℕ) (es : List (Event D)) (hi : ℕ) → Rises lo es hi → lo ≤ hi
  Rises-le lo [] hi r = r
  Rises-le lo (e ∷ es) hi (l, r) = omega (arith, l, Rises-le e.sequence es hi r)

  Rises-weak :
      (lo lo' : ℕ) (es : List (Event D)) (hi : ℕ) → lo ≤ lo' → Rises lo' es hi → Rises lo es hi
  Rises-weak lo lo' [] hi l r = omega (arith, l, r)
  Rises-weak lo lo' (e ∷ es) hi l (k, r) = (omega (arith, l, k), r)

  Rises-split :
      (lo : ℕ) (xs ys : List (Event D)) (hi : ℕ)
      → Rises lo (xs ++ ys) hi
      → (mid : ℕ) × Rises lo xs mid × Rises mid ys hi
  Rises-split lo [] ys hi r = (lo, omega arith, r)
  Rises-split lo (e ∷ xs) ys hi (l, r) =
      let (mid, below, above) = Rises-split e.sequence xs ys hi r in (mid, (l, below), above)

  Rises-append :
      (lo : ℕ) (xs ys : List (Event D)) (mid hi : ℕ)
      → Rises lo xs mid
      → Rises mid ys hi
      → Rises lo (xs ++ ys) hi
  Rises-append lo [] ys mid hi a b = Rises-weak lo mid ys hi a b
  Rises-append lo (e ∷ xs) ys mid hi (l, a) b = (l, Rises-append e.sequence xs ys mid hi a b)

  -- The steps of a subscriber: its board publishes and its loop takes the call, its loop makes the
  -- first call, or it takes an event from its queue.
  abbrev pub receive : Option (Event D) × LobbySubscription D → Client D → Client D
  receive (none, x) c = c
  receive (some e, x) c = record c { subscription = x; received = c.received ++ e ∷ [] }

  pub data Step (size : ℕ) : Client D → Client D → Type 0 where
    publishes :
        {c : Client D} (e : Event D)
        → e.sequence ≡ c.published + 1
        → e.resync_required ≡ false
        → Step size c
            (record c { subscription = schedule e c.subscription; published = c.published + 1 })
    calls :
        {c : Client D} → Step size c (record c { subscription = run_callback size c.subscription })
    takes : {c : Client D} → Step size c (receive (take c.subscription) c)

  pub data Steps (size : ℕ) : Client D → Client D → Type 0 where
    none_left : {c : Client D} → Steps size c c
    then_on : {a b c : Client D} → Step size a b → Steps size b c → Steps size a c

  pub record Informed (size start published : ℕ) (received queue scheduled : List (Event D))
      : Type 0 where
    -- The numbers rise: in what was received, then in the queue, then in what the loop holds.
    pub rising : (a b : ℕ) × Rises start received a × Rises a queue b × Rises b scheduled published
    pub informed :
        (n : ℕ)
        → start < n
        → n ≤ published
        → (has n received
            || has n queue
            || has n scheduled
            || resync_after n received
            || resync_after n queue)
          ≡ true
    pub bounded : 0 < size → length queue ≤ size

  -- What a subscriber that joined after the number `start` may count on.
  abbrev pub IsInformed : ℕ → ℕ → Client D → Type 0
  IsInformed size start c =
      Informed size start c.published c.received c.subscription.queue c.subscription.scheduled

  pub publishes-Informed :
      (size start published : ℕ) (received queue scheduled : List (Event D)) (e : Event D)
      → e.sequence ≡ published + 1
      → Informed size start published received queue scheduled
      → Informed size start (published + 1) received queue (scheduled ++ e ∷ [])
  publishes-Informed size start published received queue scheduled e p k =
      let (a, b, first, second, third) = k.rising in
      let last : Rises published (e ∷ []) (published + 1) = (omega (arith, p), omega (arith, p)) in
      record {
        rising = (
          a,
          b,
          first,
          second,
          Rises-append b scheduled (e ∷ []) published (published + 1) third last,
        );
        informed = λ n l u. ground (
          arith,
          k.informed n l,
          any_of-append (λ (x : Event D). nat_eq x.sequence n) scheduled (e ∷ []),
          p,
          u,
        );
        bounded = k.bounded;
      }

  pub keeps-Informed :
      (size start published : ℕ) (received queue scheduled : List (Event D)) (e : Event D)
      → is_full size queue ≡ false
      → Informed size start published received queue (e ∷ scheduled)
      → Informed size start published received (queue ++ e ∷ []) scheduled
  keeps-Informed size start published received queue scheduled e p k =
      let (a, b, first, second, (l, third)) = k.rising in
      record {
        rising = (
          a,
          e.sequence,
          first,
          Rises-append a queue (e ∷ []) b e.sequence second (l, omega arith),
          third,
        );
        informed = λ n l u. ground (
          arith,
          k.informed n l u,
          any_of-append (λ (x : Event D). nat_eq x.sequence n) queue (e ∷ []),
          any_of-append (λ (x : Event D). ltb n x.sequence && x.resync_required) queue (e ∷ []),
        );
        bounded = λ l. ground (arith, k.bounded l, length-append queue (e ∷ []), p);
      }

  pub drops-Informed :
      (size start published : ℕ) (received queue scheduled : List (Event D)) (h e : Event D)
      → Informed size start published received (h ∷ queue) (e ∷ scheduled)
      → Informed size start published received
          (queue ++ record e { resync_required = true } ∷ [])
          scheduled
  drops-Informed size start published received queue scheduled h e k =
      let (a, b, first, (m, second), (l, third)) = k.rising in
      let marked = record e { resync_required = true } in
      let later : h.sequence ≤ b = Rises-le h.sequence queue b second in
      record {
        rising = (
          a,
          e.sequence,
          first,
          Rises-append a queue (marked ∷ []) b e.sequence
              (Rises-weak a h.sequence queue b (omega (arith, m)) second) (l, omega arith),
          third,
        );
        informed = λ n v u. ground (
          arith,
          k.informed n v u,
          later,
          l,
          any_of-append (λ (x : Event D). nat_eq x.sequence n) queue (marked ∷ []),
          any_of-append (λ (x : Event D). ltb n x.sequence && x.resync_required) queue
              (marked ∷ []),
        );
        bounded = λ l. ground (arith, k.bounded l, length-append queue (marked ∷ []));
      }

  pub takes-Informed :
      (size start published : ℕ) (received queue scheduled : List (Event D)) (e : Event D)
      → Informed size start published received (e ∷ queue) scheduled
      → Informed size start published (received ++ e ∷ []) queue scheduled
  takes-Informed size start published received queue scheduled e k =
      let (a, b, first, (l, second), third) = k.rising in
      record {
        rising = (
          e.sequence,
          b,
          Rises-append start received (e ∷ []) a e.sequence first (l, omega arith),
          second,
          third,
        );
        informed = λ n v u. ground (
          arith,
          k.informed n v u,
          any_of-append (λ (x : Event D). nat_eq x.sequence n) received (e ∷ []),
          any_of-append (λ (x : Event D). ltb n x.sequence && x.resync_required) received (e ∷ []),
        );
        bounded = λ l. ground (arith, k.bounded l);
      }
