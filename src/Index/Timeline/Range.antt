-- ===== src/Index/Timeline/Range.antt =====
-- The queries of `TimelineIndex` on a sorted timeline: the places of `bisect` cut out what a filter
-- selects.
use Prim.Native.String.{◌++◌ as then}
use embers_diaries.Prelude.{
  ◌+◌, ◌-◌, ◌≤◌, String, Bool, true, false, Option, List, [], ◌∷◌, ◌++◌, ◌≡◌, ◌⊎◌, refl, ap, ◌∙◌,
  arith, All, length, length-append, take, drop, select, not, ◌&&◌, Bool-cases, inl, inr, text_lt,
  text_lt_irrefl, text_lt_trans, text_lt_total, eq_iff, fun_ext,
}
use embers_diaries.Core.Record.{Time}
use embers_diaries.Index.Timeline.{
  Entry, entry_lt, lt_point, point_lt, place, bisect_left, bisect_right, TimelineIndex, timeline_of,
  Moment, ids, slice, bound, range_query,
}
use embers_diaries.Index.Timeline.Bisect.{place-Splits, take-append, drop-append}

-- Each entry is no greater than those after it.
abbrev pub IsSorted : List Entry → Type 0
IsSorted [] = Unit
IsSorted (x ∷ xs) = All (λ y. entry_lt y x ≡ false) xs × IsSorted xs

-- What holds of an entry holds of the lesser ones.
abbrev pub IsDownward : (Entry → Bool) → Type 0
IsDownward right = (x y : Entry) → entry_lt y x ≡ false → right y ≡ true → right x ≡ true

select_none : (p : Entry → Bool) (xs : List Entry) → All (λ x. p x ≡ false) xs → select p xs ≡ []
select_none p [] h = refl
select_none p (x ∷ xs) h = rw (h.0, select_none p xs h.1) refl

select_every : (p : Entry → Bool) (xs : List Entry) → All (λ x. p x ≡ true) xs → select p xs ≡ xs
select_every p [] h = refl
select_every p (x ∷ xs) h = rw (h.0, select_every p xs h.1) refl

pub All-select : (p : Entry → Bool) (xs : List Entry) → All (λ x. p x ≡ true) (select p xs)
All-select p [] = tt
All-select p (x ∷ xs) = elim (Bool-cases (p x)) [
  | inl e ↦ rw e (e, All-select p xs)
  | inr e ↦ rw e (All-select p xs)
]

pub All-map :
    {P Q : Entry → Type 0} (xs : List Entry) → ((x : Entry) → P x → Q x) → All P xs → All Q xs
All-map [] f h = tt
All-map (x ∷ xs) f h = (f x h.0, All-map xs f h.1)

-- The entries that a filter leaves out.
abbrev pub others : (Entry → Bool) → List Entry → List Entry
others p xs = select (λ x. not (p x)) xs

pub All-others : (p : Entry → Bool) (xs : List Entry) → All (λ x. p x ≡ false) (others p xs)
All-others p xs = All-map (others p xs) (λ x h. ground (arith, h)) (All-select (λ x. not (p x)) xs)

module _ (right : Entry → Bool) (down : IsDownward right) where
  none_after :
      (x : Entry) (xs : List Entry)
      → right x ≡ false
      → All (λ y. entry_lt y x ≡ false) xs
      → All (λ y. right y ≡ false) xs
  none_after x xs e h = All-map xs (λ y le. ground (arith, e, le, down x y le)) h

  -- A sorted list is what lies left of the place, then the rest.
  pub split-IsSorted : (xs : List Entry) → IsSorted xs → xs ≡ select right xs ++ others right xs
  split-IsSorted [] s = refl
  split-IsSorted (x ∷ xs) s = elim (Bool-cases (right x)) [
    | inl e ↦ rw e (ap (λ l. x ∷ l) (split-IsSorted xs s.1))
    | inr e ↦
        let out = none_after x xs e s.0 in
        rw e (
          rw
            (
              select_none right xs out,
              select_every (λ y. not (right y)) xs (All-map xs (λ y h. ground (arith, h)) out),
            )
            refl)
  ]

  pub place-IsSorted : (xs : List Entry) → IsSorted xs → place right xs ≡ length (select right xs)
  place-IsSorted xs s =
      ap (place right) (split-IsSorted xs s)
      ∙ place-Splits right (select right xs) (others right xs)
          (All-select right xs, All-others right xs)

select-append :
    (p : Entry → Bool) (xs ys : List Entry) → select p (xs ++ ys) ≡ select p xs ++ select p ys
select-append p [] ys = refl
select-append p (x ∷ xs) ys = ground (arith, select-append p xs ys)

select_twice :
    (p q : Entry → Bool) (xs : List Entry) → select q (select p xs) ≡ select (λ x. p x && q x) xs
select_twice p q [] = refl
select_twice p q (x ∷ xs) = ground (arith, select_twice p q xs)

length-select : (p : Entry → Bool) (xs : List Entry) → length (select p xs) ≤ length xs
length-select p [] = omega arith
length-select p (x ∷ xs) = ground (arith, length-select p xs)

take_every : (xs : List Entry) → take (length xs) xs ≡ xs
take_every [] = refl
take_every (x ∷ xs) = ap (λ l. x ∷ l) (take_every xs)

IsSorted-select : (p : Entry → Bool) (xs : List Entry) → IsSorted xs → IsSorted (select p xs)
IsSorted-select p [] s = tt
IsSorted-select p (x ∷ xs) s = elim (Bool-cases (p x)) [
  | inl e ↦ rw e (All_select p xs s.0, IsSorted-select p xs s.1)
  | inr e ↦ rw e (IsSorted-select p xs s.1)
]
  where
    All_select :
        (q : Entry → Bool) (ys : List Entry)
        → All (λ y. entry_lt y x ≡ false) ys
        → All (λ y. entry_lt y x ≡ false) (select q ys)
    All_select q [] h = tt
    All_select q (y ∷ ys) h = elim (Bool-cases (q y)) [
      | inl e ↦ rw e (h.0, All_select q ys h.1)
      | inr e ↦ rw e (All_select q ys h.1)
    ]

-- The number that the places of two bounds differ by takes what lies below the upper one, where the
-- front is all below it, or nothing of the rest is.
cut_between :
    (right : Entry → Bool) (front back : List Entry)
    → back ≡ select right back ++ others right back
    → All (λ e. right e ≡ true) front ⊎ All (λ e. right e ≡ false) back
    → take (length (select right front) + length (select right back) - length front) back
      ≡ select right back
cut_between right front back parts (inl h) =
    let count : length (select right front) + length (select right back) - length front
        ≡ length (select right back) =
      omega (arith, ap length (select_every right front h)) in
    rw count (
      ap (take (length (select right back))) parts
      ∙ take-append (select right back) (others right back))
cut_between right front back parts (inr h) =
    let none = select_none right back h in
    let count : length (select right front) + length (select right back) - length front ≡ 0 =
      omega (arith, ap length none, length-select right front) in
    rw (count, none) refl

module _ (left right : Entry → Bool) (left_down : IsDownward left)
    (right_down : IsDownward right) where
  -- What the place of one bound and that of another cut out is what lies between them.
  pub slice-IsSorted :
      (xs : List Entry)
      → IsSorted xs
      → ((e : Entry) → left e ≡ true → right e ≡ true)
        ⊎ ((e : Entry) → right e ≡ true → left e ≡ true)
      → slice (place left xs) (place right xs) xs ≡ select (λ e. not (left e) && right e) xs
  slice-IsSorted xs s nested =
      let front = select left xs in
      let back = others left xs in
      let lo : place left xs ≡ length front = place-IsSorted left left_down xs s in
      let hi : place right xs ≡ length (select right front) + length (select right back) =
        place-IsSorted right right_down xs s
        ∙ ap (λ l. length (select right l)) (split-IsSorted left left_down xs s)
        ∙ ap length (select-append right front back)
        ∙ length-append (select right front) (select right back) in
      let rest : drop (length front) xs ≡ back =
        ap (drop (length front)) (split-IsSorted left left_down xs s) ∙ drop-append front back in
      let parts = split-IsSorted right right_down back (IsSorted-select (λ e. not (left e)) xs s) in
      let cut = cut_between right front back parts (compare_parts nested) in
      ap (λ n. take (place right xs - n) (drop n xs)) lo
      ∙ ap (take (place right xs - length front)) rest
      ∙ ap (λ n. take (n - length front) back) hi
      ∙ cut
      ∙ select_twice (λ e. not (left e)) right xs
    where
      compare_parts :
          ((e : Entry) → left e ≡ true → right e ≡ true)
            ⊎ ((e : Entry) → right e ≡ true → left e ≡ true)
          → All (λ e. right e ≡ true) (select left xs) ⊎ All (λ e. right e ≡ false) (others left xs)
      compare_parts (inl f) = inl (All-map (select left xs) f (All-select left xs))
      compare_parts (inr f) =
          inr (All-map (others left xs) (λ e h. ground (arith, h, f e)) (All-others left xs))

-- The entries below a text come first, and both places of a text are theirs.
lt_point-IsDownward : (s : String) → IsDownward (lt_point s)
unfolding lt_point entry_lt
lt_point-IsDownward s x y le h = ground (
  arith,
  le,
  h,
  text_lt_trans x.stamp y.stamp s,
  text_lt_total x.stamp y.stamp,
  eq_iff y.stamp x.stamp,
)

not-point_lt : (s : String) → (λ e. not (point_lt s e)) ≡ lt_point s
unfolding lt_point point_lt
not-point_lt s = fun_ext λ e.
    ground (
      arith,
      text_lt_total s e.stamp,
      text_lt_trans s e.stamp s,
      text_lt_irrefl s,
      eq_iff s e.stamp,
    )

pub bisect_right-left : (xs : List Entry) (s : String) → bisect_right xs s ≡ bisect_left xs s
unfolding bisect_right bisect_left
bisect_right-left xs s = ap (λ f. place f xs) (not-point_lt s)

-- Of two texts, the entries below one are below the other.
below_nested :
    (s t : String)
    → ((e : Entry) → lt_point s e ≡ true → lt_point t e ≡ true)
      ⊎ ((e : Entry) → lt_point t e ≡ true → lt_point s e ≡ true)
unfolding lt_point
below_nested s t = elim (Bool-cases (text_lt s t)) [
  | inl e ↦ inl (λ x h. text_lt_trans x.stamp s t h e)
  | inr e ↦ inr (λ x h. ground (arith, e, h, text_lt_trans x.stamp t s, text_lt_total s t))
]

module _ (isoformat : Time → String) where
  -- Whether an entry lies in the range of a query: not before the start, and before the end with a
  -- "z" behind it.
  abbrev pub in_range : Option Moment → Option Moment → Entry → Bool
  in_range start end e =
      not (lt_point (bound isoformat "" start) e)
      && lt_point (then (bound isoformat "9999-12-31T23:59:59" end) "z") e

  pub range_query-IsSorted :
      (t : TimelineIndex) (namespace : String) (start end : Option Moment)
      → IsSorted (timeline_of t namespace)
      → range_query isoformat t namespace start end
        ≡ ids (select (in_range start end) (timeline_of t namespace))
  unfolding range_query bisect_left
  range_query-IsSorted t namespace start end s =
      let xs = timeline_of t namespace in
      let lower = bound isoformat "" start in
      let upper = then (bound isoformat "9999-12-31T23:59:59" end) "z" in
      ap (λ hi. ids (slice (bisect_left xs lower) hi xs)) (bisect_right-left xs upper)
      ∙ ap ids (
          slice-IsSorted (lt_point lower) (lt_point upper) (lt_point-IsDownward lower)
            (lt_point-IsDownward upper) xs s (below_nested lower upper))
