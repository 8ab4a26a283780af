-- ===== src/Index/Timeline/Runs.antt =====
-- Runs of `TimelineIndex.add`: what a timeline keeps of the entries that were added.
use embers_diaries.Prelude.{
  ℕ, ◌+◌, String, Bool, true, false, List, [], ◌∷◌, ◌++◌, ◌≡◌, refl, sym, ap, ◌∙◌, subst, arith,
  All, length, take, drop, select, not, ◌&&◌, Bool-cases, inl, inr, text_lt_irrefl, text_lt_trans,
  text_lt_total, eq_iff, eq_refl, ◌==◌, if◌then◌else◌, Option, ◌<◌,
}
use embers_diaries.Dict
use embers_diaries.Core.Record.{Time}
use embers_diaries.Index.Timeline.{
  Entry, entry_lt, insort, add, TimelineIndex, timeline_of, Moment, ids, range_query,
}
use embers_diaries.Index.Timeline.Bisect.{take-append, drop-append}
use embers_diaries.Index.Timeline.Range.{
  IsSorted, IsDownward, place-IsSorted, split-IsSorted, others, All-select, All-others, All-map,
  in_range, range_query-IsSorted,
}

entry_lt_le : (e x y : Entry) → entry_lt e x ≡ true → entry_lt y x ≡ false → entry_lt e y ≡ true
unfolding entry_lt
entry_lt_le e x y p q = ground (
  arith,
  p,
  q,
  text_lt_trans e.stamp x.stamp y.stamp,
  text_lt_total x.stamp y.stamp,
  text_lt_trans e.id x.id y.id,
  text_lt_total x.id y.id,
  eq_iff e.stamp x.stamp,
  eq_iff x.stamp y.stamp,
  eq_iff y.stamp x.stamp,
  eq_iff e.stamp y.stamp,
)

entry_lt_total : (a b : Entry) → entry_lt a b ≡ false → entry_lt b a ≡ false → a ≡ b
unfolding entry_lt
entry_lt_total a b p q = ground (
  arith,
  p,
  q,
  text_lt_total a.stamp b.stamp,
  text_lt_total a.id b.id,
  eq_iff a.stamp b.stamp,
  eq_iff b.stamp a.stamp,
)

entry_lt_asym : (a b : Entry) → entry_lt a b ≡ true → entry_lt b a ≡ false
unfolding entry_lt
entry_lt_asym a b p = ground (
  arith,
  p,
  text_lt_trans a.stamp b.stamp a.stamp,
  text_lt_irrefl a.stamp,
  text_lt_trans a.id b.id a.id,
  text_lt_irrefl a.id,
  eq_iff a.stamp b.stamp,
  eq_iff b.stamp a.stamp,
)

-- Whether an entry stays before a new one.
abbrev stays_before : Entry → Entry → Bool
stays_before e x = not (entry_lt e x)

stays_before-IsDownward : (e : Entry) → IsDownward (stays_before e)
stays_before-IsDownward e x y le h = ground (arith, le, h, entry_lt_le e x y)

insort_lem :
    (e : Entry) (xs : List Entry)
    → IsSorted xs
    → insort e xs ≡ select (stays_before e) xs ++ e ∷ others (stays_before e) xs
unfolding insort
insort_lem e xs s =
    let parts = split-IsSorted (stays_before e) (stays_before-IsDownward e) xs s in
    let at = place-IsSorted (stays_before e) (stays_before-IsDownward e) xs s in
    let front = select (stays_before e) xs in
    let back = others (stays_before e) xs in
    ap (λ i. take i xs ++ e ∷ drop i xs) at
    ∙ ap (λ l. take (length front) l ++ e ∷ drop (length front) l) parts
    ∙ (λ i. take-append front back i ++ e ∷ drop-append front back i)

All-insert :
    (P : Entry → Type 0) (xs ys : List Entry) (e : Entry)
    → P e
    → All P (xs ++ ys)
    → All P (xs ++ e ∷ ys)
All-insert P [] ys e p h = (p, h)
All-insert P (x ∷ xs) ys e p h = (h.0, All-insert P xs ys e p h.1)

IsSorted_insert :
    (xs ys : List Entry) (e : Entry)
    → IsSorted (xs ++ ys)
    → All (λ x. stays_before e x ≡ true) xs
    → All (λ x. stays_before e x ≡ false) ys
    → IsSorted (xs ++ e ∷ ys)
IsSorted_insert [] ys e s a b = (All-map ys (λ y h. entry_lt_asym e y (ground (arith, h))) b, s)
IsSorted_insert (x ∷ xs) ys e s a b = (
  All-insert (λ y. entry_lt y x ≡ false) xs ys e (ground (arith, a.0)) s.0,
  IsSorted_insert xs ys e s.1 a.1 b,
)

pub insort-IsSorted : (e : Entry) (xs : List Entry) → IsSorted xs → IsSorted (insort e xs)
insort-IsSorted e xs s =
    let p = stays_before e in
    subst (IsSorted) (sym (insort_lem e xs s)) (
      IsSorted_insert (select p xs) (others p xs) e
        (subst (IsSorted) (split-IsSorted p (stays_before-IsDownward e) xs s) s) (All-select p xs)
        (All-others p xs))

-- How often an entry stands in a list.
abbrev is_entry : Entry → Entry → Bool
is_entry a b = a.stamp == b.stamp && a.id == b.id

unfoldable pub occurrences : Entry → List Entry → ℕ
occurrences e [] = 0
occurrences e (x ∷ xs) = (if is_entry x e then 1 else 0) + occurrences e xs

occurrences_insert :
    (a e : Entry) (xs ys : List Entry)
    → occurrences a (xs ++ e ∷ ys) ≡ (if is_entry e a then 1 else 0) + occurrences a (xs ++ ys)
unfolding occurrences
occurrences_insert a e [] ys = refl
occurrences_insert a e (x ∷ xs) ys = ground (arith, occurrences_insert a e xs ys)

occurrences-insort :
    (a e : Entry) (xs : List Entry)
    → IsSorted xs
    → occurrences a (insort e xs) ≡ (if is_entry e a then 1 else 0) + occurrences a xs
occurrences-insort a e xs s =
    let p = stays_before e in
    ap (occurrences a) (insort_lem e xs s)
    ∙ occurrences_insert a e (select p xs) (others p xs)
    ∙ ap (λ l. (if is_entry e a then 1 else 0) + occurrences a l)
        (sym (split-IsSorted p (stays_before-IsDownward e) xs s))

-- A call of `add`.
pub record Added : Type 0 where
  pub namespace : String
  pub entry : Entry

unfoldable pub run : List Added → TimelineIndex → TimelineIndex
run [] t = t
run (a ∷ as') t = run as' (add a.entry.id a.namespace a.entry.stamp t)

-- The abstract view of an index: how often an entry was added in a namespace.
abbrev pub Bags : Type 0
Bags = String → Entry → ℕ

unfoldable pub replay : List Added → Bags → Bags
replay [] b = b
replay (a ∷ as') b = replay as' (λ namespace e.
    (if a.namespace == namespace && is_entry a.entry e then 1 else 0) + b namespace e)

-- What a timeline index shows of the bags.
pub record Shows (t : TimelineIndex) (b : Bags) : Type 0 where
  pub sorted : (namespace : String) → IsSorted (timeline_of t namespace)
  pub counted :
      (namespace : String) (e : Entry) → occurrences e (timeline_of t namespace) ≡ b namespace e

timeline_of-add :
    (t : TimelineIndex) (id namespace stamp other : String)
    → timeline_of (add id namespace stamp t) other ≡ (
        if namespace == other
        then insort (record { stamp = stamp; id = id }) (timeline_of t namespace)
        else timeline_of t other)
unfolding add
timeline_of-add t id namespace stamp other = ground (
  arith,
  Dict.get-put t namespace other
      (insort (record { stamp = stamp; id = id }) (timeline_of t namespace)),
)

add-Shows :
    (t : TimelineIndex) (b : Bags) (a : Added)
    → Shows t b
    → Shows (add a.entry.id a.namespace a.entry.stamp t) (λ namespace e.
      (if a.namespace == namespace && is_entry a.entry e then 1 else 0) + b namespace e)
add-Shows t b a s = record {
  sorted = λ namespace. elim (Bool-cases (a.namespace == namespace)) [
    | inl e ↦
        subst (IsSorted) (sym (timeline_of-add t a.entry.id a.namespace a.entry.stamp namespace))
          (rw e (insort-IsSorted a.entry (timeline_of t a.namespace) (s.sorted a.namespace)))
    | inr e ↦
        subst (IsSorted) (sym (timeline_of-add t a.entry.id a.namespace a.entry.stamp namespace))
          (rw e (s.sorted namespace))
  ];
  counted = λ namespace e.
      ap (occurrences e) (timeline_of-add t a.entry.id a.namespace a.entry.stamp namespace)
      ∙ ground (
        arith,
        occurrences-insort e a.entry (timeline_of t a.namespace) (s.sorted a.namespace),
        s.counted a.namespace e,
        s.counted namespace e,
        eq_iff a.namespace namespace,
      );
}

pub run-Shows :
    (as' : List Added) (t : TimelineIndex) (b : Bags) → Shows t b → Shows (run as' t) (replay as' b)
unfolding run replay
run-Shows [] t b s = s
run-Shows (a ∷ as') t b s = run-Shows as' _ _ (add-Shows t b a s)

entry_lt_irrefl : (e : Entry) → entry_lt e e ≡ false
unfolding entry_lt
entry_lt_irrefl e = ground (arith, text_lt_irrefl e.stamp, text_lt_irrefl e.id)

-- What occurs in a list is no less than what nothing there is less than.
occurs-le :
    (y : Entry) (zs : List Entry) (x : Entry)
    → All (λ z. entry_lt z y ≡ false) zs
    → 0 < occurrences x zs
    → entry_lt x y ≡ false
unfolding occurrences
occurs-le y [] x h p = absurd (omega arith)
occurs-le y (z ∷ zs) x h p = elim (Bool-cases (is_entry z x)) [
  | inl e ↦
      let same : z ≡ x = ground (arith, e, eq_iff z.stamp x.stamp, eq_iff z.id x.id) in
      subst (λ a. entry_lt a y ≡ false) same h.0
  | inr e ↦ occurs-le y zs x h.1 (ground (arith, e, p))
]

pub IsSorted-unique :
    (xs ys : List Entry)
    → IsSorted xs
    → IsSorted ys
    → ((e : Entry) → occurrences e xs ≡ occurrences e ys)
    → xs ≡ ys
unfolding occurrences
IsSorted-unique [] [] s t h = refl
IsSorted-unique [] (y ∷ ys) s t h = absurd (ground (arith, h y, eq_refl y.stamp, eq_refl y.id))
IsSorted-unique (x ∷ xs) [] s t h = absurd (ground (arith, h x, eq_refl x.stamp, eq_refl x.id))
IsSorted-unique (x ∷ xs) (y ∷ ys) s t h =
    let same : x ≡ y =
      entry_lt_total x y
        (occurs-le y (y ∷ ys) x (entry_lt_irrefl y, t.0)
          (ground (arith, h x, eq_refl x.stamp, eq_refl x.id)))
        (occurs-le x (x ∷ xs) y (entry_lt_irrefl x, s.0)
          (ground (arith, h y, eq_refl y.stamp, eq_refl y.id))) in
    let rest =
      IsSorted-unique xs ys s.1 t.1 (λ e.
        ground (arith, h e, ap (λ (z : Entry). z.stamp) same, ap (λ (z : Entry). z.id) same)) in
    λ i. same i ∷ rest i

-- The bags of an index that nothing was added to.
abbrev pub no_entries : Bags
no_entries namespace e = 0

empty-Shows : Shows [] no_entries
unfolding occurrences Dict.get
empty-Shows = record { sorted = λ namespace. tt; counted = λ namespace e. refl }

module _ (isoformat : Time → String) where
  -- After any run of `add` a range query of a namespace gives the ids of the entries in its range, in
  -- the order of the one sorted list that holds each entry as often as it was added there.
  pub range_query-run :
      (as' : List Added) (namespace : String) (start end : Option Moment)
      → (xs : List Entry) × IsSorted xs
        × ((e : Entry) → occurrences e xs ≡ replay as' no_entries namespace e)
        × (range_query isoformat (run as' []) namespace start end
            ≡ ids (select (in_range isoformat start end) xs))
  range_query-run as' namespace start end =
      let shows = run-Shows as' [] no_entries empty-Shows in
      (
        timeline_of (run as' []) namespace,
        shows.sorted namespace,
        shows.counted namespace,
        range_query-IsSorted isoformat (run as' []) namespace start end (shows.sorted namespace),
      )

-- Two runs that add each entry of a namespace equally often, in whatever order, leave the same
-- timeline of that namespace.
pub run_order :
    (as' bs : List Added) (namespace : String)
    → ((e : Entry) → replay as' no_entries namespace e ≡ replay bs no_entries namespace e)
    → timeline_of (run as' []) namespace ≡ timeline_of (run bs []) namespace
run_order as' bs namespace h =
    let left = run-Shows as' [] no_entries empty-Shows in
    let right = run-Shows bs [] no_entries empty-Shows in
    IsSorted-unique (timeline_of (run as' []) namespace) (timeline_of (run bs []) namespace)
      (left.sorted namespace) (right.sorted namespace)
      (λ e. left.counted namespace e ∙ h e ∙ sym (right.counted namespace e))
