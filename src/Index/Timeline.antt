-- ===== src/Index/Timeline.antt =====
-- embers/index/timeline.py: TimelineIndex, one sorted list of (timestamp, id) pairs for each
-- namespace, with `bisect` of Python's library. A limit is not negative.
pub mod Bisect
pub mod Range
pub mod Runs
mod Tests
use Prim.Native.String.{◌++◌}
use embers_diaries.Prelude.{
  ℕ, zero, suc, ◌+◌, ◌-◌, ◌/◌, String, Bool, true, false, Option, none, some, List, [], ◌∷◌,
  ◌++◌ as append, ◌==◌, ◌&&◌, ◌||◌, map, if◌then◌else◌, not, ltb, nat_eq, length, get_elem?, take,
  drop, text_lt, get_or,
}
use embers_diaries.Dict
use embers_diaries.Dict.{Dict}
use embers_diaries.Core.Record.{Time}

pub record Entry : Type 0 where
  pub stamp : String
  pub id : String

-- `a < b`, of two pairs.
unfoldable pub entry_lt : Entry → Entry → Bool
entry_lt a b = text_lt a.stamp b.stamp || (a.stamp == b.stamp && text_lt a.id b.id)

-- `e < (s,)` and `(s,) < e`: where the first parts are equal, the shorter tuple is the lesser one.
unfoldable pub lt_point : String → Entry → Bool
lt_point s e = text_lt e.stamp s

unfoldable pub point_lt : String → Entry → Bool
point_lt s e = text_lt s e.stamp || s == e.stamp

-- The loop of `bisect`: `right` says whether the place lies right of an element.
unfoldable pub bisect : (Entry → Bool) → List Entry → ℕ → ℕ → ℕ → ℕ
bisect right xs zero lo hi = lo
bisect right xs (suc fuel) lo hi =
    let mid = (lo + hi) / 2 in
    elim (ltb lo hi) [
      | false ↦ lo
      | true ↦ elim (get_elem? xs mid) [
        | none ↦ lo
        | some e ↦ elim (right e) [
          | true ↦ bisect right xs fuel (mid + 1) hi
          | false ↦ bisect right xs fuel lo mid
        ]
      ]
    ]

abbrev pub place : (Entry → Bool) → List Entry → ℕ
place right xs = bisect right xs (length xs + 1) 0 (length xs)

-- `bisect_left(timeline, (s,))` and `bisect_right(timeline, (s,))`
unfoldable pub bisect_left : List Entry → String → ℕ
unfolding bisect lt_point
bisect_left xs s = place (lt_point s) xs

unfoldable pub bisect_right : List Entry → String → ℕ
unfolding bisect point_lt
bisect_right xs s = place (λ e. not (point_lt s e)) xs

-- `bisect.insort(timeline, entry)`
unfoldable pub insort : Entry → List Entry → List Entry
unfolding bisect entry_lt
insort e xs = let i = place (λ x. not (entry_lt e x)) xs in append (take i xs) (e ∷ drop i xs)

-- `_timelines`
abbrev pub TimelineIndex : Type 0
TimelineIndex = Dict (List Entry)

abbrev pub timeline_of : TimelineIndex → String → List Entry
timeline_of t namespace = get_or (Dict.get t namespace) []

-- `add`
unfoldable pub add : String → String → String → TimelineIndex → TimelineIndex
unfolding insort
add record_id namespace timestamp t =
    Dict.put t namespace
      (insort (record { stamp = timestamp; id = record_id }) (timeline_of t namespace))

-- A bound of a query, as text or as a datetime with its `isoformat`.
pub data Moment : Type 0 where
  at_text : String → Moment
  at_time : Time → Moment

abbrev pub ids : List Entry → List String
ids = map (λ (e : Entry). e.id)

-- `xs[lo:hi]`
abbrev pub slice : ℕ → ℕ → List Entry → List Entry
slice lo hi xs = take (hi - lo) (drop lo xs)

module _ (isoformat : Time → String) where
  iso : Moment → String
  iso (at_text s) = s
  iso (at_time t) = isoformat t

  -- `isoformat() if isinstance(…) else (bound or default)`
  unfoldable pub bound : String → Option Moment → String
  unfolding iso
  bound default none = default
  bound default (some (at_text s)) = if s == "" then default else s
  bound default (some (at_time t)) = iso (at_time t)

  -- `range_query`
  unfoldable pub range_query : TimelineIndex → String → Option Moment → Option Moment → List String
  range_query t namespace start end =
      let timeline = timeline_of t namespace in
      let lo = bisect_left timeline (bound "" start) in
      let hi = bisect_right timeline (bound "9999-12-31T23:59:59" end ++ "z") in
      ids (slice lo hi timeline)

  -- `before` and `after`
  unfoldable pub before : TimelineIndex → String → Moment → ℕ → List String
  unfolding iso
  before t namespace timestamp limit =
      let timeline = timeline_of t namespace in
      let idx = bisect_left timeline (iso timestamp) in ids (slice (idx - limit) idx timeline)

  unfoldable pub after : TimelineIndex → String → Moment → ℕ → List String
  unfolding iso
  after t namespace timestamp limit =
      let timeline = timeline_of t namespace in
      let idx = bisect_right timeline (iso timestamp ++ "z") in
      ids (slice idx (idx + limit) timeline)

-- `latest`: `timeline[-0:]` is the whole list.
unfoldable pub latest : TimelineIndex → String → ℕ → List String
latest t namespace limit =
    let timeline = timeline_of t namespace in
    ids (if nat_eq limit 0 then timeline else drop (length timeline - limit) timeline)

-- `oldest`
unfoldable pub oldest : TimelineIndex → String → ℕ → List String
oldest t namespace limit = ids (take limit (timeline_of t namespace))

-- `count` and `namespaces`
unfoldable pub count : TimelineIndex → String → ℕ
count t namespace = length (timeline_of t namespace)

unfoldable pub namespaces : TimelineIndex → List String
namespaces t = Dict.keys t
