-- ===== src/Index/Timeline/Tests.antt =====
-- The timeline index on concrete entries.
use embers_diaries.Prelude.{arith, String, none, some, List, [], ◌∷◌, ◌≡◌, refl, select}
use embers_diaries.Core.Record.{Time}
use embers_diaries.Index.Timeline.{
  Entry, TimelineIndex, timeline_of, at_text, ids, range_query, before, after, latest, oldest,
  insort,
}
use embers_diaries.Index.Timeline.Range.{IsSorted, in_range}
use embers_diaries.Index.Timeline.Runs.{
  Added, run, replay, no_entries, occurrences, range_query-run, run_order,
}

abbrev made : String → String → Added
made stamp id = record { namespace = "lab"; entry = record { stamp = stamp; id = id } }

abbrev calls_again : List Added
calls_again = made "2024-02" "b" ∷ made "2024-03" "c" ∷ made "2024-01" "a" ∷ []

abbrev calls : List Added
calls = made "2024-03" "c" ∷ made "2024-01" "a" ∷ made "2024-02" "b" ∷ []

abbrev never : Time → String
never t = ""

range_of_calls :
    range_query never (run calls []) "lab" (some (at_text "2024-02")) none ≡ "b" ∷ "c" ∷ []
unfolding range_query run embers_diaries.Index.Timeline.bisect_right embers_diaries.Dict.get
    embers_diaries.Index.Timeline.add embers_diaries.Dict.put embers_diaries.Index.Timeline.bound
    embers_diaries.Index.Timeline.bisect_left
range_of_calls = refl

end_of_range_counts :
    range_query never (run calls []) "lab" none (some (at_text "2024-02")) ≡ "a" ∷ "b" ∷ []
unfolding range_query run embers_diaries.Index.Timeline.bisect_right embers_diaries.Dict.get
    embers_diaries.Index.Timeline.add embers_diaries.Dict.put embers_diaries.Index.Timeline.bound
    embers_diaries.Index.Timeline.bisect_left
end_of_range_counts = refl

before_and_after :
    (before never (run calls []) "lab" (at_text "2024-03") 1 ≡ "b" ∷ [])
    × (after never (run calls []) "lab" (at_text "2024-01") 1 ≡ "b" ∷ [])
unfolding before after run embers_diaries.Index.Timeline.bisect_left embers_diaries.Dict.get
    embers_diaries.Index.Timeline.add embers_diaries.Dict.put
    embers_diaries.Index.Timeline.bisect_right
before_and_after = (refl, refl)

latest_and_oldest :
    (latest (run calls []) "lab" 2 ≡ "b" ∷ "c" ∷ [])
    × (oldest (run calls []) "lab" 2 ≡ "a" ∷ "b" ∷ [])
unfolding latest oldest run embers_diaries.Dict.get embers_diaries.Index.Timeline.add
    embers_diaries.Dict.put
latest_and_oldest = (refl, refl)

-- `timeline[-0:]` is the whole list.
latest_of_none : latest (run calls []) "lab" 0 ≡ "a" ∷ "b" ∷ "c" ∷ []
unfolding latest run embers_diaries.Dict.get embers_diaries.Index.Timeline.add
    embers_diaries.Dict.put
latest_of_none = refl

range_query-run_example :
    (xs : List Entry) × IsSorted xs
    × ((e : Entry) → occurrences e xs ≡ replay calls no_entries "lab" e)
    × (range_query never (run calls []) "lab" (some (at_text "2024-02")) none
        ≡ ids (select (in_range never (some (at_text "2024-02")) none) xs))
range_query-run_example = range_query-run never calls "lab" (some (at_text "2024-02")) none

counted_alike :
    (e : Entry) → replay calls no_entries "lab" e ≡ replay calls_again no_entries "lab" e
unfolding replay
counted_alike e = omega arith

run_order_example : timeline_of (run calls []) "lab" ≡ timeline_of (run calls_again []) "lab"
run_order_example = run_order calls calls_again "lab" counted_alike
