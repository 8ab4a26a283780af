-- ===== src/Index/Master/Walks.antt =====
-- The walks along single links of embers/index/master.py (`get_supersession_chain`,
-- `get_version_root`).
use embers_diaries.Prelude.{
  ℕ, suc, ◌+◌, ◌-◌, ◌<◌, String, true, false, none, some, List, [], ◌∷◌, ◌++◌, ◌≡◌, refl, ap, sym,
  ◌∙◌, arith, eq_iff, ◌⊎◌, inl, inr, length, member, member-append, while_inv, NoRepeats,
  NoRepeats-snoc, IsWithin, pigeonhole, Option-cases,
}
use embers_diaries.Dict
use embers_diaries.Dict.{Dict}
use embers_diaries.Index.Master.{
  MasterIndex, Walk, goes_on, step, walk_fuel, walk, walk_from, get_supersession_chain,
  get_version_root,
}

-- A list of nodes from the first to the last, each with a link to the next.
pub data Trail (links : Dict String) (first : String) : List String → String → Type 0 where
  alone : {xs : List String} → xs ≡ first ∷ [] → Trail links first xs first
  onward :
      {xs ys : List String} {b c : String}
      → Trail links first xs b
      → Dict.get links b ≡ some c
      → ys ≡ xs ++ c ∷ []
      → Trail links first ys c

-- The last node has no link, or one back to a node that is listed.
abbrev pub EndsAt : Dict String → List String → String → Type 0
EndsAt links xs last =
    (Dict.get links last ≡ none)
    ⊎ ((next : String) × (Dict.get links last ≡ some next) × (member next xs ≡ true))

module _ {ℓ} {V : Type ℓ} where
  length-values : (d : Dict V) → length (Dict.values d) ≡ length d
  length-values [] = refl
  length-values (x ∷ d) = ap suc (length-values d)

get-member-values :
    (d : Dict String) (k v : String) → Dict.get d k ≡ some v → member v (Dict.values d) ≡ true
unfolding Dict.get
get-member-values [] k v h = ground arith
get-member-values ((j, w) ∷ d) k v h = ground (arith, get-member-values d k v, eq_iff w v)

record IsWalk (links : Dict String) (first : String) (w : Walk) : Type 0 where
  distinct : NoRepeats w.seen
  within : IsWithin w.seen (first ∷ Dict.values links)
  same : (a : String) → member a w.seen ≡ member a w.out
  out_distinct : NoRepeats w.out
  trail : Trail links first w.out w.current

module _ (links : Dict String) (first : String) where
  abbrev left : Walk → ℕ
  left w = length links + 1 - length w.seen

  walk_from-IsWalk : IsWalk links first (walk_from first)
  walk_from-IsWalk = record {
    distinct = (refl, tt);
    within = λ a m. ground arith;
    same = λ a. refl;
    out_distinct = (refl, tt);
    trail = alone refl;
  }

  step_to :
      (w : Walk) (next : String)
      → IsWalk links first w
      → Dict.get links w.current ≡ some next
      → member next w.seen ≡ false
      → IsWalk links first
          (record { current = next; seen = next ∷ w.seen; out = w.out ++ next ∷ [] })
  step_to w next h linked new = record {
    distinct = (new, h.distinct);
    within = λ a m.
        ground (arith, h.within a, get-member-values links w.current next linked, eq_iff next a);
    same = λ a. ground (arith, h.same a, member-append a w.out (next ∷ []));
    out_distinct = NoRepeats-snoc w.out next h.out_distinct (sym (h.same next) ∙ new);
    trail = onward h.trail linked refl;
  }

  step-IsWalk :
      (w : Walk)
      → IsWalk links first w
      → goes_on links w ≡ true
      → IsWalk links first (step links w) × (left (step links w) < left w)
  unfolding goes_on step
  step-IsWalk w h go = elim (Option-cases (Dict.get links w.current)) [
    | inl p ↦ absurd (ground arith)
    | inr (next, p) ↦
        let new : member next w.seen ≡ false = ground arith in
        let kept = step_to w next h p new in
        let bound =
          pigeonhole (next ∷ w.seen) (first ∷ Dict.values links) kept.distinct kept.within in
        rw (p, step) (kept, omega (arith, bound, length-values links))
  ]

  walk-IsWalk :
      IsWalk links first (walk links (walk_from first))
      × (goes_on links (walk links (walk_from first)) ≡ false)
  unfolding walk
  walk-IsWalk =
      while_inv (goes_on links) (step links) (IsWalk links first) left step-IsWalk (walk_fuel links)
        (walk_from first) (omega arith) walk_from-IsWalk

  stopped :
      (w : Walk) → IsWalk links first w → goes_on links w ≡ false → EndsAt links w.out w.current
  unfolding goes_on
  stopped w h halt = elim (Option-cases (Dict.get links w.current)) [
    | inl p ↦ inl p
    | inr (next, p) ↦ inr (next, p, sym (h.same next) ∙ ground arith)
  ]

  -- A whole walk from a node: a trail without repeats, to a node at which it has to end.
  walk_lem :
      let w = walk links (walk_from first) in
      Trail links first w.out w.current × NoRepeats w.out × EndsAt links w.out w.current
  walk_lem =
      let (kept, halt) = walk-IsWalk in
      (kept.trail, kept.out_distinct, stopped (walk links (walk_from first)) kept halt)

-- What a chain of versions is: a root that the walk back from the record ends at, and from there
-- the versions in order, none twice, to one with no successor that is not listed.
pub record IsChain (x : MasterIndex) (id : String) (chain : List String) : Type 0 where
  pub root : String
  pub last : String
  pub before : List String
  pub back : Trail x.supersedes id before root
  pub back_ends : EndsAt x.supersedes before root
  pub forward : Trail x.superseded root chain last
  pub forward_ends : EndsAt x.superseded chain last
  pub distinct : NoRepeats chain

-- The chain of any record ends, in any index, with cycles too, and is a chain of versions.
pub get_supersession_chain-IsChain :
    (x : MasterIndex) (id : String) → IsChain x id (get_supersession_chain x id)
unfolding get_supersession_chain
get_supersession_chain-IsChain x id =
    let (back, _, back_ends) = walk_lem x.supersedes id in
    let root = (walk x.supersedes (walk_from id)).current in
    let (forward, distinct, ends) = walk_lem x.superseded root in
    record {
      root = root;
      last = (walk x.superseded (walk_from root)).current;
      before = (walk x.supersedes (walk_from id)).out;
      back = back;
      back_ends = back_ends;
      forward = forward;
      forward_ends = ends;
      distinct = distinct;
    }

-- The version root is reached along parents, and has no parent outside the trail to it.
pub get_version_root_ends :
    (x : MasterIndex) (id : String)
    → (xs : List String) × Trail x.version_parent id xs (get_version_root x id)
      × EndsAt x.version_parent xs (get_version_root x id)
unfolding get_version_root
get_version_root_ends x id =
    let (back, _, ends) = walk_lem x.version_parent id in
    ((walk x.version_parent (walk_from id)).out, back, ends)
