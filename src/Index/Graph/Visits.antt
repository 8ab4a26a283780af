-- ===== src/Index/Graph/Visits.antt =====
-- The inner loops of the operation "neighbors" of graph_query (rust/ember_core/src/lib.rs): what one
-- node of the frontier, and the whole of it, adds to the sets of the search.
use embers_diaries.Prelude.{
  String, Bool, Option, List, [], ◌∷◌, ◌==◌, ◌&&◌, ◌||◌, ◌≡◌, refl, arith, not, any_of, member,
  member-append, eq_iff, ◌∙◌, ℕ, zero, suc, NoRepeats, NoRepeats-snoc, Bool-cases, inl, inr,
}
use embers_diaries.Index.Graph.{
  GraphEdge, GraphState, Direction, graph_edges, of_kind, Search, visit_edges, visit_node,
  visit_frontier, rounds,
}

-- Whether some edge of the kind has the target.
abbrev pub targets : Option String → List GraphEdge → String → Bool
targets edge_type es y = any_of (λ (e : GraphEdge). of_kind edge_type e && (e.target == y)) es

pub visited-visit_edges :
    (edge_type : Option String) (es : List GraphEdge) (s : Search)
    → (visit_edges edge_type es s).visited ≡ s.visited
unfolding visit_edges
visited-visit_edges edge_type [] s = refl
visited-visit_edges edge_type (e ∷ es) s = visited-visit_edges edge_type es _ ∙ ground arith

pub next-visit_edges :
    (edge_type : Option String) (es : List GraphEdge) (s : Search) (y : String)
    → member y (visit_edges edge_type es s).next
      ≡ (member y s.next || (targets edge_type es y && not (member y s.visited)))
unfolding visit_edges
next-visit_edges edge_type [] s y = ground arith
next-visit_edges edge_type (e ∷ es) s y =
    next-visit_edges edge_type es _ y
    ∙ ground (arith, member-append y s.next (e.target ∷ []), eq_iff e.target y)

pub emitted-visit_edges :
    (edge_type : Option String) (es : List GraphEdge) (s : Search) (y : String)
    → member y (visit_edges edge_type es s).emitted
      ≡ (member y s.emitted || (targets edge_type es y && not (member y s.visited)))
unfolding visit_edges
emitted-visit_edges edge_type [] s y = ground arith
emitted-visit_edges edge_type (e ∷ es) s y =
    emitted-visit_edges edge_type es _ y
    ∙ ground (arith, member-append y s.emitted (e.target ∷ []), eq_iff e.target y)

pub visit_edges-NoRepeats :
    (edge_type : Option String) (es : List GraphEdge) (s : Search)
    → NoRepeats s.emitted
    → NoRepeats (visit_edges edge_type es s).emitted
unfolding visit_edges
visit_edges-NoRepeats edge_type [] s h = h
visit_edges-NoRepeats edge_type (e ∷ es) s h =
    visit_edges-NoRepeats edge_type es _ (elim (Bool-cases (of_kind edge_type e)) [
      | inr k ↦ rw k h
      | inl k ↦ elim (Bool-cases (member e.target s.visited)) [
        | inl v ↦ rw (k, v) h
        | inr v ↦ elim (Bool-cases (member e.target s.emitted)) [
          | inl old ↦ rw (k, v, old) h
          | inr new ↦ rw (k, v, new) (NoRepeats-snoc s.emitted e.target h new)
        ]
      ]
    ])

module _ (g : GraphState) (edge_type : Option String) (direction : Direction) where
  -- Whether an edge leads from one node to another.
  abbrev pub joins : String → String → Bool
  joins a b = targets edge_type (graph_edges g a direction) b

  pub visited-visit_frontier :
      (ns : List String) (s : Search) (y : String)
      → member y (visit_frontier g edge_type direction ns s).visited
        ≡ (member y s.visited || member y ns)
  unfolding visit_frontier
  visited-visit_frontier [] s y = ground arith
  visited-visit_frontier (n ∷ ns) s y =
      visited-visit_frontier ns _ y
      ∙ ground (
        arith,
        visited-visit_edges edge_type (graph_edges g n direction)
            (record s { visited = n ∷ s.visited }),
        eq_iff n y,
      )

  visit_frontier-NoRepeats :
      (ns : List String) (s : Search)
      → NoRepeats s.emitted
      → NoRepeats (visit_frontier g edge_type direction ns s).emitted
  unfolding visit_frontier visit_node
  visit_frontier-NoRepeats [] s h = h
  visit_frontier-NoRepeats (n ∷ ns) s h =
      visit_frontier-NoRepeats ns _ (elim (Bool-cases (member n s.visited)) [
        | inl v ↦ rw v h
        | inr v ↦ rw v (
            visit_edges-NoRepeats edge_type (graph_edges g n direction)
              (record s { visited = n ∷ s.visited }) h)
      ])

  -- What a search emits, it emits once.
  pub rounds-NoRepeats :
      (depth : ℕ) (ns : List String) (s : Search)
      → NoRepeats s.emitted
      → NoRepeats (rounds g edge_type direction depth ns s).emitted
  unfolding rounds
  rounds-NoRepeats zero ns s h = h
  rounds-NoRepeats (suc depth) ns s h =
      rounds-NoRepeats depth _ _ (visit_frontier-NoRepeats ns (record s { next = [] }) h)
