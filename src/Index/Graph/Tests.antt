-- ===== src/Index/Graph/Tests.antt =====
-- The graph index on a small graph.
use embers_diaries.Prelude.{
  NoRepeats, ℕ, ◌≤◌, String, true, false, none, some, List, [], ◌∷◌, ◌≡◌, ◌↔◌, refl, ◌==◌, member,
}
use embers_diaries.Core.Record.{end}
use embers_diaries.Index.Graph.{
  GraphEdge, GraphState, empty_graph, outgoing_edges, incoming_edges, both_edges, neighbors,
  connected, degree,
}
use embers_diaries.Index.Graph.Edges.{Call, add_call, remove_call, run, replay, Shows, run-Shows}
use embers_diaries.Index.Graph.Neighbors.{Walks, neighbors-Walks}

abbrev to_node : String → String → GraphEdge
to_node target kind = record {
  target = target;
  edge_type = kind;
  weight = 0;
  edge_id = "";
  label = "";
  metadata = end;
}

-- A triangle with a tail, and one edge that is taken back.
abbrev calls : List Call
calls =
    add_call "a" (to_node "b" "supports")
    ∷ add_call "b" (to_node "c" "supports")
    ∷ add_call "c" (to_node "a" "contradicts")
    ∷ add_call "c" (to_node "d" "supports")
    ∷ add_call "a" (to_node "d" "supports")
    ∷ remove_call "a" "d" none
    ∷ []

abbrev graph : GraphState
unfolding run
graph = run calls empty_graph

near : neighbors graph none outgoing_edges "a" 2 ≡ "b" ∷ "c" ∷ []
unfolding neighbors run embers_diaries.Dict.get embers_diaries.Index.Graph.remove_edge
    embers_diaries.Index.Graph.add_edge embers_diaries.Dict.put
near = refl

far : neighbors graph none outgoing_edges "a" 3 ≡ "b" ∷ "c" ∷ "d" ∷ []
unfolding neighbors run embers_diaries.Dict.get embers_diaries.Index.Graph.remove_edge
    embers_diaries.Index.Graph.add_edge embers_diaries.Dict.put
far = refl

of_one_kind : neighbors graph (some "supports") incoming_edges "c" 9 ≡ "b" ∷ "a" ∷ []
unfolding neighbors run embers_diaries.Dict.get embers_diaries.Index.Graph.remove_edge
    embers_diaries.Index.Graph.add_edge embers_diaries.Dict.put
of_one_kind = refl

at_c : (connected graph "c" (some "supports") ≡ "d" ∷ []) × (degree graph "c" both_edges ≡ 3)
unfolding connected degree run embers_diaries.Dict.get embers_diaries.Index.Graph.remove_edge
    embers_diaries.Index.Graph.add_edge embers_diaries.Dict.put
at_c = (refl, refl)

neighbors-Walks_example :
    NoRepeats (neighbors graph none outgoing_edges "a" 3)
    × ((x : String)
        → (member x (neighbors graph none outgoing_edges "a" 3) ≡ true)
          ↔ (((x == "a") ≡ false) × (n : ℕ) × (n ≤ 3) × Walks graph none outgoing_edges "a" n x))
neighbors-Walks_example = neighbors-Walks graph none outgoing_edges "a" 3

run-Shows_example : Shows (run calls empty_graph) (replay calls [])
run-Shows_example = run-Shows calls
