-- ===== src/Index/Graph.antt =====
-- embers/index/graph.py: GraphIndex, whose operations are graph_add_edge, graph_remove_edge and
-- graph_query of rust/ember_core/src/lib.rs. The edges of a node stand under both of its ends. The
-- directions are a data type, since the query refuses any other text.
pub mod Edges
pub mod Visits
pub mod Neighbors
mod Tests
use embers_diaries.Prelude.{
  ℕ, zero, suc, ◌+◌, String, Bool, true, false, Option, none, some, List, [], ◌∷◌, ◌++◌, ◌==◌, ◌&&◌,
  map, if◌then◌else◌, not, length, select, get_or, member,
}
use embers_diaries.Dict
use embers_diaries.Dict.{Dict}
use embers_diaries.Core.Record.{Float, Fields}

pub record GraphEdge : Type 0 where
  pub target : String
  pub edge_type : String
  pub weight : Float
  pub edge_id : String
  pub label : String
  pub metadata : Fields

pub record GraphState : Type 0 where
  pub outgoing : Dict (List GraphEdge)
  pub incoming : Dict (List GraphEdge)

abbrev pub empty_graph : GraphState
empty_graph = record { outgoing = []; incoming = [] }

-- `adjacency.get(node)`, flattened
abbrev pub edges_at : Dict (List GraphEdge) → String → List GraphEdge
edges_at d node = get_or (Dict.get d node) []

-- `entry(node).or_default().push(edge)`
abbrev push_at : Dict (List GraphEdge) → String → GraphEdge → Dict (List GraphEdge)
push_at d node e = Dict.put d node (edges_at d node ++ e ∷ [])

-- `graph_add_edge`: the edge carries the far end, on both sides.
unfoldable pub add_edge : String → GraphEdge → GraphState → GraphState
add_edge from_id e g = record {
  outgoing = push_at g.outgoing from_id e;
  incoming = push_at g.incoming e.target (record e { target = from_id });
}

-- `edge_type.is_none_or(|kind| edge.edge_type == kind)`
unfoldable pub of_kind : Option String → GraphEdge → Bool
of_kind none e = true
of_kind (some kind) e = e.edge_type == kind

-- `if let Some(edges) = adjacency.get_mut(node) { edges.retain(…) }`
retain_at :
    (GraphEdge → Bool)
    → Option (List GraphEdge)
    → String
    → Dict (List GraphEdge)
    → Dict (List GraphEdge)
retain_at keep none node d = d
retain_at keep (some es) node d = Dict.put d node (select keep es)

abbrev pub other_than : String → Option String → GraphEdge → Bool
other_than target edge_type e = not ((e.target == target) && of_kind edge_type e)

-- `graph_remove_edge`
unfoldable pub remove_edge : String → String → Option String → GraphState → GraphState
unfolding retain_at of_kind
remove_edge from_id to_id edge_type g = record {
  outgoing =
      retain_at (other_than to_id edge_type) (Dict.get g.outgoing from_id) from_id g.outgoing;
  incoming = retain_at (other_than from_id edge_type) (Dict.get g.incoming to_id) to_id g.incoming;
}

pub data Direction : Type 0 where
  outgoing_edges incoming_edges both_edges : Direction

-- `graph_edges`
unfoldable pub graph_edges : GraphState → String → Direction → List GraphEdge
graph_edges g node outgoing_edges = edges_at g.outgoing node
graph_edges g node incoming_edges = edges_at g.incoming node
graph_edges g node both_edges = edges_at g.outgoing node ++ edges_at g.incoming node

-- The operations "edges", "connected" and "degree" of `graph_query`.
unfoldable pub connected : GraphState → String → Option String → List String
unfolding of_kind
connected g node edge_type =
    map (λ (e : GraphEdge). e.target) (select (of_kind edge_type) (edges_at g.outgoing node))

unfoldable pub degree : GraphState → String → Direction → ℕ
unfolding graph_edges
degree g node direction = length (graph_edges g node direction)

-- The sets and lists of the operation "neighbors".
pub record Search : Type 0 where
  pub visited : List String
  pub emitted : List String
  pub next : List String

-- The inner loop, over the edges of a node.
unfoldable pub visit_edges : Option String → List GraphEdge → Search → Search
unfolding of_kind
visit_edges edge_type [] s = s
visit_edges edge_type (e ∷ es) s = visit_edges edge_type es (
    if not (of_kind edge_type e) then s else if member e.target s.visited then s else (record s {
      emitted = if member e.target s.emitted then s.emitted else s.emitted ++ e.target ∷ [];
      next = s.next ++ e.target ∷ [];
    }))

module _ (g : GraphState) (edge_type : Option String) (direction : Direction) where
  -- One node of the frontier.
  unfoldable pub visit_node : String → Search → Search
  unfolding visit_edges graph_edges
  visit_node node s =
      if member node s.visited
      then s
      else visit_edges edge_type (graph_edges g node direction)
          (record s { visited = node ∷ s.visited })

  unfoldable pub visit_frontier : List String → Search → Search
  unfolding visit_node
  visit_frontier [] s = s
  visit_frontier (n ∷ ns) s = visit_frontier ns (visit_node n s)

  -- The loop over the depth: what a round finds is the frontier of the next.
  unfoldable pub rounds : ℕ → List String → Search → Search
  unfolding visit_frontier
  rounds zero frontier s = s
  rounds (suc depth) frontier s =
      let found = visit_frontier frontier (record s { next = [] }) in rounds depth found.next found

  -- The operation "neighbors"; the result is what was emitted, in its order.
  unfoldable pub neighbors : String → ℕ → List String
  unfolding rounds
  neighbors node depth =
      (rounds depth (node ∷ []) (record { visited = []; emitted = []; next = [] })).emitted
