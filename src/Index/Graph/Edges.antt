-- ===== src/Index/Graph/Edges.antt =====
-- The adjacency of `GraphIndex` as a view of one list of edges.
use embers_diaries.Prelude.{
  String, Bool, Option, none, some, List, [], ◌∷◌, ◌++◌, ◌==◌, ◌&&◌, ◌≡◌, refl, arith,
  if◌then◌else◌, not, select, eq_iff, ap, sym, ◌∙◌, Option-cases, Bool-cases, inl, inr, get_or,
  append-nil,
}
use embers_diaries.Dict
use embers_diaries.Dict.{Dict}
use embers_diaries.Index.Graph.{
  GraphEdge, GraphState, empty_graph, edges_at, add_edge, remove_edge, of_kind, other_than,
  retain_at,
}

-- An edge with both of its ends.
pub record Link : Type 0 where
  pub source : String
  pub edge : GraphEdge

-- What the graph keeps of a list of edges, under either end of them.
abbrev pub leaving : String → List Link → List GraphEdge
leaving node [] = []
leaving node (l ∷ ls) =
    let rest = leaving node ls in if l.source == node then l.edge ∷ rest else rest

abbrev pub entering : String → List Link → List GraphEdge
entering node [] = []
entering node (l ∷ ls) =
    let rest = entering node ls in
    if l.edge.target == node then record l.edge { target = l.source } ∷ rest else rest

-- The calls that change the graph, and what they do to a list of edges.
pub data Call : Type 0 where
  add_call : String → GraphEdge → Call
  remove_call : String → String → Option String → Call

abbrev stays : String → String → Option String → Link → Bool
stays from_id to_id edge_type l =
    not ((l.source == from_id) && ((l.edge.target == to_id) && of_kind edge_type l.edge))

abbrev replay_call : Call → List Link → List Link
replay_call (add_call from_id e) ls = ls ++ record { source = from_id; edge = e } ∷ []
replay_call (remove_call from_id to_id edge_type) ls = select (stays from_id to_id edge_type) ls

unfoldable pub replay : List Call → List Link → List Link
replay [] ls = ls
replay (c ∷ cs) ls = replay cs (replay_call c ls)

abbrev run_call : Call → GraphState → GraphState
run_call (add_call from_id e) g = add_edge from_id e g
run_call (remove_call from_id to_id edge_type) g = remove_edge from_id to_id edge_type g

unfoldable pub run : List Call → GraphState → GraphState
run [] g = g
run (c ∷ cs) g = run cs (run_call c g)

pub record Shows (g : GraphState) (ls : List Link) : Type 0 where
  pub out : (node : String) → edges_at g.outgoing node ≡ leaving node ls
  pub into : (node : String) → edges_at g.incoming node ≡ entering node ls

leaving-append :
    (node : String) (ks ls : List Link)
    → leaving node (ks ++ ls) ≡ leaving node ks ++ leaving node ls
leaving-append node [] ls = refl
leaving-append node (k ∷ ks) ls = ground (arith, leaving-append node ks ls)

entering-append :
    (node : String) (ks ls : List Link)
    → entering node (ks ++ ls) ≡ entering node ks ++ entering node ls
entering-append node [] ls = refl
entering-append node (k ∷ ks) ls = ground (arith, entering-append node ks ls)

edges_at-put :
    (d : Dict (List GraphEdge)) (k node : String) (es : List GraphEdge)
    → edges_at (Dict.put d k es) node ≡ (if k == node then es else edges_at d node)
edges_at-put d k node es =
    ap (λ o. get_or o []) (Dict.get-put d k node es)
    ∙ elim (Bool-cases (k == node)) [ inl e ↦ rw e refl | inr e ↦ rw e refl ]

edges_at-retain_at :
    (keep : GraphEdge → Bool) (d : Dict (List GraphEdge)) (k node : String)
    → edges_at (retain_at keep (Dict.get d k) k d) node
      ≡ (if k == node then select keep (edges_at d node) else edges_at d node)
unfolding retain_at
edges_at-retain_at keep d k node = elim (Option-cases (Dict.get d k)) [
  | inl absent ↦ elim (Bool-cases (k == node)) [
    | inr e ↦ rw (absent, e) refl
    | inl e ↦
        let same : k ≡ node = (eq_iff k node).0 e in
        let here : edges_at d node ≡ [] =
          ap (λ j. edges_at d j) (sym same) ∙ ap (λ o. get_or o []) absent in
        rw (absent, e, here) refl
  ]
  | inr (es, there) ↦ elim (Bool-cases (k == node)) [
    | inr e ↦ rw there (edges_at-put d k node (select keep es) ∙ rw e refl)
    | inl e ↦
        let same : k ≡ node = (eq_iff k node).0 e in
        let here : edges_at d node ≡ es =
          ap (λ j. edges_at d j) (sym same) ∙ ap (λ o. get_or o []) there in
        rw there (edges_at-put d k node (select keep es) ∙ rw (e, here) refl)
  ]
]

add_edge-Shows :
    (from_id : String) (e : GraphEdge) (g : GraphState) (ls : List Link)
    → Shows g ls
    → Shows (add_edge from_id e g) (ls ++ record { source = from_id; edge = e } ∷ [])
unfolding add_edge
add_edge-Shows from_id e g ls s =
    let l : Link = record { source = from_id; edge = e } in
    record {
      out = λ node.
          edges_at-put g.outgoing from_id node (edges_at g.outgoing from_id ++ e ∷ [])
          ∙ elim (Bool-cases (from_id == node)) [
            | inr b ↦ rw (leaving-append node ls (l ∷ []), b, s.out node) (sym (append-nil _))
            | inl b ↦
                rw (leaving-append node ls (l ∷ []), b, (eq_iff from_id node).0 b, s.out node) refl
          ];
      into = λ node.
          edges_at-put g.incoming e.target node
            (edges_at g.incoming e.target ++ record e { target = from_id } ∷ [])
          ∙ elim (Bool-cases (e.target == node)) [
            | inr b ↦ rw (entering-append node ls (l ∷ []), b, s.into node) (sym (append-nil _))
            | inl b ↦
                rw (entering-append node ls (l ∷ []), b)
                  (ap (λ es. es ++ record e { target = from_id } ∷ [])
                    (s.into e.target ∙ ap (λ n. entering n ls) ((eq_iff e.target node).0 b)))
          ];
    }

leaving-select :
    (from_id to_id : String) (edge_type : Option String) (node : String) (ls : List Link)
    → leaving node (select (stays from_id to_id edge_type) ls) ≡ (
        if from_id == node
        then select (other_than to_id edge_type) (leaving node ls)
        else leaving node ls)
leaving-select from_id to_id edge_type node [] = ground arith
leaving-select from_id to_id edge_type node (l ∷ ls) = ground (
  arith,
  leaving-select from_id to_id edge_type node ls,
  eq_iff l.source from_id,
  eq_iff l.source node,
  eq_iff from_id node,
)

entering-select :
    (from_id to_id : String) (edge_type : Option String) (node : String) (ls : List Link)
    → entering node (select (stays from_id to_id edge_type) ls) ≡ (
        if to_id == node
        then select (other_than from_id edge_type) (entering node ls)
        else entering node ls)
unfolding of_kind
entering-select from_id to_id edge_type node [] = ground arith
entering-select from_id to_id none node (l ∷ ls) = ground (
  arith,
  entering-select from_id to_id none node ls,
  eq_iff l.edge.target to_id,
  eq_iff l.edge.target node,
  eq_iff to_id node,
)
entering-select from_id to_id (some kind) node (l ∷ ls) = ground (
  arith,
  entering-select from_id to_id (some kind) node ls,
  eq_iff l.edge.target to_id,
  eq_iff l.edge.target node,
  eq_iff to_id node,
)

remove_edge-Shows :
    (from_id to_id : String) (edge_type : Option String) (g : GraphState) (ls : List Link)
    → Shows g ls
    → Shows (remove_edge from_id to_id edge_type g) (select (stays from_id to_id edge_type) ls)
unfolding remove_edge
remove_edge-Shows from_id to_id edge_type g ls s = record {
  out = λ node.
      edges_at-retain_at (other_than to_id edge_type) g.outgoing from_id node
      ∙ ap (λ es. if from_id == node then select (other_than to_id edge_type) es else es)
          (s.out node)
      ∙ sym (leaving-select from_id to_id edge_type node ls);
  into = λ node.
      edges_at-retain_at (other_than from_id edge_type) g.incoming to_id node
      ∙ ap (λ es. if to_id == node then select (other_than from_id edge_type) es else es)
          (s.into node)
      ∙ sym (entering-select from_id to_id edge_type node ls);
}

run-Shows_from :
    (cs : List Call) (g : GraphState) (ls : List Link)
    → Shows g ls
    → Shows (run cs g) (replay cs ls)
unfolding run replay
run-Shows_from [] g ls s = s
run-Shows_from (add_call from_id e ∷ cs) g ls s =
    run-Shows_from cs _ _ (add_edge-Shows from_id e g ls s)
run-Shows_from (remove_call from_id to_id edge_type ∷ cs) g ls s =
    run-Shows_from cs _ _ (remove_edge-Shows from_id to_id edge_type g ls s)

-- After any run of `add_edge` and `remove_edge` on an empty graph, the adjacency is a view of the one
-- list of edges on which the same calls act by appending and by dropping the edges between two nodes:
-- `outgoing` has, for each node, the edges that leave it, and `incoming` those that enter it, turned
-- round, both in the order of that list.
pub run-Shows : (cs : List Call) → Shows (run cs empty_graph) (replay cs [])
unfolding Dict.get
run-Shows cs = run-Shows_from cs empty_graph [] (record { out = λ node. refl; into = λ node. refl })
