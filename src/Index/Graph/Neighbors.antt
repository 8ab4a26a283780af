-- ===== src/Index/Graph/Neighbors.antt =====
-- The operation "neighbors" of graph_query (rust/ember_core/src/lib.rs): what a bounded search finds.
use embers_diaries.Prelude.{
  ℕ, zero, suc, ◌+◌, ◌≤◌, ◌<◌, String, true, false, Option, List, [], ◌∷◌, ◌==◌, ◌||◌, ◌≡◌, ◌↔◌,
  refl, arith, member, eq_iff, eq_refl, Bool-cases, NoRepeats, inl, inr, sym, ◌∙◌, subst,
}
use embers_diaries.Index.Graph.{
  GraphState, Direction, graph_edges, Search, visit_node, visit_frontier, rounds, neighbors,
}
use embers_diaries.Index.Graph.Visits.{
  joins, visited-visit_edges, next-visit_edges, emitted-visit_edges, visited-visit_frontier,
  rounds-NoRepeats,
}

module _ (g : GraphState) (edge_type : Option String) (direction : Direction) where
  module _ (root : String) where
    -- The walks of a length from the root.
    pub data Walks : ℕ → String → Type 0 where
      here : Walks zero root
      onward :
          {n : ℕ} {a b : String}
          → Walks n a
          → joins g edge_type direction a b ≡ true
          → Walks (suc n) b

    -- What holds within a round, with the part of the frontier that is left.
    record Round (k : ℕ) (ns : List String) (s : Search) : Type 0 where
      front : (x : String) → member x ns ≡ true → Walks k x
      found : (x : String) → member x s.next ≡ true → Walks (suc k) x
      out :
          (x : String)
          → member x s.emitted ≡ true
          → (n : ℕ) × (n ≤ suc k) × Walks n x × ((x == root) ≡ false)
      seen : member root s.visited ≡ true
      closed :
          (x y : String)
          → member x s.visited ≡ true
          → joins g edge_type direction x y ≡ true
          → (member y s.visited || (member y ns || member y s.next)) ≡ true
      known :
          (y : String)
          → (member y s.visited || (member y ns || member y s.next)) ≡ true
          → ((y == root) || member y s.emitted) ≡ true

    visit_node-Round :
        (k : ℕ) (n : String) (ns : List String) (s : Search)
        → Round k (n ∷ ns) s
        → Round k ns (visit_node g edge_type direction n s)
    unfolding visit_node
    visit_node-Round k n ns s r = elim (Bool-cases (member n s.visited)) [
      | inl e ↦ rw e (record {
        front = λ x p. r.front x (ground (arith, p));
        found = r.found;
        out = r.out;
        seen = r.seen;
        closed = λ x y p q. ground (arith, r.closed x y p q, e, eq_iff n y);
        known = λ y p. r.known y (ground (arith, p));
      })
      | inr e ↦
          let es = graph_edges g n direction in
          let s' : Search = record s { visited = n ∷ s.visited } in
          rw e (record {
            front = λ x p. r.front x (ground (arith, p));
            found = λ x p. elim (Bool-cases (member x s.next)) [
              | inl a ↦ r.found x a
              | inr a ↦
                  onward (r.front n (ground (arith, eq_refl n)))
                    (ground (arith, p, a, next-visit_edges edge_type es s' x))
            ];
            out = λ x p. elim (Bool-cases (member x s.emitted)) [
              | inl a ↦ r.out x a
              | inr a ↦ (
                suc k,
                omega arith,
                onward (r.front n (ground (arith, eq_refl n)))
                    (ground (arith, p, a, emitted-visit_edges edge_type es s' x)),
                ground (arith, p, a, emitted-visit_edges edge_type es s' x, r.seen, eq_iff x root),
              )
            ];
            seen = ground (arith, visited-visit_edges edge_type es s', r.seen);
            closed = λ x y p q. elim (Bool-cases (member x s.visited)) [
              | inl a ↦ ground (
                arith,
                r.closed x y a q,
                visited-visit_edges edge_type es s',
                next-visit_edges edge_type es s' y,
                eq_iff n y,
              )
              | inr a ↦
                  let same : n ≡ x =
                    ground (arith, p, a, visited-visit_edges edge_type es s', eq_iff n x) in
                  let led : joins g edge_type direction n y ≡ true =
                    subst (λ m. joins g edge_type direction m y ≡ true) (sym same) q in
                  ground (
                    arith,
                    led,
                    visited-visit_edges edge_type es s',
                    next-visit_edges edge_type es s' y,
                  )
            ];
            known = λ y p. ground (
              arith,
              p,
              r.known y,
              visited-visit_edges edge_type es s',
              next-visit_edges edge_type es s' y,
              emitted-visit_edges edge_type es s' y,
              eq_iff n y,
            );
          })
    ]

    visit_frontier-Round :
        (k : ℕ) (ns : List String) (s : Search)
        → Round k ns s
        → Round k [] (visit_frontier g edge_type direction ns s)
    unfolding visit_frontier
    visit_frontier-Round k [] s r = r
    visit_frontier-Round k (n ∷ ns) s r = visit_frontier-Round k ns _ (visit_node-Round k n ns s r)

    -- What holds between two rounds: besides, every node that fewer steps lead to was visited.
    record Between (k : ℕ) (frontier : List String) (s : Search) : Type 0 where
      front : (x : String) → member x frontier ≡ true → Walks k x
      out :
          (x : String)
          → member x s.emitted ≡ true
          → (n : ℕ) × (n ≤ k) × Walks n x × ((x == root) ≡ false)
      seen : member root s.visited ≡ true
      closed :
          (x y : String)
          → member x s.visited ≡ true
          → joins g edge_type direction x y ≡ true
          → (member y s.visited || member y frontier) ≡ true
      known :
          (y : String)
          → (member y s.visited || member y frontier) ≡ true
          → ((y == root) || member y s.emitted) ≡ true
      inside : (n : ℕ) (y : String) → n < k → Walks n y → member y s.visited ≡ true

    -- Every node that at most so many steps lead to was visited, or is in the frontier.
    reached :
        (k : ℕ) (frontier : List String) (s : Search)
        → Between k frontier s
        → (n : ℕ) (y : String) → n ≤ k
        → Walks n y
        → (member y s.visited || member y frontier) ≡ true
    reached k frontier s b n y le here = ground (arith, b.seen)
    reached k frontier s b n y le (onward {n = m} {a = x} w q) =
        b.closed x y (b.inside m x (omega arith) w) q

    round-Between :
        (k : ℕ) (frontier : List String) (s : Search)
        → Between k frontier s
        → Between
            (suc k)
            (visit_frontier g edge_type direction frontier (record s { next = [] })).next
            (visit_frontier g edge_type direction frontier (record s { next = [] }))
    round-Between k frontier s b =
        let start : Round k frontier (record s { next = [] }) = record {
          front = b.front;
          found = λ x p. absurd (ground (arith, p));
          out = λ x p. let (n, le, w, other) = b.out x p in (n, omega arith, w, other);
          seen = b.seen;
          closed = λ x y p q. ground (arith, b.closed x y p q);
          known = λ y p. b.known y (ground (arith, p));
        } in
        let r = visit_frontier-Round k frontier (record s { next = [] }) start in
        record {
          front = r.found;
          out = r.out;
          seen = r.seen;
          closed = λ x y p q. ground (arith, r.closed x y p q);
          known = λ y p. r.known y (ground (arith, p));
          inside = λ n y lt w.
              visited-visit_frontier g edge_type direction frontier (record s { next = [] }) y
              ∙ reached k frontier s b n y (omega arith) w;
        }

    abbrev Ends : ℕ → Search → Type 0
    Ends k s = (frontier : List String) × Between k frontier s

    rounds-Ends :
        (depth k : ℕ) (frontier : List String) (s : Search)
        → Between k frontier s
        → Ends (depth + k) (rounds g edge_type direction depth frontier s)
    unfolding rounds
    rounds-Ends zero k frontier s b = (frontier, subst (λ n. Between n frontier s) (omega arith) b)
    rounds-Ends (suc depth) k frontier s b =
        subst (λ n. Ends n (rounds g edge_type direction (suc depth) frontier s)) (omega arith)
          (rounds-Ends depth (suc k) _ _ (round-Between k frontier s b))

    -- The state after the root was visited, which is the first round.
    first : Search
    first =
        visit_frontier g edge_type direction (root ∷ [])
          (record { visited = []; emitted = []; next = [] })

    first-Between : Between 1 first.next first
    unfolding first visit_frontier visit_node
    first-Between =
        let es = graph_edges g root direction in
        let s : Search = record { visited = root ∷ []; emitted = []; next = [] } in
        record {
          front = λ x p. onward here (ground (arith, p, next-visit_edges edge_type es s x));
          out = λ x p. (
            1,
            omega arith,
            onward here (ground (arith, p, emitted-visit_edges edge_type es s x)),
            ground (arith, p, emitted-visit_edges edge_type es s x, eq_iff root x, eq_iff x root),
          );
          seen = ground (arith, visited-visit_edges edge_type es s, eq_refl root);
          closed = λ x y p q.
              let same : root ≡ x =
                ground (arith, p, visited-visit_edges edge_type es s, eq_iff root x) in
              let led : joins g edge_type direction root y ≡ true =
                subst (λ m. joins g edge_type direction m y ≡ true) (sym same) q in
              ground
                (arith, led, visited-visit_edges edge_type es s, next-visit_edges edge_type es s y);
          known = λ y p. ground (
            arith,
            p,
            visited-visit_edges edge_type es s,
            next-visit_edges edge_type es s y,
            emitted-visit_edges edge_type es s y,
            eq_iff root y,
            eq_iff y root,
          );
          inside = λ n y lt w. at_root n y lt w;
        }
      where
        at_root : (n : ℕ) (y : String) → n < 1 → Walks n y → member y first.visited ≡ true
        at_root n y lt here = ground (
          arith,
          visited-visit_edges edge_type (graph_edges g root direction)
              (record { visited = root ∷ []; emitted = []; next = [] }),
          eq_refl root,
        )
        at_root n y lt (onward w q) = absurd (omega arith)

    stays : (n : ℕ) (x : String) → n ≤ 0 → Walks n x → x ≡ root
    stays n x le here = refl
    stays n x le (onward w q) = absurd (omega arith)

    member-neighbors :
        (depth : ℕ) (x : String)
        → (member x (neighbors g edge_type direction root depth) ≡ true)
          ↔ (((x == root) ≡ false) × (n : ℕ) × (n ≤ depth) × Walks n x)
    unfolding neighbors rounds first
    member-neighbors zero x = (
      λ p. absurd (ground (arith, p)),
      λ p. ground (arith, p.0, stays p.1 x p.2 p.3, eq_iff x root),
    )
    member-neighbors (suc depth) x =
        let (frontier, b) = rounds-Ends depth 1 first.next first first-Between in
        (
          λ p. let (n, le, w, other) = b.out x p in (other, n, omega arith, w),
          λ p.
              ground
                (arith, p.0, b.known x (reached (depth + 1) frontier _ b p.1 x (omega arith) p.3)),
        )

    -- The neighbours of a node up to a depth are, each once, the other nodes that between one and so many
    -- edges of the kind lead to, in the direction of the search.
    pub neighbors-Walks :
        (depth : ℕ)
        → NoRepeats (neighbors g edge_type direction root depth)
          × ((x : String)
              → (member x (neighbors g edge_type direction root depth) ≡ true)
                ↔ (((x == root) ≡ false) × (n : ℕ) × (n ≤ depth) × Walks n x))
    unfolding neighbors
    neighbors-Walks depth =
        (rounds-NoRepeats g edge_type direction depth (root ∷ []) _ tt, member-neighbors depth)
