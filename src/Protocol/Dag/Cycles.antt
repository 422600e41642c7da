-- ===== src/Protocol/Dag/Cycles.antt =====
-- AddEdge and AdvanceTip keep the DAG free of cycles while the map of edges is small enough for the
-- depth limit of the search, and record every parent of a transaction.
use mathlib.Core.Logic.{⊎_elim}
use cdml.Common.{
  suc, ◌≤◌, Bool, false, Bytes-discrete, contains, contains_iff, length, take, [], ◌≡◌, ◌≢◌, ◌↔◌,
  ◌⊎◌, inl, inr, sym, subst, arith, Bool-cases,
}
use cdml.Core.Errors.{Error, ok, err, dag_cycle, dag_edge_duplicate}
use cdml.Core.Types.{Hash32}
use cdml.Protocol.Dag.{Edges, parents_of, append_edge, is_ancestor, add_edge, dag_cycle_check_depth}
use cdml.Protocol.Dag.Walk.{
  Edge, Walk, one, more, Acyclic, Edge-cases, append_edge-Acyclic, Edge-kept, Edge-new, Walk-kept,
}
use cdml.Protocol.Dag.Search.{is_ancestor-Walk}
use cdml.Protocol.Dag.Missed.{not-Walk_of_missed}

-- the search that AddEdge makes before it adds the edge
abbrev pub closes_cycle : Edges → Hash32 → Hash32 → Bool
closes_cycle edges from to = (is_ancestor edges (suc dag_cycle_check_depth) to from []).0

-- the tests that an added edge has passed
pub add_edge-eq-ok :
    (from to : Hash32) (edges edges' : Edges)
    → add_edge from to edges ≡ ok edges'
    → (from ≢ to)
      × (closes_cycle edges from to ≡ false)
      × (contains Bytes-discrete to (parents_of edges from) ≡ false)
      × (edges' ≡ append_edge edges from to)
unfolding add_edge
add_edge-eq-ok from to edges edges' h = ground arith

-- AddEdge never panics, and returns a duplicate only for an edge that is there.
pub add_edge-cases :
    (from to : Hash32) (edges : Edges)
    → ((edges' : Edges) × (add_edge from to edges ≡ ok edges'))
      ⊎ (((add_edge from to edges ≡ err dag_edge_duplicate) × Edge edges from to)
          ⊎ ((add_edge from to edges ≡ err (dag_cycle (take 4 from) (take 4 to)))
              × ((from ≡ to) ⊎ Walk edges to from)))
unfolding add_edge
add_edge-cases from to edges = elim (Bytes-discrete from to) [
  | yes e ↦ inr (inr (ground arith, inl e))
  | no apart ↦ elim (Bool-cases (closes_cycle edges from to)) [
    | inl found ↦ inr (
        inr
          (ground arith, inr (is_ancestor-Walk edges from (suc dag_cycle_check_depth) to [] found)))
    | inr missed ↦ elim (Bool-cases (contains Bytes-discrete to (parents_of edges from))) [
      | inl old ↦
          inr (inl (ground arith, (contains_iff Bytes-discrete to (parents_of edges from)).0 old))
      | inr new ↦ inl (append_edge edges from to, ground arith)
    ]
  ]
]

-- An edge that AddEdge has added is the only change: every node has its old parents, and the new
-- node's parents have the new one at the end.
pub add_edge-edges :
    (from to : Hash32) (edges edges' : Edges)
    → add_edge from to edges ≡ ok edges'
    → (x p : Hash32) → Edge edges' x p ↔ (Edge edges x p ⊎ ((x ≡ from) × (p ≡ to)))
add_edge-edges from to edges edges' h x p =
    let (_, _, _, e) = add_edge-eq-ok from to edges edges' h in
    rw e (
      Edge-cases edges from to x p,
      ⊎_elim (Edge-kept edges from to x p) (λ (s, t).
          subst (λ y. Edge (append_edge edges from to) y p) (sym s)
            (subst (Edge (append_edge edges from to) from) (sym t) (Edge-new edges from to))),
    )

-- While the map has at most 201 entries, an edge that AddEdge accepts closes no cycle: the depth
-- limit of the search hides none.
pub add_edge-Acyclic :
    (from to : Hash32) (edges edges' : Edges)
    → length edges ≤ suc dag_cycle_check_depth
    → Acyclic edges
    → add_edge from to edges ≡ ok edges'
    → Acyclic edges'
add_edge-Acyclic from to edges edges' small acyclic h =
    let (apart, missed, _, e) = add_edge-eq-ok from to edges edges' h in
    rw e (
      append_edge-Acyclic edges from to apart
        (not-Walk_of_missed edges from (suc dag_cycle_check_depth) to small missed) acyclic)

-- An edge that is refused as a cycle would have closed one, whatever the size of the map.
pub add_edge-refused :
    (from to : Hash32) (edges : Edges) (e : Error)
    → add_edge from to edges ≡ err e
    → e ≢ dag_edge_duplicate
    → ¬ Acyclic (append_edge edges from to)
add_edge-refused from to edges e h other acyclic =
    let new = Edge-new edges from to in
    ⊎_elim (λ (_, r). cc)
      (⊎_elim (λ (r, _). absurd (other (cc)))
        (λ (r, back).
          ⊎_elim
            (λ s. acyclic from (one (subst (Edge (append_edge edges from to) from) (sym s) new)))
            (λ w. acyclic to (more (Walk-kept edges from to w) new)) back))
      (add_edge-cases from to edges)
