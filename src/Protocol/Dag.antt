-- ===== src/Protocol/Dag.antt =====
-- internal/protocol/dag.go: DAGManager. The map of edges is the list of its entries, in the order in
-- which Go ranges over it; the mutex makes each method one step.
pub mod Walk
pub mod Search
pub mod Unseen
pub mod Missed
pub mod Cycles
pub mod Tip
pub mod Tips
pub mod Order
pub mod Depth
use cdml.Common.{
  ℕ, zero, suc, ◌+◌, Bool, true, false, Bytes-discrete, List, [], ◌∷◌, ◌++◌, map, contains, ite,
  ltb, if◌then◌else◌, take,
}
use cdml.Core.Errors.{
  Error, Res, ok, err, wrap, dag_cycle, dag_edge_duplicate, fail_if, panic, ◌>>=◌, ◌>>◌,
}
use cdml.Core.Types.{PubKey, Hash32}

abbrev pub Edges : Type 0
Edges = List (Hash32 × List Hash32)

abbrev pub new_dag_manager : Edges
new_dag_manager = []

abbrev pub nodes : Edges → List Hash32
nodes = map (λ e. e.0)

-- `dm.edges[node]`, nil where the key is missing
unfoldable pub parents_of : Edges → Hash32 → List Hash32
unfolding Bytes-discrete
parents_of [] node = []
parents_of ((n, ps) ∷ edges) node = ite (Bytes-discrete n node) ps (parents_of edges node)

-- `dm.edges[from] = append(dm.edges[from], to)`
unfoldable pub append_edge : Edges → Hash32 → Hash32 → Edges
unfolding Bytes-discrete
append_edge [] from to = (from, to ∷ []) ∷ []
append_edge ((n, ps) ∷ edges) from to =
    ite (Bytes-discrete n from) ((n, ps ++ to ∷ []) ∷ edges) ((n, ps) ∷ append_edge edges from to)

-- dagCycleCheckDepth
abbrev pub dag_cycle_check_depth : ℕ
dag_cycle_check_depth = 200

-- the loop of isAncestorLocked over the parents, with the recursive call as an argument
unfoldable pub any_ancestor :
    (Hash32 → List Hash32 → Bool × List Hash32)
    → Hash32
    → List Hash32
    → List Hash32
    → Bool × List Hash32
unfolding Bytes-discrete
any_ancestor visit target [] visited = (false, visited)
any_ancestor visit target (parent ∷ rest) visited = elim (Bytes-discrete parent target) [
  | yes _ ↦ (true, visited)
  | no _ ↦
      let (found, visited') = visit parent visited in
      elim found [ true ↦ (true, visited') | false ↦ any_ancestor visit target rest visited' ]
]

-- isAncestorLocked with `levels` levels of depth left, dagCycleCheckDepth + 1 - depth: the test
-- `depth > dagCycleCheckDepth` is that none is left. It returns the visited set too, which the
-- calls share.
unfoldable pub is_ancestor : Edges → ℕ → Hash32 → Hash32 → List Hash32 → Bool × List Hash32
unfolding any_ancestor parents_of
is_ancestor edges zero cur target visited = (false, visited)
is_ancestor edges (suc levels) cur target visited = elim (contains Bytes-discrete cur visited) [
  | true ↦ (false, visited)
  | false ↦
      any_ancestor (λ parent seen. is_ancestor edges levels parent target seen) target
        (parents_of edges cur) (cur ∷ visited)
]

unfoldable pub add_edge : Hash32 → Hash32 → Edges → Res Edges
unfolding is_ancestor append_edge parents_of Bytes-discrete
add_edge from to edges = do
  fail_if (ite (Bytes-discrete from to) true false) (dag_cycle (take 4 from) (take 4 to))
  fail_if (is_ancestor edges (suc dag_cycle_check_depth) to from []).0
      (dag_cycle (take 4 from) (take 4 to))
  fail_if (contains Bytes-discrete to (parents_of edges from)) dag_edge_duplicate
  ok (append_edge edges from to)

-- AdvanceTip: the edges that were added before an error stay.
unfoldable pub advance_tip : Hash32 → List Hash32 → Edges → Res (Unit {0}) × Edges
unfolding add_edge
advance_tip tx_hash [] edges = (ok tt, edges)
advance_tip tx_hash (p ∷ parents) edges = elim (add_edge tx_hash p edges) [
  | ok edges' ↦ advance_tip tx_hash parents edges'
  | err dag_edge_duplicate ↦ advance_tip tx_hash parents edges
  | err e ↦ (err (wrap e), edges)
  | panic ↦ (panic, edges)
]

-- a parent of some node: the keys of `hasChild`
unfoldable pub has_child : Edges → List Hash32
has_child [] = []
has_child ((_, ps) ∷ edges) = ps ++ has_child edges

-- the comparison that CurrentTips sorts by: the first byte that differs decides
unfoldable pub before : Hash32 → Hash32 → Bool
before [] _ = false
before (_ ∷ _) [] = false
before (a ∷ h) (b ∷ k) =
    let rest = before h k in if ltb a b then true else if ltb b a then false else rest

-- sort.Slice on distinct hashes; any sorting algorithm has this result
unfoldable pub insert_sorted : Hash32 → List Hash32 → List Hash32
unfolding before
insert_sorted h [] = h ∷ []
insert_sorted h (x ∷ xs) = if before h x then h ∷ x ∷ xs else x ∷ insert_sorted h xs

unfoldable pub sort : List Hash32 → List Hash32
unfolding insert_sorted
sort [] = []
sort (x ∷ xs) = insert_sorted x (sort xs)

-- the second loop of CurrentTips
unfoldable pub childless : List Hash32 → List Hash32 → List Hash32
unfolding Bytes-discrete
childless children [] = []
childless children (node ∷ rest) =
    let kept = childless children rest in
    if contains Bytes-discrete node children then kept else node ∷ kept

unfoldable pub current_tips : Edges → List Hash32
unfolding has_child sort childless
current_tips edges = sort (childless (has_child edges) (nodes edges))
