-- ===== src/Protocol/Dag/Depth.antt =====
-- internal/protocol/dag.go: Depth and depthFrom. The recursion has fuel, and `none` is that it ran
-- out; Depth gives it one more than there are nodes.
pub mod Total
use cdml.Common.{
  ℕ, zero, suc, ◌+◌, ◌||◌, Bool, true, false, Bytes-discrete, contains, length, List, [], ◌∷◌,
  Option, none, some, ltb, if◌then◌else◌,
}
use cdml.Core.Types.{Hash32}
use cdml.Protocol.Dag.{Edges, nodes, parents_of}

abbrev is_nil : List Hash32 → Bool
is_nil [] = true
is_nil (_ ∷ _) = false

-- the loop over the parents, with the recursive call as an argument
unfoldable pub deepest :
    (Hash32 → List Hash32 → Option (ℕ × List Hash32))
    → List Hash32
    → ℕ
    → List Hash32
    → Option (ℕ × List Hash32)
deepest visit [] max visited = some (max, visited)
deepest visit (p ∷ rest) max visited = elim (visit p visited) [
  | none ↦ none
  | some (d, visited') ↦ deepest visit rest (if ltb max d then d else max) visited'
]

unfoldable pub depth_from : Edges → ℕ → Hash32 → List Hash32 → ℕ → Option (ℕ × List Hash32)
unfolding deepest parents_of
depth_from edges zero cur visited depth = none
depth_from edges (suc fuel) cur visited depth =
    elim (contains Bytes-discrete cur visited || is_nil (parents_of edges cur)) [
      | true ↦ some (depth, visited)
      | false ↦
          deepest (λ p seen. depth_from edges fuel p seen (suc depth)) (parents_of edges cur) depth
            (cur ∷ visited)
    ]

-- the loop of Depth over the nodes, each with a new visited set
unfoldable pub depth_loop : Edges → List Hash32 → ℕ → Option ℕ
unfolding depth_from
depth_loop edges [] max = some max
depth_loop edges (node ∷ rest) max = elim (depth_from edges (suc (length edges)) node [] 0) [
  | none ↦ none
  | some (d, _) ↦ depth_loop edges rest (if ltb max d then d else max)
]

unfoldable pub depth : Edges → Option ℕ
unfolding depth_loop
depth edges = depth_loop edges (nodes edges) 0
