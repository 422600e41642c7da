-- ===== src/Protocol/Dag/Depth/Total.antt =====
-- The recursion of depthFrom ends: every call visits a node that was not visited before.
use mathlib.Core.List.{Memᴰ}
use cdml.Common.{
  ℕ, zero, suc, ◌+◌, ◌≤◌, ◌<◌, Bytes-discrete, contains, length, List, [], ◌∷◌, Option, some, ◌≡◌,
  refl, arith, inl, inr, Bool-cases, List-cases, ltb, if◌then◌else◌,
}
use cdml.Core.Types.{Hash32}
use cdml.Protocol.Dag.{Edges, nodes, parents_of}
use cdml.Protocol.Dag.Unseen.{unseen, unseen_grows, unseen_visit, unseen_le_length}
use cdml.Protocol.Dag.Depth.{deepest, depth_from, depth_loop, depth}

-- a call that returns a depth within the bound, and has forgotten no visited node
abbrev Reaches : ℕ → List Hash32 → Option (ℕ × List Hash32) → Type 0
Reaches bound v r =
    (d : ℕ) × (w : List Hash32) × (r ≡ some (d, w))
    × (d ≤ bound)
    × ((x : Hash32) → Memᴰ x v → Memᴰ x w)

module _ (edges : Edges) where
  deepest-Reaches :
      (n bound : ℕ) (visit : Hash32 → List Hash32 → Option (ℕ × List Hash32))
      → ((p : Hash32) (u : List Hash32) → unseen edges u ≤ n → Reaches bound u (visit p u))
      → (ps v : List Hash32) (max : ℕ) → max ≤ bound
      → unseen edges v ≤ n
      → Reaches bound v (deepest visit ps max v)
  unfolding deepest
  deepest-Reaches n bound visit each [] v max fits few = (max, v, refl, fits, λ x m. m)
  deepest-Reaches n bound visit each (p ∷ ps) v max fits few =
      let (d, w, e, small, grows) = each p v few in
      let less : unseen edges w ≤ n = omega (arith, unseen_grows edges v w grows) in
      let (d', w', e', small', grows') =
        deepest-Reaches n bound visit each ps w (if ltb max d then d else max) (ground arith)
          less in
      (d', w', ground arith, small', λ x m. grows' x (grows x m))

  depth_from-Reaches :
      (fuel : ℕ) (cur : Hash32) (v : List Hash32) (at : ℕ)
      → unseen edges v < fuel
      → Reaches (at + unseen edges v) v (depth_from edges fuel cur v at)
  unfolding depth_from
  depth_from-Reaches zero cur v at few = absurd (omega arith)
  depth_from-Reaches (suc fuel) cur v at few = elim (Bool-cases (contains Bytes-discrete cur v)) [
    | inl old ↦ (at, v, ground arith, omega arith, λ x m. m)
    | inr new ↦ elim (List-cases (parents_of edges cur)) [
      | inl none_there ↦ (at, v, ground arith, omega arith, λ x m. m)
      | inr (p, ps, there) ↦
          let fewer : unseen edges (cur ∷ v) < unseen edges v =
            unseen_visit edges cur v new (λ e. ground arith) in
          let (d, w, e, small, grows) =
            deepest-Reaches (unseen edges (cur ∷ v)) (at + unseen edges v)
              (λ q seen. depth_from edges fuel q seen (suc at))
              (λ q u few'.
                let (d, w, e, small, grows) = depth_from-Reaches fuel q u (suc at) (omega arith) in
                (d, w, e, omega arith, grows))
              (parents_of edges cur) (cur ∷ v) at (omega arith) (omega arith) in
          (d, w, ground arith, small, λ x m. grows x (Memᴰ.tail m))
    ]
  ]

  -- the loop of Depth returns
  depth_loop_returns :
      (todo : List Hash32) (max : ℕ)
      → max ≤ length edges
      → (n : ℕ) × (depth_loop edges todo max ≡ some n) × (n ≤ length edges)
  unfolding depth_loop
  depth_loop_returns [] max fits = (max, refl, fits)
  depth_loop_returns (x ∷ todo) max fits =
      let size = unseen_le_length edges in
      let (d, w, e, small, grows) = depth_from-Reaches (suc (length edges)) x [] 0 (omega arith) in
      let (n, found, bounded) =
        depth_loop_returns todo (if ltb max d then d else max) (ground arith) in
      (n, ground arith, bounded)

-- Depth always returns, on a graph with cycles too, as its recursion ends within one more level
-- than there are nodes; and the depth is at most the number of nodes that have parents.
pub depth_returns : (edges : Edges) → (n : ℕ) × (depth edges ≡ some n) × (n ≤ length edges)
unfolding depth
depth_returns edges = depth_loop_returns edges (nodes edges) 0 (omega arith)
