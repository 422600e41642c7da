-- ===== src/Tests/Graphs.antt =====
-- The DAG and the gossip cache at concrete inputs.
use mathlib.Core.List.Memᴰ
use cdml.Common.{ℕ, ◌-◌, [], ◌∷◌, ◌≡◌, refl, replicate, arith, Bytes-discrete, ◌≤◌, some}
use Prim.Native.Nat.{min}
use cdml.Core.Types.{Hash32}
use cdml.Protocol.Dag.{Edges, append_edge, add_edge, is_ancestor, any_ancestor, parents_of}
use cdml.Protocol.Dag.Walk.{one, more, Acyclic}
use cdml.Protocol.Dag.Cycles.{add_edge-Acyclic}
use cdml.Protocol.Dag.Depth.{depth}
use cdml.Protocol.Dag.Depth.Total.{depth_returns}
use cdml.Network.Gossip.{Gossip, gossip_hops}
use cdml.Network.Gossip.Limit.{hops_of, forwards, received, forwards_bound}

abbrev h : ℕ → Hash32
h = replicate 32

-- 2 is a child of 1
abbrev dag : Edges
dag = (h 2, h 1 ∷ []) ∷ []

none-Acyclic : Acyclic []
unfolding parents_of
none-Acyclic x (one e) = absurd (Memᴰ.not-nil e)
none-Acyclic x (more _ e) = absurd (Memᴰ.not-nil e)

dag-Acyclic : Acyclic dag
unfolding add_edge is_ancestor any_ancestor parents_of append_edge Bytes-discrete
dag-Acyclic = add_edge-Acyclic (h 2) (h 1) [] dag (omega arith) none-Acyclic refl

add_edge-Acyclic_example : Acyclic (append_edge dag (h 3) (h 2))
unfolding add_edge is_ancestor any_ancestor parents_of Bytes-discrete
add_edge-Acyclic_example =
    add_edge-Acyclic (h 3) (h 2) dag (append_edge dag (h 3) (h 2)) (omega arith) dag-Acyclic refl

-- the message 1 was received five times
abbrev cache : Gossip
cache = (h 1, record { seen_at = 0; hops = 5 }) ∷ []

forwards_bound_example :
    forwards (h 1) ((h 1, 4) ∷ (h 2, 4) ∷ (h 1, 5) ∷ []) cache ≡ min 2 (gossip_hops - 5)
unfolding hops_of received Bytes-discrete
forwards_bound_example = forwards_bound (h 1) ((h 1, 4) ∷ (h 2, 4) ∷ (h 1, 5) ∷ []) cache

-- 4 has the parents 2 and 3, 3 has the parent 2, and 2 the parent 1
abbrev diamond : Edges
diamond = (h 4, h 2 ∷ h 3 ∷ []) ∷ (h 3, h 2 ∷ []) ∷ (h 2, h 1 ∷ []) ∷ []

depth_returns_example : (n : ℕ) × (depth diamond ≡ some n) × (n ≤ 3)
depth_returns_example = depth_returns diamond

-- the walk 4, 3, 2, 1 has three edges, but 2 was visited before, on the shorter way
depth-diamond : depth diamond ≡ some 2
unfolding depth Bytes-discrete
depth-diamond = refl
