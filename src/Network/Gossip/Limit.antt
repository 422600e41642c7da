-- ===== src/Network/Gossip/Limit.antt =====
-- How often a node forwards one message, and what other messages and the cleanup do to that.
use cdml.Common.{
  ℕ, suc, ◌+◌, ◌-◌, true, false, Bytes-discrete, List, [], ◌∷◌, ite, leb, if◌then◌else◌, none, some,
  ◌≡◌, refl, arith,
}
use Prim.Native.Nat.{min}
use cdml.Core.Types.{Hash32}
use cdml.Network.Gossip.{Gossip, gossip_hops, find, count_hop, should_forward}

-- the hops of a message so far, 0 for one that was not seen
unfoldable pub hops_of : Hash32 → Gossip → ℕ
unfolding find
hops_of id g = elim (find id g) [ none ↦ 0 | some msg ↦ msg.hops ]

find-count_hop :
    (id other : Hash32) (g : Gossip)
    → find other (count_hop id g) ≡ elim (find other g) [
      | none ↦ none
      | some msg ↦
          some (record msg { hops = ite (Bytes-discrete id other) (msg.hops + 1) msg.hops })
    ]
unfolding find count_hop
find-count_hop id other [] = refl
find-count_hop id other ((k, msg) ∷ g) = ground (arith, find-count_hop id other g)

-- ShouldForward counts the calls with an id up to the limit, answers true exactly below it, and leaves
-- the counts of all other messages.
pub should_forward-hops :
    (id other : Hash32) (now : ℕ) (g : Gossip)
    → let (answer, _, g') = should_forward id now g in
      (answer ≡ (if leb gossip_hops (hops_of id g) then false else true))
      × (hops_of other g' ≡ (
          if answer
          then ite (Bytes-discrete id other) (hops_of id g + 1) (hops_of other g)
          else hops_of other g))
unfolding hops_of should_forward
should_forward-hops id other now g = ground (arith, find-count_hop id other g)

-- a run of calls, each with an id and an instant, with the number of them for `id` answered by true
unfoldable pub forwards : Hash32 → List (Hash32 × ℕ) → Gossip → ℕ
unfolding Bytes-discrete
forwards id [] g = 0
forwards id ((k, now) ∷ calls) g =
    let rest = forwards id calls (should_forward k now g).2 in
    if (should_forward k now g).0 then ite (Bytes-discrete k id) (suc rest) rest else rest

-- the number of the calls for `id`
unfoldable pub received : Hash32 → List (Hash32 × ℕ) → ℕ
unfolding Bytes-discrete
received id [] = 0
received id ((k, _) ∷ calls) =
    ite (Bytes-discrete k id) (suc (received id calls)) (received id calls)

-- A message is forwarded on its first receipts, until its count has reached the limit, whatever else
-- is received in between: of n calls for an id, with h hops counted before, those answered true are
-- as many as n, or 6 - h if that is less. A message that was already seen is forwarded again.
pub forwards_bound :
    (id : Hash32) (calls : List (Hash32 × ℕ)) (g : Gossip)
    → forwards id calls g ≡ min (received id calls) (gossip_hops - hops_of id g)
unfolding forwards received
forwards_bound id [] g = omega arith
forwards_bound id ((k, now) ∷ calls) g =
    grind
      (arith, forwards_bound id calls (should_forward k now g).2, should_forward-hops k id now g)
