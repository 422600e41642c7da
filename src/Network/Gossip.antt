-- ===== src/Network/Gossip.antt =====
-- internal/network/gossip.go: Gossip, the cache of seen messages, and the choice of peers. The map is
-- the list of its entries; the mutex makes each method one step.
pub mod Limit
use cdml.Common.{
  ℕ, zero, suc, ◌+◌, ◌-◌, ◌*◌, Bool, true, false, Bytes-discrete, List, [], ◌∷◌, ite, ltb, leb,
  take, length, if◌then◌else◌, Option, none, some,
}
use cdml.Core.Types.{Hash32, second}

abbrev pub gossip_fanout : ℕ
gossip_fanout = 8

abbrev pub gossip_hops : ℕ
gossip_hops = 6

-- gossipMsgTTL, ten minutes
abbrev pub gossip_msg_ttl : ℕ
gossip_msg_ttl = 600 * second

pub record GossipMsg : Type 0 where
  pub seen_at : ℕ
  pub hops : ℕ

abbrev pub Gossip : Type 0
Gossip = List (Hash32 × GossipMsg)

abbrev pub new_gossip : Gossip
new_gossip = []

-- `g.seen[msgID]`
unfoldable pub find : Hash32 → Gossip → Option GossipMsg
unfolding Bytes-discrete
find id [] = none
find id ((k, msg) ∷ g) = ite (Bytes-discrete k id) (some msg) (find id g)

-- `msg.hops++` through the pointer that the map holds
unfoldable pub count_hop : Hash32 → Gossip → Gossip
unfolding Bytes-discrete
count_hop id [] = []
count_hop id ((k, msg) ∷ g) =
    ite (Bytes-discrete k id) ((k, record msg { hops = msg.hops + 1 }) ∷ g)
      ((k, msg) ∷ count_hop id g)

-- ShouldForward at the instant `now`: the answer, the hops, and the cache afterwards
unfoldable pub should_forward : Hash32 → ℕ → Gossip → Bool × ℕ × Gossip
unfolding find count_hop
should_forward id now g = elim (find id g) [
  | some msg ↦
      if leb gossip_hops msg.hops
      then (false, msg.hops, g)
      else (true, msg.hops + 1, count_hop id g)
  | none ↦ (true, 1, (id, record { seen_at = now; hops = 1 }) ∷ g)
]

-- one round of cleanup at the instant `now`
unfoldable pub cleanup : ℕ → Gossip → Gossip
cleanup now [] = []
cleanup now ((k, msg) ∷ g) =
    let kept = cleanup now g in
    if ltb gossip_msg_ttl (now - msg.seen_at) then kept else (k, msg) ∷ kept

-- SelectPeers, where `shuffle` is the permutation that rand.Shuffle makes
unfoldable pub select_peers : {P : Type 0} → (List P → List P) → List P → ℕ → List P
select_peers shuffle peers n = if leb (length peers) n then peers else take n (shuffle peers)

unfoldable pub fanout : ℕ
fanout = gossip_fanout
