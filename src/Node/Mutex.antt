-- ===== src/Node/Mutex.antt =====
-- node/node.go: addPeer, removePeer and Stop, with the mutex n.mu written out. Go's mutexes are not
-- reentrant: a goroutine that locks one which it holds already waits for ever.
pub mod Deadlock
pub mod Reconnect
use cdml.Common.{
  ℕ, Bool, true, false, length, leb, if◌then◌else◌, List, [], ◌∷◌, ◌++◌, map, Option, none, some,
}
use cdml.Common.Maps.{insert, delete}
use cdml.Core.Types.{PubKey, max_peers}
use cdml.Network.Peer.{Peer, close}
use cdml.Node.State.{Node, NodeLibraries, peer_at, alter}

-- what a call comes to: it returns, or it waits for ever
pub data Outcome (A : Type 0) : Type 0 where
  returns : A → Outcome A
  stuck : Outcome A

infixl 5 ◌then◌
abbrev pub ◌then◌ : {A B : Type 0} → Outcome A → (A → Outcome B) → Outcome B
returns a then f = f a
stuck then f = stuck

module _ (lib : NodeLibraries) where
  -- `n.mu.Lock(); defer n.mu.Unlock()` around the rest, called by a goroutine that runs alone
  abbrev pub with_mu : (Node lib → Outcome (Node lib)) → Node lib → Outcome (Node lib)
  with_mu body s =
      if s.mu_held
      then stuck
      else body (record s { mu_held = true }) then λ s'. returns (record s' { mu_held = false })

  -- removePeer looks at the key of the object only.
  unfoldable pub remove_peer : PubKey → Node lib → Outcome (Node lib)
  remove_peer key = with_mu (λ s. returns (record s { peers = delete key s.peers }))

  -- Peer.Close of the object at a pointer, with the node's onClose
  unfoldable pub close_peer : ℕ → Node lib → Outcome (Node lib)
  unfolding peer_at alter remove_peer close
  close_peer i s = elim (peer_at i s.conns) [
    | none ↦ returns s
    | some p ↦
        let (calls, p') = close p in
        let s' = record s { conns = alter i (λ _. p') s.conns } in
        if calls then remove_peer p.pub_key s' else returns s'
  ]

  -- addPeer of a new object, which is the next one in the list
  unfoldable pub add_peer : Peer → Node lib → Outcome (Node lib)
  unfolding close_peer
  add_peer peer s =
      let i = length s.conns in
      with_mu
        (λ t.
          if leb max_peers (length t.peers)
          then close_peer i t
          else returns (record t { peers = insert peer.pub_key i t.peers }))
        (record s { conns = s.conns ++ peer ∷ [] })

  unfoldable pub close_all : List ℕ → Node lib → Outcome (Node lib)
  unfolding close_peer
  close_all [] s = returns s
  close_all (i ∷ ids) s = close_peer i s then close_all ids

  -- Stop up to the end of its loop; the write lock that removePeer asks for waits for the read lock
  -- that Stop holds.
  unfoldable pub stop : Node lib → Outcome (Node lib)
  unfolding close_all
  stop s = with_mu (λ t. close_all (map (λ e. e.1) t.peers) t) s
