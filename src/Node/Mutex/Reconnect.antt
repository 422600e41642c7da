-- ===== src/Node/Mutex/Reconnect.antt =====
-- A peer that connects again before its old connection is closed.
use cdml.Common.{
  ℕ, zero, suc, ◌<◌, false, length, List, [], ◌∷◌, ◌++◌, some, ◌≡◌, ◌≢◌, refl, ap, arith,
}
use cdml.Common.Maps.{delete}
use cdml.Network.Peer.{Peer, closed, close}
use cdml.Node.State.{Node, NodeLibraries, peer_at, alter}
use cdml.Node.Mutex.{returns, close_peer, remove_peer}

pub peer_at-alter_other :
    (i j : ℕ) (f : Peer → Peer) (ps : List Peer) → i ≢ j → peer_at j (alter i f ps) ≡ peer_at j ps
unfolding peer_at alter
peer_at-alter_other i j f [] ne = refl
peer_at-alter_other zero zero f (p ∷ ps) ne = absurd (ne refl)
peer_at-alter_other zero (suc j) f (p ∷ ps) ne = refl
peer_at-alter_other (suc i) zero f (p ∷ ps) ne = refl
peer_at-alter_other (suc i) (suc j) f (p ∷ ps) ne =
    peer_at-alter_other i j f ps (λ e. ne (ap suc e))

pub peer_at-front :
    (i : ℕ) (p q : Peer) (ps : List Peer)
    → peer_at i ps ≡ some p
    → (peer_at i (ps ++ q ∷ []) ≡ some p) × (i < length ps)
unfolding peer_at
peer_at-front i p q [] there = ground arith
peer_at-front zero p q (r ∷ ps) there = (there, omega arith)
peer_at-front (suc i) p q (r ∷ ps) there =
    let (still, small) = peer_at-front i p q ps there in (still, omega arith)

module _ (lib : NodeLibraries) where
  -- Close of an open peer, while nobody holds the mutex, closes it and forgets its key.
  pub close_peer_outcome :
      (i : ℕ) (p : Peer) (s : Node lib)
      → s.mu_held ≡ false
      → peer_at i s.conns ≡ some p
      → p.state ≢ closed
      → close_peer lib i s
        ≡ returns (record s {
          conns = alter i (λ _. record p { state = closed }) s.conns;
          peers = delete p.pub_key s.peers;
        })
  unfolding close_peer remove_peer close
  close_peer_outcome i p s free there open_peer = ground arith
