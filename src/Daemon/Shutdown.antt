-- ===== src/Daemon/Shutdown.antt =====
-- When the daemon ends after a signal.
use cdml.Common.{
  Option-cases, Bool, true, false, ◌||◌, if◌then◌else◌, List, [], ◌∷◌, ℕ, map, none, some, ◌≡◌,
  refl, arith, inl, inr,
}
use cdml.Network.Peer.{Peer, closed}
use cdml.Node.State.{Node, NodeLibraries, peer_at}
use cdml.Node.Mutex.{returns, stuck, close_all, stop}
use cdml.Node.Mutex.Deadlock.{closed_or_open, close_peer-stuck, close_peer-closed}
use cdml.Daemon.{Process, stop_node, shut_down}

abbrev is_open : Peer → Bool
is_open p = elim p.state [ closed ↦ false | _ ↦ true ]

-- whether an object that is listed is open
abbrev pub any_open : List ℕ → List Peer → Bool
any_open [] conns = false
any_open (i ∷ ids) conns =
    let rest = any_open ids conns in
    elim (peer_at i conns) [ none ↦ rest | some p ↦ is_open p || rest ]

module _ (lib : NodeLibraries) where
  close_all-any_open :
      (ids : List ℕ) (s : Node lib)
      → s.mu_held ≡ true
      → close_all lib ids s ≡ (if any_open ids s.conns then stuck else returns s)
  unfolding close_all
  close_all-any_open [] s held = refl
  close_all-any_open (i ∷ ids) s held = elim (closed_or_open i s.conns) [
    | inl all ↦ elim (Option-cases (peer_at i s.conns)) [
      | inl gone ↦ ground (arith, close_peer-closed lib i s all, close_all-any_open ids s held)
      | inr (p, here) ↦
          ground (arith, all p here, close_peer-closed lib i s all, close_all-any_open ids s held)
    ]
    | inr (p, here, open_peer) ↦ ground (arith, close_peer-stuck lib i p s here open_peer held)
  ]

  -- After a signal the daemon closes its API server and its listener, and then, called while nobody
  -- holds the mutex of the node, it ends with the database closed exactly where every registered peer
  -- is closed already. With one open peer it never ends, and never closes the database.
  pub shut_down-any_open :
      (p : Process lib)
      → p.node.mu_held ≡ false
      → shut_down p ≡ (
          if any_open (map (λ e. e.1) p.node.peers) p.node.conns
          then stuck
          else returns (record p { api_up = false; listening = false; db_open = false }))
  unfolding shut_down stop_node stop
  shut_down-any_open p free =
      let n : Node lib = record p.node { mu_held = true } in
      ground (arith, close_all-any_open (map (λ e. e.1) p.node.peers) n refl)
