-- ===== src/Node/Mutex/Deadlock.antt =====
-- When addPeer and Stop return.
use mathlib.Core.List.{Memᴰ}
use mathlib.Core.List.Memᴰ
use mathlib.Core.Logic.{⊎_elim}
use cdml.Common.{
  ltb, if◌then◌else◌, Option-cases, subst, ap, ◌⊎◌, inl, inr, ℕ, suc, zero, true, false, length,
  List, [], ◌∷◌, ◌++◌, map, some, ◌≡◌, ◌≢◌, refl, arith,
}
use cdml.Core.Types.{PubKey, max_peers}
use cdml.Network.Peer.{Peer, PeerState, closed, close}
use cdml.Common.Maps.{insert}
use cdml.Node.State.{Node, NodeLibraries, peer_at, alter}
use cdml.Node.Mutex.{returns, stuck, close_peer, remove_peer, add_peer, close_all, stop}

pub peer_at-append : (ps : List Peer) (p : Peer) → peer_at (length ps) (ps ++ p ∷ []) ≡ some p
unfolding peer_at
peer_at-append [] p = refl
peer_at-append (q ∷ ps) p = peer_at-append ps p

alter_same : (i : ℕ) (p : Peer) (ps : List Peer) → peer_at i ps ≡ some p → alter i (λ _. p) ps ≡ ps
unfolding peer_at alter
alter_same i p [] there = refl
alter_same zero p (q ∷ ps) there = cc
alter_same (suc i) p (q ∷ ps) there = ap (λ (l : List Peer). q ∷ l) (alter_same i p ps there)

pub PeerState-discrete : Discrete PeerState
PeerState-discrete = hlevel

pub closed_or_open :
    (i : ℕ) (ps : List Peer)
    → ((p : Peer) → peer_at i ps ≡ some p → p.state ≡ closed)
      ⊎ ((p : Peer) × (peer_at i ps ≡ some p) × (p.state ≢ closed))
closed_or_open i ps = elim (Option-cases (peer_at i ps)) [
  | inl e ↦ inl (λ p h. cc)
  | inr (p, e) ↦ elim (PeerState-discrete p.state closed) [
    | yes c ↦ inl (λ q h. ground arith)
    | no c ↦ inr (p, e, c)
  ]
]

module _ (lib : NodeLibraries) where
  -- Close of a peer that is open never returns to a caller that holds the mutex.
  pub close_peer-stuck :
      (i : ℕ) (p : Peer) (s : Node lib)
      → peer_at i s.conns ≡ some p
      → p.state ≢ closed
      → s.mu_held ≡ true
      → close_peer lib i s ≡ stuck
  unfolding close_peer remove_peer close
  close_peer-stuck i p s there open_peer held = ground arith

  -- addPeer, called while nobody holds the mutex, registers the new peer where fewer than 50 are
  -- registered. Where there are 50 or more and the new peer is not closed yet, it waits for ever for
  -- the mutex that it holds.
  pub add_peer_outcome :
      (peer : Peer) (s : Node lib)
      → s.mu_held ≡ false
      → peer.state ≢ closed
      → add_peer lib peer s ≡ (
          if ltb (length s.peers) max_peers
          then returns (record s {
            conns = s.conns ++ peer ∷ [];
            peers = insert peer.pub_key (length s.conns) s.peers;
          })
          else stuck)
  unfolding add_peer
  add_peer_outcome peer s free open_peer = ground (
    arith,
    close_peer-stuck (length s.conns) peer
        (record s { conns = s.conns ++ peer ∷ []; mu_held = true }) (peer_at-append s.conns peer)
        open_peer refl,
  )

  -- Close of what is closed, or was never there, changes nothing.
  pub close_peer-closed :
      (i : ℕ) (s : Node lib)
      → ((p : Peer) → peer_at i s.conns ≡ some p → p.state ≡ closed)
      → close_peer lib i s ≡ returns s
  unfolding close_peer close
  close_peer-closed i s all = elim (Option-cases (peer_at i s.conns)) [
    | inl none_there ↦ ground arith
    | inr (p, there) ↦ ground (arith, all p there, alter_same i p s.conns there)
  ]

  close_all-stuck :
      (ids : List ℕ) (i : ℕ) (p : Peer) (s : Node lib)
      → Memᴰ i ids
      → peer_at i s.conns ≡ some p
      → p.state ≢ closed
      → s.mu_held ≡ true
      → close_all lib ids s ≡ stuck
  unfolding close_all
  close_all-stuck [] i p s m there open_peer held = absurd (Memᴰ.not-nil m)
  close_all-stuck (j ∷ ids) i p s m there open_peer held =
      ⊎_elim
        (λ e. rw (
          close_peer-stuck j p s (subst (λ k. peer_at k s.conns ≡ some p) e there) open_peer held,
          close_all,
        ))
        (λ later. elim (closed_or_open j s.conns) [
          | inl all ↦
              rw (close_peer-closed j s all, close_all)
                (close_all-stuck ids i p s later there open_peer held)
          | inr (q, here, other) ↦ rw (close_peer-stuck j q s here other held, close_all)
        ])
        (Memᴰ.cases_cons m)

  -- Stop, called while nobody holds the mutex, waits for ever where any registered peer is open, in
  -- whatever order the map is ranged over.
  pub stop-stuck :
      (s : Node lib) (key : PubKey) (i : ℕ) (p : Peer)
      → s.mu_held ≡ false
      → Memᴰ (key, i) s.peers
      → peer_at i s.conns ≡ some p
      → p.state ≢ closed
      → stop lib s ≡ stuck
  unfolding stop
  stop-stuck s key i p free m there open_peer =
      let t : Node lib = record s { mu_held = true } in
      let m' = Memᴰ.map (λ (e : PubKey × ℕ). e.1) m in
      ground (arith, close_all-stuck (map (λ e. e.1) s.peers) i p t m' there open_peer refl)
