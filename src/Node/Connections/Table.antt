-- ===== src/Node/Connections/Table.antt =====
-- The table of the peers, in every state that the goroutines of the connections can come to.
use cdml.Common.{
  ℕ, ◌≤◌, Bool, true, false, ◌||◌, Bytes, length, List, [], ◌∷◌, ◌++◌, ◌≡◌, inl, inr, refl, sym, ap,
  ◌∙◌, subst, arith,
}
use cdml.Common.Maps.{lookup}
use cdml.Core.Errors.{Res, ok, err, panic, Res-cases}
use cdml.Core.Types.{PubKey, max_peers}
use cdml.Json.{Json}
use cdml.Crypto.KeyPair.{KeyPair}
use cdml.Network.Framing.{Connection, read_packet}
use cdml.Network.Peer.{Peer, new_peer}
use cdml.Network.Handshake.{Wire}
use cdml.Node.Config.{Config}
use cdml.Node.State.{Node, NodeLibraries, new}
use cdml.Node.Mutex.{add_peer, remove_peer}
use cdml.Node.Mutex.Deadlock.{add_peer_outcome}
use cdml.Node.Start.{start_node}
use cdml.Node.Links.{handle_packet-SameLinks}
use cdml.Node.Connections.{
  Work, listening, shaking, dialing, adding, pumping, looping, closing, removing, After, works_of,
  goes, accept, inbound, dial, add, write_frame, read_one, shut, forget, proceed, Step, one, other,
  Steps, begun, then,
}
use cdml.Node.Connections.Linked.{
  removes, removes-append, Sound, AllRegistered, Bounded, AllRegistered-weaken, Sound-SameLinks,
}
use cdml.Node.Connections.Arrivals.{Good}
use cdml.Node.Connections.Proceed.{proceed-Good}

module _ (lib : NodeLibraries) (kp : KeyPair) (net : Connection) (key_json : Json PubKey) where
  open lib use {packet_json}

  -- the keys that are about to be removed, by one goroutine and by the others
  removes_parts :
      (key : PubKey) (before ws later works : List (Work net))
      → works ≡ before ++ (ws ++ later)
      → removes net key works
        ≡ ((removes net key before || removes net key later) || removes net key ws)
  removes_parts key before ws later works e =
      ap (λ (x : List (Work net)). removes net key x) e
      ∙ removes-append net key before (ws ++ later)
      ∙ ground (arith, removes-append net key ws later)

  Step-Sound :
      (works works' : List (Work net)) (s s' : Node lib)
      → Step lib kp net key_json works s works' s'
      → Sound lib (λ key. removes net key works) s
      → Sound lib (λ key. removes net key works') s'
  Step-Sound works works' s s' (other same links) sound =
      subst (λ ws. Sound lib (λ key. removes net key ws) s') (sym same)
        (Sound-SameLinks lib (λ key. removes net key works) s s' links sound)
  Step-Sound works works' s s' (one before later ws w now fails here done now_works)
        (bounded, all) =
      let rest = λ (key : PubKey). removes net key before || removes net key later in
      let leaving = λ (x : List (Work net)) (key : PubKey). rest key || removes net key x in
      let first =
        AllRegistered-weaken lib (λ key. removes net key works) (leaving (w ∷ [])) s.peers s.conns
          (λ key e. sym (removes_parts key before (w ∷ []) later works here) ∙ e) all in
      let good =
        subst (Good lib kp net key_json rest) done
          (proceed-Good lib kp net key_json rest now fails w s (bounded, first)) in
      (
        good.0,
        AllRegistered-weaken lib (leaving ws) (λ key. removes net key works') s'.peers s'.conns
            (λ key e. removes_parts key before ws later works' now_works ∙ e) good.1,
      )

  Steps-Sound :
      {works : List (Work net)} {s : Node lib} {works' : List (Work net)} {s' : Node lib}
      → Steps lib kp net key_json works s works' s'
      → Sound lib (λ key. removes net key works) s
      → Sound lib (λ key. removes net key works') s'
  Steps-Sound begun sound = sound
  Steps-Sound (then {works1} {works2} {s1} {s2} steps step) sound =
      Step-Sound works1 works2 s1 s2 step (Steps-Sound steps sound)

  empty-Registered :
      (leaving : PubKey → Bool) (conns : List Peer) → AllRegistered lib leaving [] conns
  unfolding lookup
  empty-Registered leaving conns key i e = absurd (ground arith)

  -- Whatever the order in which the goroutines that Start has started, and those that they start, take
  -- their steps, with whatever else but Stop the node does in between, and whenever connections break: at most
  -- 50 peers are registered, and where n.mu is held between two steps, exactly 50. The object under a
  -- registered key has that key, and it is open, or a goroutine is about to remove the key.
  pub registered_peers :
      (listen : Bytes → Res (Unit {0})) (cfg : Config) (accepts : List (Res (Bytes × Wire net)))
      (dialled : Bytes → List (Res (Wire net))) (disk : lib.libs.badger.Disk)
      (works : List (Work net)) (s : Node lib)
      → Steps lib kp net key_json
          (elim (start_node listen cfg) [ ok gs ↦ works_of net accepts dialled gs | _ ↦ [] ])
          (new lib disk)
          works
          s
      → Bounded lib s × AllRegistered lib (λ key. removes net key works) s.peers s.conns
  registered_peers listen cfg accepts dialled disk works s steps =
      Steps-Sound steps (inl (refl, omega arith), empty-Registered _ [])

  -- the mutex is held, and the table is this
  abbrev pub Held : List (PubKey × ℕ) → Node lib → Type 0
  Held peers s = (s.mu_held ≡ true) × (s.peers ≡ peers)

  read_one-Held :
      (fails : Bool) (after : After net) (i now : ℕ) (c : net.Conn) (s s' : Node lib)
      (ws : List (Work net))
      → s.mu_held ≡ true
      → read_one lib kp net key_json fails after i now c s ≡ goes ws s'
      → Held s.peers s'
  unfolding read_one
  read_one-Held fails after i now c s s' ws held e =
      elim (Res-cases (read_packet net packet_json now c).0) [
        | inl (pkt, r) ↦
            let kept = handle_packet-SameLinks lib kp i pkt now s in
            ground (arith, kept.peers, kept.mutex)
        | inr (inl (x, r)) ↦ ground arith
        | inr (inr r) ↦ ground arith
      ]

  proceed-Held :
      (now : ℕ) (fails : Bool) (w : Work net) (s s' : Node lib) (ws : List (Work net))
      → s.mu_held ≡ true
      → proceed lib kp net key_json now fails w s ≡ goes ws s'
      → Held s.peers s'
  unfolding proceed accept inbound dial add write_frame shut forget add_peer remove_peer
  proceed-Held now fails (listening []) s s' ws held e = ground arith
  proceed-Held now fails (listening (ok a ∷ more)) s s' ws held e = ground arith
  proceed-Held now fails (listening (err a ∷ more)) s s' ws held e = ground arith
  proceed-Held now fails (listening (panic ∷ more)) s s' ws held e = ground arith
  proceed-Held now fails (shaking remote_addr w) s s' ws held e = ground arith
  proceed-Held now fails (dialing addr []) s s' ws held e = ground arith
  proceed-Held now fails (dialing addr (ok w ∷ more)) s s' ws held e = ground arith
  proceed-Held now fails (dialing addr (err w ∷ more)) s s' ws held e = ground arith
  proceed-Held now fails (dialing addr (panic ∷ more)) s s' ws held e = ground arith
  proceed-Held now fails (adding after c pub_key addr) s s' ws held e = ground arith
  proceed-Held now fails (pumping i) s s' ws held e = ground arith
  proceed-Held now fails (looping after i c) s s' ws held e =
      read_one-Held fails after i now c s s' ws held e
  proceed-Held now fails (closing after i) s s' ws held e = ground arith
  proceed-Held now fails (removing after key) s s' ws held e = ground arith

  Steps-Held :
      {works : List (Work net)} {s : Node lib} {works' : List (Work net)} {s' : Node lib}
      → Steps lib kp net key_json works s works' s'
      → s.mu_held ≡ true
      → Held s.peers s'
  Steps-Held begun held = (held, refl)
  Steps-Held {works} {s} (then {works1} {works2} {s1} {s2} steps step) held =
      let (still, same) = Steps-Held steps held in
      elim step [
        | one before later ws w now fails here done now_works ↦
            let last = proceed-Held now fails w s1 s2 ws still done in (last.0, last.1 ∙ same)
        | other _ links ↦ (links.mutex ∙ still, links.peers ∙ same)
      ]

  add_locks :
      (after : After net) (c : net.Conn) (pub_key : PubKey) (addr : Bytes) (s t : Node lib)
      (ws : List (Work net))
      → s.mu_held ≡ false
      → max_peers ≤ length s.peers
      → add lib kp net key_json after c pub_key addr s ≡ goes ws t
      → (t.mu_held ≡ true) × (t.peers ≡ s.peers) × (ws ≡ removing after pub_key ∷ [])
  unfolding add
  add_locks after c pub_key addr s t ws free full e =
      ground (arith, add_peer_outcome lib (new_peer pub_key addr) s free (λ f. cc))

  -- With 50 peers, the next one that shakes hands locks n.mu for ever: its call of addPeer does not get
  -- past removePeer, and whatever steps the goroutines of the connections and the rest of the node
  -- but Stop take then, the mutex is held and the table of the peers has the entries that it had.
  pub full_table_freezes :
      (after : After net) (c : net.Conn) (pub_key : PubKey) (addr : Bytes) (now : ℕ) (fails : Bool)
      (before later ws works : List (Work net)) (s t s' : Node lib)
      → s.mu_held ≡ false
      → max_peers ≤ length s.peers
      → proceed lib kp net key_json now fails (adding after c pub_key addr) s ≡ goes ws t
      → Steps lib kp net key_json (before ++ (ws ++ later)) t works s'
      → (ws ≡ removing after pub_key ∷ []) × (s'.mu_held ≡ true) × (s'.peers ≡ s.peers)
  unfolding proceed
  full_table_freezes after c pub_key addr now fails before later ws works s t s' free full e steps =
      let (held, same, waits) = add_locks after c pub_key addr s t ws free full e in
      let (still, kept) = Steps-Held steps held in (waits, still, kept ∙ same)
