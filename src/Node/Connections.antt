-- ===== src/Node/Connections.antt =====
-- node/node.go: the goroutines of the connections, which run in any order: acceptLoop, handleInbound,
-- connectToSeed and readLoop, and StartWritePump and Close of internal/network/packet.go. A step goes
-- up to the next point at which another goroutine can come in between: a read, a write, or a wait for
-- n.mu. The pauses are not modelled; a packet is handled as one step, also where the mutex is held.
pub mod Linked
pub mod Arrivals
pub mod Proceed
pub mod Table
use cdml.Common.{
  ℕ, leb, if◌then◌else◌, Bool, true, false, Bytes, length, List, [], ◌∷◌, ◌++◌, none, some, ◌≡◌,
}
use cdml.Core.Errors.{Res, ok, err, panic, failure}
use cdml.Core.Types.{PubKey}
use cdml.Json.{Json}
use cdml.Crypto.KeyPair.{KeyPair}
use cdml.Network.Framing.{Connection, read_packet}
use cdml.Network.Peer.{PeerState, new_peer, pump, close}
use cdml.Network.Handshake.{Wire, handle_inbound, connect_to_seed}
use cdml.Node.State.{Node, NodeLibraries, new, peer_at, alter}
use cdml.Node.Handlers.{handle_packet}
use cdml.Node.Mutex.{returns, stuck, add_peer, remove_peer}
use cdml.Node.Start.{Goroutine, accepting, connecting_to, serving_api}
use cdml.Node.Links.{SameLinks}

module _ (net : Connection) where
  -- what a goroutine does after its connection is closed: connectToSeed dials again, with what its
  -- later dials give
  pub data After : Type 0 where
    ends : After
    dials : Bytes → List (Res (Wire net)) → After

  -- where a goroutine is: in acceptLoop, with what Accept will return; in handleInbound; in
  -- connectToSeed, with what its dials will give; before addPeer; in StartWritePump or readLoop of the
  -- object at a place; before its deferred Close; and in the call of removePeer that Close makes
  pub data Work : Type 0 where
    listening : List (Res (Bytes × Wire net)) → Work
    shaking : Bytes → Wire net → Work
    dialing : Bytes → List (Res (Wire net)) → Work
    adding : After → net.Conn → PubKey → Bytes → Work
    pumping : ℕ → Work
    looping : After → ℕ → net.Conn → Work
    closing : After → ℕ → Work
    removing : After → PubKey → Work

  abbrev pub resume : After → List Work
  resume ends = []
  resume (dials addr more) = dialing addr more ∷ []

  -- the goroutines that Start starts
  unfoldable pub works_of :
      List (Res (Bytes × Wire net)) → (Bytes → List (Res (Wire net))) → List Goroutine → List Work
  works_of accepts dialled [] = []
  works_of accepts dialled (accepting ∷ gs) = listening accepts ∷ works_of accepts dialled gs
  works_of accepts dialled (connecting_to addr ∷ gs) =
      dialing addr (dialled addr) ∷ works_of accepts dialled gs
  works_of accepts dialled (serving_api addr ∷ gs) = works_of accepts dialled gs

module _ (lib : NodeLibraries) (kp : KeyPair) (net : Connection) (key_json : Json PubKey) where
  open lib use {packet_json}

  -- what a step comes to: the goroutine goes on as these, or a panic ends the program
  pub data Next : Type 0 where
    goes : List (Work net) → Node lib → Next
    crashed : Next

  -- a round of acceptLoop: each connection has a goroutine of its own
  unfoldable pub accept : List (Res (Bytes × Wire net)) → Node lib → Next
  accept [] s = goes (listening [] ∷ []) s
  accept (ok (remote_addr, w) ∷ more) s = goes (shaking remote_addr w ∷ listening more ∷ []) s
  accept (_ ∷ more) s = goes [] s

  -- handleInbound up to addPeer
  unfoldable pub inbound : Bytes → ℕ → Wire net → Node lib → Next
  inbound remote_addr now w s =
      let (r, w') = handle_inbound net packet_json key_json kp.public remote_addr now w in
      elim r [
        | ok peer ↦ goes (adding ends w'.conn peer.pub_key peer.addr ∷ []) s
        | err _ ↦ goes [] s
        | panic ↦ crashed
      ]

  -- a round of connectToSeed up to addPeer
  unfoldable pub dial : Bytes → ℕ → List (Res (Wire net)) → Node lib → Next
  dial addr now [] s = goes (dialing addr [] ∷ []) s
  dial addr now (err _ ∷ more) s = goes (dialing addr more ∷ []) s
  dial addr now (panic ∷ more) s = crashed
  dial addr now (ok w ∷ more) s =
      let (r, w') = connect_to_seed net packet_json key_json kp.public addr now w in
      elim r [
        | ok peer ↦ goes (adding (dials addr more) w'.conn peer.pub_key peer.addr ∷ []) s
        | err _ ↦ goes (dialing addr more ∷ []) s
        | panic ↦ crashed
      ]

  -- NewPeer, addPeer and the start of the two goroutines of the peer. A call that finds the mutex held
  -- waits. One that would never return has locked the mutex and closed the peer, and is in removePeer.
  unfoldable pub add : After net → net.Conn → PubKey → Bytes → Node lib → Next
  add after c pub_key addr s =
      let peer = new_peer pub_key addr in
      elim (add_peer lib peer s) [
        | returns s' ↦ let i = length s.conns in goes (pumping i ∷ looping after i c ∷ []) s'
        | stuck ↦
            if s.mu_held
            then goes (adding after c pub_key addr ∷ []) s
            else goes (removing after pub_key ∷ [])
                (record s { conns = s.conns ++ (close peer).1 ∷ []; mu_held = true })
      ]

  -- a round of StartWritePump, which ends at an error or when the channel is closed and empty
  unfoldable pub write_frame : Bool → ℕ → Node lib → Next
  write_frame fails i s = elim (peer_at i s.conns) [
    | none ↦ goes (closing ends i ∷ []) s
    | some p ↦
        let (frames, p') = pump p in
        let s' = record s { conns = alter i (λ _. p') s.conns } in
        elim frames [
          | [] ↦ elim p.state [
            | PeerState.closed ↦ goes (closing ends i ∷ []) s
            | _ ↦ goes (pumping i ∷ []) s
          ]
          | _ ∷ _ ↦ goes ((if fails then closing ends i else pumping i) ∷ []) s'
        ]
  ]

  -- a round of readLoop
  unfoldable pub read_one : Bool → After net → ℕ → ℕ → net.Conn → Node lib → Next
  read_one fails after i now c s =
      let (r, c') = read_packet net packet_json now c in
      elim (if fails then err (failure 60) else r) [
        | err _ ↦ goes (closing after i ∷ []) s
        | panic ↦ crashed
        | ok pkt ↦
            let (h, s') = handle_packet lib kp i pkt now s in
            elim h [ panic ↦ crashed | _ ↦ goes (looping after i c' ∷ []) s' ]
      ]

  -- Close up to the call of onClose
  unfoldable pub shut : After net → ℕ → Node lib → Next
  shut after i s = elim (peer_at i s.conns) [
    | none ↦ goes (resume net after) s
    | some p ↦
        let (calls, p') = close p in
        let s' = record s { conns = alter i (λ _. p') s.conns } in
        if calls then goes (removing after p.pub_key ∷ []) s' else goes (resume net after) s'
  ]

  -- onClose is removePeer, which waits where the mutex is held
  unfoldable pub forget : After net → PubKey → Node lib → Next
  forget after key s = elim (remove_peer lib key s) [
    | returns s' ↦ goes (resume net after) s'
    | stuck ↦ goes (removing after key ∷ []) s
  ]

  -- the next step of a goroutine at an instant, and whether the connection gives an error then
  unfoldable pub proceed : ℕ → Bool → Work net → Node lib → Next
  unfolding accept inbound dial add write_frame read_one shut forget
  proceed now fails (listening accepts) s = accept accepts s
  proceed now fails (shaking remote_addr w) s = inbound remote_addr now w s
  proceed now fails (dialing addr later) s = dial addr now later s
  proceed now fails (adding after c pub_key addr) s = add after c pub_key addr s
  proceed now fails (pumping i) s = write_frame fails i s
  proceed now fails (looping after i c) s = read_one fails after i now c s
  proceed now fails (closing after i) s = shut after i s
  proceed now fails (removing after key) s = forget after key s

  -- a step of the program: of one of these goroutines, or of anything else but Stop, which leaves the
  -- table, the keys and states of the peers and the mutex alone
  pub data Step (works : List (Work net)) (s : Node lib) (works' : List (Work net)) (s' : Node lib)
      : Type 0 where
    one :
        (before later ws : List (Work net)) (w : Work net) (now : ℕ) (fails : Bool)
        → works ≡ before ++ w ∷ later
        → proceed now fails w s ≡ goes ws s'
        → works' ≡ before ++ (ws ++ later)
        → Step works s works' s'
    other : works' ≡ works → SameLinks lib s s' → Step works s works' s'

  -- what a node comes to from a state, after any number of steps
  pub data Steps (works : List (Work net)) (s : Node lib)
      : List (Work net) → Node lib → Type 0 where
    begun : Steps works s works s
    then :
        {works1 works2 : List (Work net)} {s1 s2 : Node lib}
        → Steps works s works1 s1
        → Step works1 s1 works2 s2
        → Steps works s works2 s2
