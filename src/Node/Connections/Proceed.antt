-- ===== src/Node/Connections/Proceed.antt =====
-- Every step of the goroutines of the connections keeps the table of the peers sound.
use cdml.Common.{
  ℕ, Bool, Bool-cases, Bytes, List, [], ◌∷◌, Option-cases, some, ◌≡◌, inl, inr, refl, sym, subst,
  arith,
}
use cdml.Common.Maps.{delete}
use cdml.Core.Errors.{Res-cases}
use cdml.Core.Types.{PubKey}
use cdml.Json.{Json}
use cdml.Crypto.KeyPair.{KeyPair}
use cdml.Network.Framing.{Connection, read_packet}
use cdml.Network.Peer.{Peer, closed, pump, close}
use cdml.Node.State.{Node, NodeLibraries, peer_at, alter}
use cdml.Node.Handlers.{handle_packet}
use cdml.Node.Mutex.{remove_peer}
use cdml.Node.Mutex.Deadlock.{PeerState-discrete}
use cdml.Node.Links.{handle_packet-SameLinks}
use cdml.Node.Connections.{
  Work, listening, shaking, dialing, adding, pumping, looping, closing, removing, After, ends,
  dials, resume, goes, crashed, Next, write_frame, read_one, shut, forget, proceed,
}
use cdml.Node.Connections.Linked.{
  Sound, length-delete, AllRegistered-weaken, AllRegistered-delete, AllRegistered-alter,
  Sound-SameLinks,
}
use cdml.Node.Connections.Arrivals.{leaving, Good, accept-Good, inbound-Good, dial-Good, add-Good}

pump_same : (p : Peer) → ((pump p).1.pub_key ≡ p.pub_key) × ((pump p).1.state ≡ p.state)
unfolding pump
pump_same p = ground arith

module _ (lib : NodeLibraries) (kp : KeyPair) (net : Connection) (key_json : Json PubKey)
    (others : PubKey → Bool) where
  open lib use {packet_json}

  write_frame-Good :
      (fails : Bool) (i : ℕ) (s : Node lib)
      → Sound lib (leaving lib kp net key_json others []) s
      → Good lib kp net key_json others (write_frame lib kp net key_json fails i s)
  unfolding write_frame
  write_frame-Good fails i s (bounded, all) =
      let next = write_frame lib kp net key_json fails i s in
      elim (Option-cases (peer_at i s.conns)) [
        | inl none_there ↦
            let same : next ≡ goes (closing ends i ∷ []) s = ground arith in
            subst (Good lib kp net key_json others) (sym same) (bounded, all)
        | inr (p, there) ↦ written (pump p).0 p there refl
      ]
    where
      written :
          (frames : List Bytes) (p : Peer)
          → peer_at i s.conns ≡ some p
          → (pump p).0 ≡ frames
          → Good lib kp net key_json others (write_frame lib kp net key_json fails i s)
      written [] p there idle = elim (PeerState-discrete p.state closed) [
        | yes c ↦
            let same : write_frame lib kp net key_json fails i s ≡ goes (closing ends i ∷ []) s =
              ground arith in
            subst (Good lib kp net key_json others) (sym same) (bounded, all)
        | no c ↦
            let same : write_frame lib kp net key_json fails i s ≡ goes (pumping i ∷ []) s =
              ground arith in
            subst (Good lib kp net key_json others) (sym same) (bounded, all)
      ]
      written (frame ∷ more) p there some_frame =
          let q = (pump p).1 in
          let t : Node lib = record s { conns = alter i (λ _. q) s.conns } in
          let kept =
            AllRegistered-alter lib (leaving lib kp net key_json others []) s.peers s.conns i p q
              there (pump_same p).0 (inl (pump_same p).1) all in
          elim (Bool-cases fails) [
            | inl broken ↦
                let same : write_frame lib kp net key_json fails i s
                    ≡ goes (closing ends i ∷ []) t =
                  ground arith in
                subst (Good lib kp net key_json others) (sym same) (bounded, kept)
            | inr fine ↦
                let same : write_frame lib kp net key_json fails i s ≡ goes (pumping i ∷ []) t =
                  ground arith in
                subst (Good lib kp net key_json others) (sym same) (bounded, kept)
          ]

  read_one-Good :
      (fails : Bool) (after : After net) (i now : ℕ) (c : net.Conn) (s : Node lib)
      → Sound lib (leaving lib kp net key_json others []) s
      → Good lib kp net key_json others (read_one lib kp net key_json fails after i now c s)
  unfolding read_one
  read_one-Good fails after i now c s sound =
      let (r, c') = read_packet net packet_json now c in
      let next = read_one lib kp net key_json fails after i now c s in
      let broken : Next lib kp net key_json = goes (closing after i ∷ []) s in
      elim (Bool-cases fails) [
        | inl f ↦
            let same : next ≡ broken = ground arith in
            subst (Good lib kp net key_json others) (sym same) sound
        | inr f ↦ elim (Res-cases r) [
          | inr (inl (x, e)) ↦
              let same : next ≡ broken = ground arith in
              subst (Good lib kp net key_json others) (sym same) sound
          | inr (inr e) ↦
              let same : next ≡ crashed = ground arith in
              subst (Good lib kp net key_json others) (sym same) tt
          | inl (pkt, e) ↦
              let (h, t) = handle_packet lib kp i pkt now s in
              let goes_on : Next lib kp net key_json = goes (looping after i c' ∷ []) t in
              let kept =
                Sound-SameLinks lib (leaving lib kp net key_json others []) s t
                  (handle_packet-SameLinks lib kp i pkt now s) sound in
              elim (Res-cases h) [
                | inl (_, d) ↦
                    let same : next ≡ goes_on = ground arith in
                    subst (Good lib kp net key_json others) (sym same) kept
                | inr (inl (x, d)) ↦
                    let same : next ≡ goes_on = ground arith in
                    subst (Good lib kp net key_json others) (sym same) kept
                | inr (inr d) ↦
                    let same : next ≡ crashed = ground arith in
                    subst (Good lib kp net key_json others) (sym same) tt
              ]
        ]
      ]

  resume-Good :
      (after : After net) (s : Node lib)
      → Sound lib (leaving lib kp net key_json others []) s
      → Good lib kp net key_json others (goes (resume net after) s)
  resume-Good ends s sound = sound
  resume-Good (dials addr more) s sound = sound

  shut-Good :
      (after : After net) (i : ℕ) (s : Node lib)
      → Sound lib (leaving lib kp net key_json others []) s
      → Good lib kp net key_json others (shut lib kp net key_json after i s)
  unfolding shut close
  shut-Good after i s (bounded, all) =
      let next = shut lib kp net key_json after i s in
      elim (Option-cases (peer_at i s.conns)) [
        | inl none_there ↦
            let same : next ≡ goes (resume net after) s = ground arith in
            subst (Good lib kp net key_json others) (sym same) (resume-Good after s (bounded, all))
        | inr (p, there) ↦ elim (PeerState-discrete p.state closed) [
          | yes c ↦
              let t : Node lib = record s { conns = alter i (λ _. p) s.conns } in
              let same : next ≡ goes (resume net after) t = ground arith in
              subst (Good lib kp net key_json others) (sym same) (
                resume-Good after t (
                  bounded,
                  AllRegistered-alter lib (leaving lib kp net key_json others []) s.peers s.conns i
                      p p there refl (inl refl) all,
                ))
          | no c ↦
              let q : Peer = record p { state = closed } in
              let t : Node lib = record s { conns = alter i (λ _. q) s.conns } in
              let ws = removing after p.pub_key ∷ [] in
              let same : next ≡ goes ws t = ground arith in
              subst (Good lib kp net key_json others) (sym same) (
                bounded,
                AllRegistered-alter lib (leaving lib kp net key_json others ws) s.peers s.conns i p
                    q there refl (inr (ground arith))
                    (AllRegistered-weaken lib (leaving lib kp net key_json others [])
                      (leaving lib kp net key_json others ws) s.peers s.conns
                      (λ key e. ground arith) all),
              )
        ]
      ]

  forget-Good :
      (after : After net) (k : PubKey) (s : Node lib)
      → Sound lib (leaving lib kp net key_json others (removing after k ∷ [])) s
      → Good lib kp net key_json others (forget lib kp net key_json after k s)
  unfolding forget remove_peer
  forget-Good after k s (bounded, all) =
      let next = forget lib kp net key_json after k s in
      elim (Bool-cases s.mu_held) [
        | inl held ↦
            let same : next ≡ goes (removing after k ∷ []) s = ground arith in
            subst (Good lib kp net key_json others) (sym same) (bounded, all)
        | inr free ↦
            let t : Node lib = record s { peers = delete k s.peers } in
            let same : next ≡ goes (resume net after) t = ground arith in
            subst (Good lib kp net key_json others) (sym same) (
              resume-Good after t (
                ground (arith, length-delete k s.peers),
                AllRegistered-delete lib
                    (leaving lib kp net key_json others (removing after k ∷ []))
                    (leaving lib kp net key_json others []) s.peers s.conns k
                    (λ key ne e. ground arith) all,
              ))
      ]

  pub proceed-Good :
      (now : ℕ) (fails : Bool) (w : Work net) (s : Node lib)
      → Sound lib (leaving lib kp net key_json others (w ∷ [])) s
      → Good lib kp net key_json others (proceed lib kp net key_json now fails w s)
  unfolding proceed
  proceed-Good now fails (listening accepts) s sound =
      accept-Good lib kp net key_json others accepts s sound
  proceed-Good now fails (shaking remote_addr w) s sound =
      inbound-Good lib kp net key_json others remote_addr now w s sound
  proceed-Good now fails (dialing addr later) s sound =
      dial-Good lib kp net key_json others addr now later s sound
  proceed-Good now fails (adding after c pub_key addr) s sound =
      add-Good lib kp net key_json others after c pub_key addr s sound
  proceed-Good now fails (pumping i) s sound = write_frame-Good fails i s sound
  proceed-Good now fails (looping after i c) s sound = read_one-Good fails after i now c s sound
  proceed-Good now fails (closing after i) s sound = shut-Good after i s sound
  proceed-Good now fails (removing after key) s sound = forget-Good after key s sound
