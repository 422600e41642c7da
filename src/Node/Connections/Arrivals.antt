-- ===== src/Node/Connections/Arrivals.antt =====
-- Every step of a goroutine up to the new peer keeps the table of the peers sound.
use cdml.Common.{
  ℕ, Bool, Bool-cases, true, ◌||◌, Bytes, length, ltb, List, [], ◌∷◌, ◌++◌, ◌≡◌, inl, inr, sym,
  subst, arith,
}
use cdml.Common.Maps.{insert}
use cdml.Core.Errors.{Res, ok, err, panic, Res-cases}
use cdml.Core.Types.{PubKey, max_peers}
use cdml.Json.{Json}
use cdml.Crypto.KeyPair.{KeyPair}
use cdml.Network.Framing.{Connection}
use cdml.Network.Peer.{Peer, closed, new_peer, close}
use cdml.Network.Handshake.{Wire, handle_inbound, connect_to_seed}
use cdml.Node.State.{Node, NodeLibraries}
use cdml.Node.Mutex.{stuck, add_peer}
use cdml.Node.Mutex.Deadlock.{add_peer_outcome}
use cdml.Node.Connections.{
  Work, dialing, adding, pumping, looping, removing, After, ends, dials, goes, crashed, Next,
  accept, inbound, dial, add,
}
use cdml.Node.Connections.Linked.{
  removes, Sound, length-insert, AllRegistered-weaken, AllRegistered-append, AllRegistered-insert,
}

module _ (lib : NodeLibraries) (kp : KeyPair) (net : Connection) (key_json : Json PubKey)
    (others : PubKey → Bool) where
  open lib use {packet_json}

  -- what the goroutine and the others are about to remove
  abbrev pub leaving : List (Work net) → PubKey → Bool
  leaving ws key = others key || removes net key ws

  -- the table is sound after a step that does not end the program
  abbrev pub Good : Next lib kp net key_json → Type 0
  Good crashed = Unit {0}
  Good (goes ws s) = Sound lib (leaving ws) s

  pub accept-Good :
      (accepts : List (Res (Bytes × Wire net))) (s : Node lib)
      → Sound lib (leaving []) s
      → Good (accept lib kp net key_json accepts s)
  unfolding accept
  accept-Good [] s sound = sound
  accept-Good (ok (remote_addr, w) ∷ more) s sound = sound
  accept-Good (err e ∷ more) s sound = sound
  accept-Good (panic ∷ more) s sound = sound

  pub inbound-Good :
      (remote_addr : Bytes) (now : ℕ) (w : Wire net) (s : Node lib)
      → Sound lib (leaving []) s
      → Good (inbound lib kp net key_json remote_addr now w s)
  unfolding inbound
  inbound-Good remote_addr now w s sound =
      let (r, w') = handle_inbound net packet_json key_json kp.public remote_addr now w in
      let next = inbound lib kp net key_json remote_addr now w s in
      elim (Res-cases r) [
        | inl (p, e) ↦
            let same : next ≡ goes (adding ends w'.conn p.pub_key p.addr ∷ []) s = ground arith in
            subst Good (sym same) sound
        | inr (inl (x, e)) ↦
            let same : next ≡ goes [] s = ground arith in subst Good (sym same) sound
        | inr (inr e) ↦ let same : next ≡ crashed = ground arith in subst Good (sym same) tt
      ]

  pub dial-Good :
      (addr : Bytes) (now : ℕ) (later : List (Res (Wire net))) (s : Node lib)
      → Sound lib (leaving []) s
      → Good (dial lib kp net key_json addr now later s)
  unfolding dial
  dial-Good addr now [] s sound = sound
  dial-Good addr now (err e ∷ more) s sound = sound
  dial-Good addr now (panic ∷ more) s sound = tt
  dial-Good addr now (ok w ∷ more) s sound =
      let (r, w') = connect_to_seed net packet_json key_json kp.public addr now w in
      let next = dial lib kp net key_json addr now (ok w ∷ more) s in
      elim (Res-cases r) [
        | inl (p, e) ↦
            let same : next ≡ goes (adding (dials addr more) w'.conn p.pub_key p.addr ∷ []) s =
              ground arith in
            subst Good (sym same) sound
        | inr (inl (x, e)) ↦
            let same : next ≡ goes (dialing addr more ∷ []) s = ground arith in
            subst Good (sym same) sound
        | inr (inr e) ↦ let same : next ≡ crashed = ground arith in subst Good (sym same) tt
      ]

  add_peer-waits : (p : Peer) (s : Node lib) → s.mu_held ≡ true → add_peer lib p s ≡ stuck
  unfolding add_peer
  add_peer-waits p s held = ground arith

  pub add-Good :
      (after : After net) (c : net.Conn) (pub_key : PubKey) (addr : Bytes) (s : Node lib)
      → Sound lib (leaving []) s
      → Good (add lib kp net key_json after c pub_key addr s)
  unfolding add close
  add-Good after c pub_key addr s (bounded, all) =
      let p = new_peer pub_key addr in
      let next = add lib kp net key_json after c pub_key addr s in
      let n = length s.conns in
      elim (Bool-cases s.mu_held) [
        | inl held ↦
            let same : next ≡ goes (adding after c pub_key addr ∷ []) s =
              ground (arith, add_peer-waits p s held) in
            subst Good (sym same) (bounded, all)
        | inr free ↦
            let outcome = add_peer_outcome lib p s free (λ e. cc) in
            elim (Bool-cases (ltb (length s.peers) max_peers)) [
              | inl room ↦
                  let t : Node lib = record s {
                    conns = s.conns ++ p ∷ [];
                    peers = insert pub_key n s.peers;
                  } in
                  let same : next ≡ goes (pumping n ∷ looping after n c ∷ []) t =
                    ground (arith, outcome) in
                  subst Good (sym same) (
                    ground (arith, length-insert pub_key n s.peers),
                    AllRegistered-insert lib (leaving []) s.peers s.conns p (λ e. cc) all,
                  )
              | inr full ↦
                  let q : Peer = record p { state = closed } in
                  let t : Node lib = record s { conns = s.conns ++ q ∷ []; mu_held = true } in
                  let same : next ≡ goes (removing after pub_key ∷ []) t =
                    ground (arith, outcome) in
                  subst Good (sym same) (
                    ground arith,
                    AllRegistered-weaken lib (leaving []) (leaving (removing after pub_key ∷ []))
                        s.peers t.conns (λ key e. ground arith)
                        (AllRegistered-append lib (leaving []) s.peers s.conns q all),
                  )
            ]
      ]
