-- ===== src/Network/Peer/Queue.antt =====
-- The queue of a peer: its bound and its order, and a close in the middle of a Send.
use cdml.Common.{
  ◌≤◌, ◌<◌, leb, Bool-cases, ◌⊎◌, inl, inr, Bytes, length, length-append, List, [], ◌∷◌, ◌++◌, ◌≡◌,
  subst, sym, arith,
}
use cdml.Core.Errors.{Error, Res, ok, err, panic, failure, Res-cases}
use cdml.Json.{Json, JsonLaws}
use cdml.Network.Framing.{Packet, encode}
use cdml.Network.Peer.{Peer, active, send_capacity, check_active, enqueue, send, pump, close}

-- what happens to a peer
pub data Action : Type 0 where
  sends : Packet → Action
  writes : Action
  closes : Action

unfoldable act : Json Packet → Action → Peer → Peer
act json (sends pkt) p = (send json pkt p).1
act json writes p = (pump p).1
act json closes p = (close p).1

unfoldable pub act_all : Json Packet → List Action → Peer → Peer
unfolding act
act_all json [] p = p
act_all json (a ∷ actions) p = act_all json actions (act json a p)

-- A Send that nothing interrupts either queues the frame behind those that wait, on an active peer
-- that has room, or reports an error and changes nothing; it does not panic.
pub send_effect :
    (json : Json Packet)
    → JsonLaws json
    → (pkt : Packet) (p : Peer)
    → ((frame : Bytes) × (encode json pkt ≡ ok frame)
        × (p.state ≡ active)
        × (length p.send_ch < send_capacity)
        × (send json pkt p ≡ (ok tt, record p { send_ch = p.send_ch ++ frame ∷ [] })))
      ⊎ ((e : Error) × (send json pkt p ≡ (err e, p)))
unfolding send enqueue check_active encode
send_effect json laws pkt p = elim (Res-cases (encode json pkt)) [
  | inl (frame, e) ↦ elim (Res-cases (check_active p)) [
    | inl (_, is_open) ↦ elim (Bool-cases (leb send_capacity (length p.send_ch))) [
      | inl full ↦ inr (failure 21, ground arith)
      | inr room ↦ inl (frame, e, ground arith, ground arith, ground arith)
    ]
    | inr (inl (x, shut)) ↦ inr (x, ground arith)
    | inr (inr shut) ↦ absurd (ground arith)
  ]
  | inr (inl (x, e)) ↦ elim (Res-cases (check_active p)) [
    | inl (_, is_open) ↦ inr (x, ground arith)
    | inr (inl (y, shut)) ↦ inr (y, ground arith)
    | inr (inr shut) ↦ absurd (ground arith)
  ]
  | inr (inr e) ↦ absurd (ground (arith, laws.marshal_calm pkt))
]

act_bounded :
    (json : Json Packet)
    → JsonLaws json
    → (a : Action) (p : Peer) → length p.send_ch ≤ send_capacity
    → length (act json a p).send_ch ≤ send_capacity
unfolding act pump close
act_bounded json laws (sends pkt) p h = elim (send_effect json laws pkt p) [
  | inl (frame, _, _, room, e) ↦
      subst (λ (r : Res (Unit {0}) × Peer). length r.1.send_ch ≤ send_capacity) (sym e)
        (omega (arith, length-append p.send_ch (frame ∷ [])))
  | inr (x, e) ↦ subst (λ (r : Res (Unit {0}) × Peer). length r.1.send_ch ≤ send_capacity) (sym e) h
]
act_bounded json laws writes p h = ground arith
act_bounded json laws closes p h = ground arith

-- Whatever is sent, written and closed, one after the other and in whatever order, never more than
-- 64 frames wait.
pub act_all_bounded :
    (json : Json Packet)
    → JsonLaws json
    → (actions : List Action) (p : Peer) → length p.send_ch ≤ send_capacity
    → length (act_all json actions p).send_ch ≤ send_capacity
unfolding act_all
act_all_bounded json laws [] p h = h
act_all_bounded json laws (a ∷ actions) p h =
    act_all_bounded json laws actions (act json a p) (act_bounded json laws a p h)

-- A Send that is interrupted by a Close after its test of the state panics.
pub enqueue-close :
    (p : Peer) (frame : Bytes)
    → check_active p ≡ ok tt
    → enqueue frame (close p).1 ≡ (panic, (close p).1)
unfolding check_active enqueue close
enqueue-close p frame h = ground arith
