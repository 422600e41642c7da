-- ===== src/Network/Peer.antt =====
-- internal/network/packet.go: Peer, its state and its queue of frames. A method that changes a peer
-- returns it; where the code gives up the mutex in between, the parts are functions of their own.
pub mod Queue
use cdml.Common.{ℕ, Bool, true, false, Bytes, length, leb, if◌then◌else◌, List, [], ◌∷◌, ◌++◌}
use cdml.Core.Errors.{Res, ok, err, panic, failure}
use cdml.Core.Types.{PubKey}
use cdml.Json.{Json}
use cdml.Network.Framing.{Packet, encode}

pub data PeerState : Type 0 where
  connecting active closed : PeerState

pub record Peer : Type 0 where
  pub pub_key : PubKey
  pub addr : Bytes
  pub state : PeerState
  pub send_ch : List Bytes

-- the capacity of sendCh
abbrev pub send_capacity : ℕ
send_capacity = 64

abbrev pub new_peer : PubKey → Bytes → Peer
new_peer pub_key addr = record { pub_key = pub_key; addr = addr; state = active; send_ch = [] }

-- the test of Send under the mutex
unfoldable pub check_active : Peer → Res (Unit {0})
check_active p = elim p.state [ active ↦ ok tt | _ ↦ err (failure 20) ]

-- the select of Send, on the channel as it is by then: a send on a closed channel panics
unfoldable pub enqueue : Bytes → Peer → Res (Unit {0}) × Peer
enqueue frame p = elim p.state [
  | closed ↦ (panic, p)
  | _ ↦
      if leb send_capacity (length p.send_ch)
      then (err (failure 21), p)
      else (ok tt, record p { send_ch = p.send_ch ++ frame ∷ [] })
]

-- Peer.Send, with nothing in between
unfoldable pub send : Json Packet → Packet → Peer → Res (Unit {0}) × Peer
unfolding check_active enqueue encode
send json pkt p = elim (check_active p) [
  | err e ↦ (err e, p)
  | panic ↦ (panic, p)
  | ok _ ↦ elim (encode json pkt) [
    | err e ↦ (err e, p)
    | panic ↦ (panic, p)
    | ok frame ↦ enqueue frame p
  ]
]

-- one round of StartWritePump: the frame that is written, if there is one
unfoldable pub pump : Peer → List Bytes × Peer
pump p = elim p.send_ch [ [] ↦ ([], p) | frame ∷ rest ↦ (frame ∷ [], record p { send_ch = rest }) ]

-- Peer.Close up to the call of onClose, and whether that is made
unfoldable pub close : Peer → Bool × Peer
close p = elim p.state [ closed ↦ (false, p) | _ ↦ (true, record p { state = closed }) ]
