-- ===== src/Node/Reading.antt =====
-- node/node.go: readLoop, from the bytes of a connection to the handlers. Every packet is handled as one
-- step, and a panic of a handler ends the program.
use mathlib.Core.List.{append_assoc}
use cdml.Common.{
  ℕ, zero, suc, ◌+◌, ◌≤◌, Bytes, length, List, [], ◌∷◌, ◌++◌, ◌≡◌, ◌≢◌, ◌∙◌, arith, inl, inr,
}
use cdml.Core.Errors.{Res, ok, err, panic, Res-cases}
use cdml.Json.{JsonLaws}
use cdml.Crypto.KeyPair.{KeyPair}
use cdml.Network.Framing.{Packet, Connection, ConnectionLaws, max_packet, encode, read_packet}
use cdml.Network.Framing.Roundtrip.{read_packet-encode}
use cdml.Node.State.{Node, NodeLibraries}
use cdml.Node.Handlers.{handle_packet}

module _ (lib : NodeLibraries) (kp : KeyPair) (net : Connection) where
  open lib use {packet_json}
  open net use {Conn, arriving}

  -- what has come of the loop: it goes on, the connection was closed after an error, or the program
  -- has ended by a panic
  pub data Loop : Type 0 where
    reading : Conn → Node lib → Loop
    closed : Node lib → Loop
    crashed : Node lib → Loop

  -- at most `rounds` rounds of the loop, for the peer at a position
  unfoldable pub read_loop : ℕ → ℕ → ℕ → Conn → Node lib → Loop
  read_loop zero now peer c s = reading c s
  read_loop (suc rounds) now peer c s =
      let (r, c') = read_packet net packet_json now c in
      elim r [
        | err _ ↦ closed s
        | panic ↦ crashed s
        | ok pkt ↦
            let (h, s') = handle_packet lib kp peer pkt now s in
            elim h [
              | panic ↦ crashed s'
              | ok _ ↦ read_loop rounds now peer c' s'
              | err _ ↦ read_loop rounds now peer c' s'
            ]
      ]

  -- one packet after another, up to the first panic
  unfoldable pub handle_all : ℕ → ℕ → List Packet → Node lib → Res (Unit {0}) × Node lib
  handle_all now peer [] s = (ok tt, s)
  handle_all now peer (pkt ∷ pkts) s =
      let (h, s') = handle_packet lib kp peer pkt now s in
      let rest = handle_all now peer pkts s' in
      elim h [ ok _ ↦ rest | err _ ↦ rest | panic ↦ (panic, s') ]

  -- the bytes of the packets, one after another
  pub data Frames : List Packet → Bytes → Type 0 where
    none_sent : Frames [] []
    sent :
        {pkt : Packet} {pkts : List Packet} {bs rest : Bytes}
        → encode packet_json pkt ≡ ok bs
        → length bs ≤ 4 + max_packet
        → Frames pkts rest
        → Frames (pkt ∷ pkts) (bs ++ rest)

  -- where the loop stands after the packets, with what has not been read
  pub data Stands (rest : Bytes) : Res (Unit {0}) × Node lib → Loop → Type 0 where
    on : {s : Node lib} (c : Conn) → arriving c ≡ rest → Stands rest (ok tt, s) (reading c s)
    down : {s : Node lib} → Stands rest (panic, s) (crashed s)

  -- a round whose packet is handled, and one whose handler panics
  module _ (pkt : Packet) (pkts : List Packet) (rounds now peer : ℕ) (c c' : Conn) (s : Node lib)
      (read : read_packet net packet_json now c ≡ (ok pkt, c')) where
    handled : Res (Unit {0}) × Node lib
    handled = handle_packet lib kp peer pkt now s

    goes_on :
        handled.0 ≢ panic
        → (read_loop (suc rounds) now peer c s ≡ read_loop rounds now peer c' handled.1)
          × (handle_all now peer (pkt ∷ pkts) s ≡ handle_all now peer pkts handled.1)
    unfolding read_loop handle_all handled
    goes_on calm = ground arith

    goes_down :
        handled.0 ≡ panic
        → (read_loop (suc rounds) now peer c s ≡ crashed handled.1)
          × (handle_all now peer (pkt ∷ pkts) s ≡ (panic, handled.1))
    unfolding read_loop handle_all handled
    goes_down e = ground arith

  -- Packets that a peer has encoded, each in at most 10 MiB of text, and sent over the connection are
  -- handled by the read loop one after another, each once and in the order in which they were sent, and
  -- nothing that was sent after them is lost; unless a handler panics, which ends the program at
  -- that packet.
  pub read_loop-Frames :
      (laws : ConnectionLaws net) (coded : JsonLaws packet_json) (pkts : List Packet)
      (bs rest : Bytes) (now peer : ℕ) (c : Conn) (s : Node lib)
      → Frames pkts bs
      → arriving c ≡ bs ++ rest
      → Stands rest (handle_all now peer pkts s) (read_loop (length pkts) now peer c s)
  read_loop-Frames laws coded [] _ rest now peer c s none_sent there =
      unfold handle_all in unfold read_loop in on c there
  read_loop-Frames laws coded (pkt ∷ pkts) _ rest now peer c s
        (sent {bs = bs} {rest = more} e small frames) there =
      let (c', read, left) =
        read_packet-encode net laws packet_json coded pkt bs (more ++ rest) now c e small
          (there ∙ append_assoc bs more rest) in
      let s' = (handled pkt pkts (length pkts) now peer c c' s read).1 in
      let later = read_loop-Frames laws coded pkts more rest now peer c' s' frames left in
      elim (Res-cases (handled pkt pkts (length pkts) now peer c c' s read).0) [
        | inl (_, f) ↦
            let (loop, all) = goes_on pkt pkts (length pkts) now peer c c' s read (λ p. cc) in
            rw (loop, all) later
        | inr (inl (x, f)) ↦
            let (loop, all) = goes_on pkt pkts (length pkts) now peer c c' s read (λ p. cc) in
            rw (loop, all) later
        | inr (inr f) ↦
            let (loop, all) = goes_down pkt pkts (length pkts) now peer c c' s read f in
            rw (loop, all) down
      ]
