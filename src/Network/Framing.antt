-- ===== src/Network/Framing.antt =====
-- internal/network/packet.go: Packet, Encode and ReadPacket. The connection and io.ReadFull are a
-- parameter, with the documented behaviour of ReadFull as a record of laws.
pub mod Roundtrip
use cdml.Common.{ℕ, ◌+◌, ◌*◌, ◌/◌, ◌%◌, ◌^◌, Bytes, length, ltb, List, [], ◌∷◌, ◌++◌, ◌≡◌}
use cdml.Core.Errors.{Res, ok, err, panic, fail_if, failure}
use cdml.Core.Types.{PacketType, Hash32}
use cdml.Exec.{Exec, lift, ◌>>=◌, ◌>>◌}
use cdml.Json.{Json}

pub record Packet : Type 0 where
  pub packet_type : PacketType
  pub msg_id : Hash32
  pub payload : Bytes

-- binary.BigEndian.PutUint32 of a number below 2 ^ 32
unfoldable pub put_uint32 : ℕ → Bytes
put_uint32 v = (v / 2 ^ 24 % 256) ∷ (v / 2 ^ 16 % 256) ∷ (v / 2 ^ 8 % 256) ∷ (v % 256) ∷ []

-- binary.BigEndian.Uint32 of a [4]byte
unfoldable pub uint32 : Bytes → ℕ
uint32 (a ∷ b ∷ c ∷ d ∷ _) = a * 2 ^ 24 + b * 2 ^ 16 + c * 2 ^ 8 + d
uint32 _ = 0

-- the largest payload that ReadPacket takes
abbrev pub max_packet : ℕ
max_packet = 10 * 1024 * 1024

-- Packet.Encode: the length, as a uint32, and the JSON text
unfoldable pub encode : Json Packet → Packet → Res Bytes
unfolding put_uint32
encode json pkt = elim (json.marshal pkt) [
  | ok body ↦ ok (put_uint32 (length body % 2 ^ 32) ++ body)
  | err e ↦ err e
  | panic ↦ panic
]

pub record Connection : Type 1 where
  pub Conn : Type 0
  -- the bytes that have been sent to this side and not been read
  pub arriving : Conn → Bytes
  -- io.ReadFull(conn, buf) into a buffer of n bytes
  pub read_full : ℕ → Exec Conn Bytes

module _ (net : Connection) where
  open net use {Conn, arriving, read_full}

  -- ReadFull returns the next n bytes where they have arrived.
  pub record ConnectionLaws : Type 0 where
    pub read_full_takes :
        (n now : ℕ) (c : Conn) (bs rest : Bytes)
        → length bs ≡ n
        → arriving c ≡ bs ++ rest
        → (c' : Conn) × (read_full n now c ≡ (ok bs, c')) × (arriving c' ≡ rest)

  -- A size beyond the limit is an error, before anything else is read.
  unfoldable pub read_packet : Json Packet → Exec Conn Packet
  unfolding uint32
  read_packet json = do
    len_buf ← read_full 4
    lift (fail_if (ltb max_packet (uint32 len_buf)) (failure 10))
    body ← read_full (uint32 len_buf)
    lift (json.unmarshal body)
