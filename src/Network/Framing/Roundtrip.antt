-- ===== src/Network/Framing/Roundtrip.antt =====
-- What is encoded and sent is read back, and what announces too much is refused.
use cdml.Common.{
  ℕ, ◌+◌, ◌%◌, ◌^◌, ◌≤◌, ◌<◌, Bytes, length, ◌++◌, ◌≡◌, refl, ◌∙◌, ap, inl, inr, arith,
}
use cdml.Core.Errors.{ok, Res-cases}
use cdml.Json.{Json, JsonLaws}
use cdml.Network.Framing.{
  Packet, Connection, ConnectionLaws, put_uint32, uint32, max_packet, encode, read_packet,
}

uint32-put_uint32 : (v : ℕ) → v < 2 ^ 32 → uint32 (put_uint32 v) ≡ v
unfolding uint32 put_uint32
uint32-put_uint32 v h = ground arith

module _ (net : Connection) (laws : ConnectionLaws net) (json : Json Packet)
    (coded : JsonLaws json) where
  open net use {Conn, arriving}

  -- the bytes of a packet, taken apart
  frame_parts :
      (pkt : Packet) (bs : Bytes)
      → encode json pkt ≡ ok bs
      → (body : Bytes) × (json.marshal pkt ≡ ok body)
        × (bs ≡ put_uint32 (length body % 2 ^ 32) ++ body)
  unfolding encode
  frame_parts pkt bs h = elim (Res-cases (json.marshal pkt)) [
    | inl (body, e) ↦ (body, e, ground arith)
    | inr (inl (x, e)) ↦ absurd (ground arith)
    | inr (inr e) ↦ absurd (ground arith)
  ]

  -- A packet that Encode has encoded, in at most 10 MiB of text, and whose bytes have arrived is read
  -- back by ReadPacket; what was sent after it is left for the next one.
  pub read_packet-encode :
      (pkt : Packet) (bs rest : Bytes) (now : ℕ) (c : Conn)
      → encode json pkt ≡ ok bs
      → length bs ≤ 4 + max_packet
      → arriving c ≡ bs ++ rest
      → (c' : Conn) × (read_packet net json now c ≡ (ok pkt, c')) × (arriving c' ≡ rest)
  unfolding read_packet put_uint32
  read_packet-encode pkt bs rest now c h small there =
      let (body, e, parts) = frame_parts pkt bs h in
      let size = length body in
      let head = put_uint32 (size % 2 ^ 32) in
      let total : length bs ≡ 4 + size = omega (arith, ap (λ (x : Bytes). length x) parts) in
      let (mid, first, left) =
        laws.read_full_takes 4 now c head (body ++ rest) refl (there ∙ ap (λ x. x ++ rest) parts) in
      let (c', second, left') = laws.read_full_takes size now mid body rest refl left in
      let sized = uint32-put_uint32 (size % 2 ^ 32) (omega arith) in
      (c', ground (arith, first, second, sized, coded.unmarshal-marshal pkt body e), left')
