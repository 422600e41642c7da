-- ===== src/Tests/Packets.antt =====
-- A packet on a connection that is the list of the bytes in flight.
use cdml.Common.{
  ◌≤◌, Bytes, ℕ_discrete, length, take, drop, ltb, if◌then◌else◌, [], ◌∷◌, ◌++◌, refl, arith,
  replicate, take-append, drop-append,
}
use cdml.Core.Errors.{ok, err, failure}
use cdml.Core.Types.{ping}
use cdml.Json.{Json}
use cdml.Network.Framing.{Packet, Connection, ConnectionLaws}
use cdml.Tests.Instances.{codec}

abbrev pub in_flight : Connection
in_flight = record {
  Conn = Bytes;
  arriving = λ c. c;
  read_full =
      λ n now c. if ltb (length c) n then (err (failure 11), c) else (ok (take n c), drop n c);
}

length-append : (bs rest : Bytes) → length bs ≤ length (bs ++ rest)
length-append [] rest = omega arith
length-append (b ∷ bs) rest = omega (arith, length-append bs rest)

pub in_flight_laws : ConnectionLaws in_flight
in_flight_laws = record {
  read_full_takes = λ n now c bs rest size there.
      (rest, ground (arith, length-append bs rest, take-append bs rest, drop-append bs rest), refl);
}

unfoldable pub Packet-discrete : Discrete Packet
unfolding ℕ_discrete
Packet-discrete = hlevel ℕ_discrete

abbrev pub greeting : Packet
greeting = record { packet_type = ping; msg_id = replicate 32 0; payload = [] }

abbrev pub json : Json Packet
json = codec Packet-discrete greeting

-- the frame of the greeting, followed by the start of another
abbrev sent : Bytes
sent = 0 ∷ 0 ∷ 0 ∷ 1 ∷ 5 ∷ []
