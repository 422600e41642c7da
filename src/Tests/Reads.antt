-- ===== src/Tests/Reads.antt =====
-- Two greetings in flight to a node, and a network's keys.
use cdml.Common.{
  length, List, [], ◌∷◌, ◌++◌, Bytes, Bytes-discrete, ℕ_discrete, drop, replicate, ite, if_pos,
  Option, none, some, ◌≡◌, refl, sym, ap, ◌∙◌, arith,
}
use cdml.Core.Errors.{ok, err, failure}
use cdml.Crypto.Primitives.{Primitives, PrimitivesLaws}
use cdml.Api.{hex_encode}
use cdml.Scripts.Localnet.Setup.{
  Files, FilesLaws, Paths, Encoders, create, setup_key, write_json, setup_node, setup_nodes, setup,
}
use cdml.Scripts.Localnet.KeyFiles.{AreDistinct}
use cdml.Scripts.Localnet.Started.{AllStart, Names, setup_starts}
use cdml.Scripts.Localnet.{Genesis, genesis_of, genesis_from, local_address}
use cdml.Network.Framing.{Packet, encode, put_uint32}
use cdml.Node.State.{NodeLibraries, new}
use cdml.Node.Reading.{Stands, Frames, handle_all, read_loop, read_loop-Frames}
use cdml.Tests.Instances.{codec, codec_laws, primitives}
use cdml.Tests.Accounts.{funded}
use cdml.Tests.Cluster.{keys, lib}
use cdml.Tests.Packets.{in_flight, in_flight_laws, Packet-discrete, greeting, json}

abbrev greeted : NodeLibraries
greeted = record lib { packet_json = json }

abbrev two : List Packet
two = greeting ∷ greeting ∷ []

abbrev frame : Bytes
frame = 0 ∷ 0 ∷ 0 ∷ 1 ∷ 5 ∷ []

read_loop-Frames_example :
    Stands greeted keys in_flight
      (7 ∷ [])
      (handle_all greeted keys in_flight 3 0 two (new greeted funded))
      (read_loop greeted keys in_flight 2 3 0 (frame ++ frame ++ 7 ∷ []) (new greeted funded))
unfolding encode put_uint32 Packet-discrete
read_loop-Frames_example =
    read_loop-Frames greeted keys in_flight in_flight_laws (codec_laws Packet-discrete greeting) two
      (frame ++ (frame ++ [])) (7 ∷ []) 3 0 (frame ++ frame ++ 7 ∷ []) (new greeted funded)
      (Frames.sent refl (omega arith) (Frames.sent refl (omega arith) Frames.none_sent)) refl

-- files that are empty at first
abbrev files : Files
files = record {
  Fs = Bytes → Option Bytes;
  read_file = λ path s. elim (s path) [ some bs ↦ ok bs | none ↦ err (failure 4) ];
  write_file = λ path bs s. (ok tt, λ q. ite (Bytes-discrete q path) (some bs) (s q));
}

files_laws : FilesLaws files
unfolding Bytes-discrete
files_laws = record {
  read-write = λ path bs s s' h.
      sym (ap (λ r. files.read_file path r.1) h)
      ∙ ap (λ o. elim o [ some bs ↦ ok bs | none ↦ err (failure 4) ])
          (if_pos (Bytes-discrete path path) refl (some bs) (s path));
  read-write_other = λ path other bs s ne. ground arith;
}

abbrev paths : Paths
paths = record {
  key_path = λ i. 1 ∷ i ∷ [];
  db_path = λ i. 4 ∷ i ∷ [];
  config_path = λ i. 2 ∷ i ∷ [];
  genesis_path = 3 ∷ [];
}

paths_AreDistinct : AreDistinct paths
paths_AreDistinct = record {
  keys_apart = λ i j ne e. ground arith;
  key_config = λ i j e. ground arith;
  key_genesis = λ i e. ground arith;
}

abbrev five : List Bytes
five = replicate 5 (hex_encode (replicate 32 1))

unfoldable Genesis-discrete : Discrete Genesis
unfolding ℕ_discrete
Genesis-discrete = hlevel ℕ_discrete

abbrev encoders : Encoders
encoders = record {
  config_json = record { marshal = λ _. err (failure 9); unmarshal = λ _. err (failure 9) };
  genesis_json = codec Genesis-discrete (genesis_of five);
}

-- a private key that ends with its public key
abbrev suffixed : Primitives
suffixed = record primitives {
  generate_key = λ r. ok (replicate 32 1, replicate 64 1);
  public_of = λ k. drop 32 k;
}

suffixed_laws : PrimitivesLaws suffixed
suffixed_laws = record {
  length-blake2b_256 = λ bs. refl;
  length-ed25519_sign = λ k m. refl;
  length_generated = λ r k priv h. ground arith;
  verify-sign = λ r k priv m h. refl;
}

abbrev empty : Bytes → Option Bytes
empty path = none

abbrev ready : Bytes → Option Bytes
ready = (setup suffixed files paths encoders (λ i. []) empty).1

setup_starts_example :
    (length five ≡ 5)
    × AllStart suffixed suffixed_laws files files_laws paths paths_AreDistinct encoders
        (λ path bs s. refl)
        (λ priv size. refl)
        1
        five
        ready
    × (files.read_file (3 ∷ []) ready ≡ ok (5 ∷ []))
    × (g : Genesis) × (encoders.genesis_json.unmarshal (5 ∷ []) ≡ ok g)
    × Names suffixed suffixed_laws files files_laws paths paths_AreDistinct encoders
        (λ path bs s. refl)
        (λ priv size. refl)
        five
        g
unfolding setup setup_nodes setup_node setup_key create write_json hex_encode Bytes-discrete
    Genesis-discrete genesis_of genesis_from local_address
setup_starts_example =
    setup_starts suffixed suffixed_laws files files_laws paths paths_AreDistinct encoders
      (λ path bs s. refl) (λ priv size. refl) (codec_laws Genesis-discrete (genesis_of five))
      (λ i. []) five (5 ∷ []) empty ready refl refl
