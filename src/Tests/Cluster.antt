-- ===== src/Tests/Cluster.antt =====
-- A node of alice's with three registered witnesses, and the messages that it can decode.
use cdml.Common.{Bytes-discrete, ite, List, [], ◌∷◌, replicate, none, some, true}
use cdml.Core.Errors.{ok, err, failure}
use cdml.Core.Types.{PubKey, Transaction, Witness, WitnessSignature, zero_hash, tx_confirmed}
use cdml.Json.{Json}
use cdml.Crypto.KeyPair.{KeyPair}
use cdml.Network.Framing.{Packet}
use cdml.Protocol.Processor.World.{LibraryLaws}
use cdml.Protocol.Processor.Confirm.{as_confirmed}
use cdml.Storage.Keys.{active_witnesses_key}
use cdml.Node.State.{Node, NodeLibraries, WitSigMsg, TxVerifyMsg, new}
use cdml.Node.Handlers.{with_sigs}
use cdml.Tests.Instances.{Memory, libraries, libraries_laws}
use cdml.Tests.Accounts.{alice, bob, payment, snapshot, funded}

abbrev pub keys : KeyPair
keys = record { public = alice; private = replicate 64 2 }

abbrev pub carol : PubKey
carol = replicate 32 11

abbrev pub dave : PubKey
dave = replicate 32 12

abbrev pub erin : PubKey
erin = replicate 32 13

abbrev pub signed_by : PubKey → WitnessSignature
signed_by q = record {
  witness_pub_key = q;
  dag_tip_at_sign = zero_hash;
  nonce_lock_seen = true;
  sig = replicate 64 3;
}

abbrev pub three_sigs : List WitnessSignature
three_sigs = signed_by carol ∷ signed_by dave ∷ signed_by erin ∷ []

abbrev witness : PubKey → Witness
witness q = record { pub_key = q; addr = []; added_at = 0 }

abbrev pub three : List Witness
three = witness carol ∷ witness dave ∷ witness erin ∷ []

abbrev pub plain : Transaction
plain = record (payment bob) { parent_hashes = [] }

-- a codec that decodes everything to one value, and encodes nothing
abbrev pub always : {A : Type 0} → A → Json A
always sample = record { marshal = λ _. err (failure 9); unmarshal = λ _. ok sample }

abbrev pub pkt : Packet
pkt = record { packet_type = tx_confirmed; msg_id = replicate 32 7; payload = [] }

abbrev pub verify_msg : TxVerifyMsg
verify_msg = record { tx = some plain; snapshot = none }

abbrev pub forged : WitSigMsg
forged = record { tx_hash = replicate 32 7; sig = signed_by bob }

abbrev pub lib : NodeLibraries
lib = record {
  libs = libraries (as_confirmed (with_sigs plain three_sigs)) snapshot three;
  nonce_lock_json = always (record { from = alice; nonce = 9 });
  tx_verify_json = always verify_msg;
  wit_sig_json = always forged;
  confirmed_json = always (record { tx = none });
  packet_json = always pkt;
  shuffle = λ ids. ids;
}

pub laws : LibraryLaws lib.libs
laws = libraries_laws (as_confirmed (with_sigs plain three_sigs)) snapshot three

-- the accounts, and the three witnesses registered
abbrev pub registered_disk : Memory
registered_disk k τ = ite (Bytes-discrete k active_witnesses_key) (some (5 ∷ [])) (funded k τ)

abbrev pub node : Node lib
node = new lib registered_disk
