-- ===== src/Tests/Conflicts.antt =====
-- Three witnesses that sign a payment of alice's to bob, and then one to carol with the same nonce.
use cdml.Common.{
  ℕ, true, Bytes, Bytes-discrete, ite, replicate, copy_into, put_uint64, uint64, List, [], ◌∷◌,
  some, ◌≡◌, refl, arith,
}
use cdml.Core.Errors.{ok}
use cdml.Core.Types.{Transaction, WitnessSignature}
use cdml.Core.Amount.{safe_add, bond_amount, validate_amount}
use cdml.Crypto.Hash.{hash_tx}
use cdml.Crypto.KeyPair.{KeyPair, generate, sign, verify}
use cdml.Crypto.Primitives.{Primitives, PrimitivesLaws}
use cdml.Crypto.Sign.{verify_tx, verify_quorum, sign_as_witness}
use cdml.Protocol.Dag.{current_tips}
use cdml.Protocol.Processor.Verify.{verify_packet, effective_balance}
use cdml.Protocol.Processor.World.{LibraryLaws}
use cdml.Storage.Db
use cdml.Storage.Chain
use cdml.Storage.Keys.{bal_key, seq_key, active_witnesses_key, nonce_lock_key}
use cdml.Storage.NonceLock
use cdml.Node.State.{Node, NodeLibraries, new, quorum_k}
use cdml.Node.Handlers.{judge}
use cdml.Node.Conflict.Spent.{AllSigned, BothSigned, quorum_signs_conflicting}
use cdml.Tests.Instances.{Memory}
use cdml.Tests.Cluster.{
  carol, dave, erin, signed_by, three_sigs, plain, pkt, verify_msg, lib, laws, registered_disk,
}

abbrev first_byte : Bytes → ℕ
first_byte [] = 0
first_byte (b ∷ _) = b

-- keys that repeat one byte
abbrev repeating : Primitives
repeating = record {
  blake2b_256 = λ bs. replicate 32 7;
  generate_key = λ r. ok (replicate 32 (first_byte r), replicate 64 (first_byte r));
  public_of = λ k. replicate 32 (first_byte k);
  ed25519_sign = λ k m. replicate 64 3;
  ed25519_verify = λ k m s. true;
}

repeating_laws : PrimitivesLaws repeating
repeating_laws = record {
  length-blake2b_256 = λ bs. refl;
  length-ed25519_sign = λ k m. refl;
  length_generated = λ r k priv h. ground arith;
  verify-sign = λ r k priv m h. refl;
}

abbrev many_keys : NodeLibraries
many_keys = record lib { libs = record lib.libs { primitives = repeating } }

many_keys_laws : LibraryLaws many_keys.libs
many_keys_laws = record {
  badger_laws = laws.badger_laws;
  primitives_laws = repeating_laws;
  tx_json_laws = laws.tx_json_laws;
  snapshot_json_laws = laws.snapshot_json_laws;
  witness_json_laws = laws.witness_json_laws;
}

-- the nonce is locked
abbrev locked_disk : Memory
locked_disk k τ =
    ite (Bytes-discrete k (nonce_lock_key plain.from plain.nonce)) (some (1 ∷ []))
      (registered_disk k τ)

abbrev node : Node many_keys
node = new many_keys locked_disk

abbrev pair_of : ℕ → KeyPair
pair_of b = record { public = replicate 32 b; private = replicate 64 b }

pair_of-generated : (b : ℕ) → generate repeating (b ∷ []) ≡ ok (pair_of b)
unfolding generate copy_into
pair_of-generated b = refl

pair_of-judge :
    (b : ℕ)
    → (judge many_keys (pair_of b) verify_msg 5 node).0 ≡ ok (plain, signed_by (replicate 32 b))
unfolding judge verify_packet effective_balance Chain.get_balance Chain.get_latest_seq
    Chain.has_balance Db.get Db.read safe_add bond_amount validate_amount hash_tx sign verify_tx
    verify copy_into bal_key seq_key put_uint64 uint64 Bytes-discrete current_tips sign_as_witness
    NonceLock.is_locked active_witnesses_key nonce_lock_key
pair_of-judge b = refl

three-AllSigned : AllSigned many_keys plain three_sigs
three-AllSigned =
    AllSigned.signed (pair_of 11) (11 ∷ []) verify_msg 5 node (pair_of-generated 11)
      (pair_of-judge 11)
      (AllSigned.signed (pair_of 12) (12 ∷ []) verify_msg 5 node (pair_of-generated 12)
        (pair_of-judge 12)
        (AllSigned.signed (pair_of 13) (13 ∷ []) verify_msg 5 node (pair_of-generated 13)
          (pair_of-judge 13) AllSigned.none_signed))

abbrev to_carol : Transaction
to_carol = record plain { to = carol }

to_carol_signed : verify_tx repeating to_carol ≡ ok tt
unfolding verify_tx hash_tx verify copy_into put_uint64
to_carol_signed = refl

three_quorum :
    verify_quorum repeating three_sigs plain.hash (carol ∷ dave ∷ erin ∷ []) quorum_k ≡ ok tt
unfolding verify_quorum
three_quorum = refl

quorum_signs_conflicting_example :
    (others : List WitnessSignature) × BothSigned many_keys pkt 5 plain to_carol three_sigs others
    × (verify_quorum repeating others to_carol.hash (carol ∷ dave ∷ erin ∷ []) quorum_k ≡ ok tt)
quorum_signs_conflicting_example =
    quorum_signs_conflicting many_keys many_keys_laws pkt 5 plain to_carol refl refl refl refl
      to_carol_signed three_sigs (carol ∷ dave ∷ erin ∷ []) three-AllSigned three_quorum
