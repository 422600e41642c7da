-- ===== src/Crypto/Sign.antt =====
-- internal/crypto/sign.go
pub mod Tx
pub mod Quorum
use cdml.Common.{
  ℕ, zero, suc, ◌+◌, Bool, true, false, not, Bytes, Bytes-discrete, copy_into, contains, ltb,
  if◌then◌else◌, ite, List, [], ◌∷◌, ◌++◌,
}
use cdml.Core.Errors.{
  Res, ok, err, failure, wrap, fail_if, wrapped, tx_invalid_signature, quorum_not_met, ◌>>=◌, ◌>>◌,
}
use cdml.Core.Types.{PubKey, Hash32, Transaction, WitnessSignature}
use cdml.Crypto.Primitives.{Primitives}
use cdml.Crypto.Hash.{hash_tx}
use cdml.Crypto.KeyPair.{KeyPair, sign, verify}

-- HashTx of the fields of a transaction
abbrev pub hash_of : Primitives → Transaction → Hash32
hash_of p tx = hash_tx p tx.sequence tx.nonce tx.from tx.to tx.amount tx.parent_hashes

unfoldable pub witness_msg : Hash32 → Hash32 → Bool → Bytes
witness_msg tx_hash dag_tip nonce_lock_seen =
    copy_into 32 tx_hash ++ (copy_into 32 dag_tip ++ (if nonce_lock_seen then 1 else 0) ∷ [])

module _ (p : Primitives) where
  -- The transaction that SignTx leaves behind its pointer.
  unfoldable pub sign_tx : KeyPair → Transaction → Res Transaction
  sign_tx kp tx = do
    let hashed = record tx { hash = hash_of p tx }
    sig ← wrapped (sign p kp hashed.hash)
    ok (record hashed { sender_sig = sig })

  unfoldable pub verify_tx : Transaction → Res (Unit {0})
  unfolding Bytes-discrete verify
  verify_tx tx = do
    fail_if (ite (Bytes-discrete (hash_of p tx) tx.hash) false true) tx_invalid_signature
    fail_if (not (verify p tx.from tx.hash tx.sender_sig)) tx_invalid_signature

  unfoldable pub sign_as_witness : KeyPair → Hash32 → Hash32 → Bool → Res WitnessSignature
  unfolding sign
  sign_as_witness kp tx_hash dag_tip nonce_lock_seen = do
    sig ← wrapped (sign p kp (witness_msg tx_hash dag_tip nonce_lock_seen))
    ok (record {
      witness_pub_key = kp.public;
      dag_tip_at_sign = dag_tip;
      nonce_lock_seen = nonce_lock_seen;
      sig = sig;
    })

  unfoldable pub verify_witness_sig : WitnessSignature → Hash32 → Res (Unit {0})
  unfolding verify witness_msg
  verify_witness_sig ws tx_hash =
      fail_if
        (not (
          verify p ws.witness_pub_key (witness_msg tx_hash ws.dag_tip_at_sign ws.nonce_lock_seen)
            ws.sig))
        (failure 3)

  -- the four tests of the loop in countValidSigs, the negations of its `continue`s
  abbrev pub counts : WitnessSignature → Hash32 → List PubKey → List PubKey → Bool
  counts ws tx_hash valid_set counted =
      if contains Bytes-discrete ws.witness_pub_key counted
      then false
      else if not (contains Bytes-discrete ws.witness_pub_key valid_set)
      then false
      else if not ws.nonce_lock_seen
      then false
      else elim (verify_witness_sig ws tx_hash) [ ok _ ↦ true | _ ↦ false ]

  -- the loop, with the keys counted so far and their number
  unfoldable pub count_loop : List WitnessSignature → Hash32 → List PubKey → List PubKey → ℕ → ℕ
  unfolding Bytes-discrete verify_witness_sig
  count_loop [] tx_hash valid_set counted valid = valid
  count_loop (ws ∷ sigs) tx_hash valid_set counted valid =
      elim (counts ws tx_hash valid_set counted) [
        | true ↦ count_loop sigs tx_hash valid_set (ws.witness_pub_key ∷ counted) (valid + 1)
        | false ↦ count_loop sigs tx_hash valid_set counted valid
      ]

  unfoldable pub count_valid_sigs : List WitnessSignature → Hash32 → List PubKey → ℕ
  unfolding count_loop
  count_valid_sigs sigs tx_hash valid_set = count_loop sigs tx_hash valid_set [] 0

  unfoldable pub verify_quorum : List WitnessSignature → Hash32 → List PubKey → ℕ → Res (Unit {0})
  unfolding count_valid_sigs
  verify_quorum sigs tx_hash valid_set k =
      fail_if (ltb (count_valid_sigs sigs tx_hash valid_set) k) (wrap quorum_not_met)
