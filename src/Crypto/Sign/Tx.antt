-- ===== src/Crypto/Sign/Tx.antt =====
-- What was signed verifies, and a verified transaction cannot be altered.
use cdml.Common.{
  Bool, true, Bytes, copy_into, copy_into_full, ◌≡◌, ◌↔◌, ◌⊎◌, inl, inr, refl, sym, ◌∙◌, arith,
}
use cdml.Core.Errors.{ok, err, tx_invalid_signature, Res-cases}
use cdml.Core.Types.{Hash32, Transaction, WitnessSignature}
use cdml.Crypto.Primitives.{Primitives, PrimitivesLaws}
use cdml.Crypto.Hash.Collision.{IsSized, SameFields, Collision, hash_tx-binding}
use cdml.Crypto.KeyPair.{KeyPair, generate, load_from_bytes, private_bytes, sign}
use cdml.Crypto.Sign.{hash_of, sign_tx, verify_tx, sign_as_witness, verify_witness_sig, witness_msg}

module _ (p : Primitives) where
  -- VerifyTx accepts exactly the transactions whose hash is that of their fields and whose signature
  -- is one of the sender over that hash; otherwise the error is ErrTxInvalidSignature.
  pub verify_tx_iff :
      (tx : Transaction)
      → ((verify_tx p tx ≡ ok tt)
          ↔ ((hash_of p tx ≡ tx.hash) × (p.ed25519_verify tx.from tx.hash tx.sender_sig ≡ true)))
        × ((verify_tx p tx ≡ ok tt) ⊎ (verify_tx p tx ≡ err tx_invalid_signature))
  unfolding verify_tx
  verify_tx_iff tx = (ground arith, ground arith)

  module _ (laws : PrimitivesLaws p) where
    -- a generated pair is the pair of Ed25519
    pub generated_pair :
        (r : Bytes) (kp : KeyPair)
        → generate p r ≡ ok kp
        → p.generate_key r ≡ ok (kp.public, kp.private)
    unfolding generate
    generated_pair r kp h = elim (Res-cases (p.generate_key r)) [
      | inl ((pk, priv), e) ↦
          let (size, _, _) = laws.length_generated r pk priv e in
          ground (arith, copy_into_full 32 pk size)
      | inr (inl (x, e)) ↦ absurd (ground arith)
      | inr (inr e) ↦ absurd (ground arith)
    ]

    -- what a generated pair signs verifies under its public key
    pub verify-sign_generated :
        (r : Bytes) (kp : KeyPair) (m : Bytes)
        → generate p r ≡ ok kp
        → p.ed25519_verify kp.public m (copy_into 64 (p.ed25519_sign kp.private m)) ≡ true
    verify-sign_generated r kp m h =
        rw (copy_into_full 64 (p.ed25519_sign kp.private m) (laws.length-ed25519_sign kp.private m))
          (laws.verify-sign r kp.public kp.private m (generated_pair r kp h))

    -- SignTx with a generated key always succeeds; it replaces the hash and the signature and leaves
    -- the other fields; and if the sender is the owner of the key, VerifyTx accepts the result.
    pub verify_tx-sign_tx :
        (r : Bytes) (kp : KeyPair) (tx : Transaction)
        → generate p r ≡ ok kp
        → tx.from ≡ kp.public
        → (signed : Transaction) × (sign_tx p kp tx ≡ ok signed)
          × (record signed { hash = tx.hash; sender_sig = tx.sender_sig } ≡ tx)
          × (verify_tx p signed ≡ ok tt)
    unfolding sign_tx verify_tx sign
    verify_tx-sign_tx r kp tx h mine =
        let hash = hash_of p tx in
        let sig = copy_into 64 (p.ed25519_sign kp.private hash) in
        (
          record tx { hash = hash; sender_sig = sig },
          refl,
          refl,
          ground (arith, verify-sign_generated r kp hash h),
        )

    -- A witness signature made with a generated key verifies for the transaction that it was made
    -- for, and carries the witness's key, the tip and the flag.
    pub verify_witness_sig-sign_as_witness :
        (r : Bytes) (kp : KeyPair) (tx_hash tip : Hash32) (seen : Bool)
        → generate p r ≡ ok kp
        → (ws : WitnessSignature) × (sign_as_witness p kp tx_hash tip seen ≡ ok ws)
          × (ws.witness_pub_key ≡ kp.public)
          × (ws.dag_tip_at_sign ≡ tip)
          × (ws.nonce_lock_seen ≡ seen)
          × (verify_witness_sig p ws tx_hash ≡ ok tt)
    unfolding sign_as_witness verify_witness_sig
    verify_witness_sig-sign_as_witness r kp tx_hash tip seen h =
        let msg = witness_msg tx_hash tip seen in
        (
          record {
            witness_pub_key = kp.public;
            dag_tip_at_sign = tip;
            nonce_lock_seen = seen;
            sig = copy_into 64 (p.ed25519_sign kp.private msg);
          },
          refl,
          refl,
          refl,
          refl,
          ground (arith, verify-sign_generated r kp msg h),
        )

    -- Storing a generated key and loading it again gives the same pair.
    pub load_from_bytes-private_bytes :
        (r : Bytes) (kp : KeyPair)
        → generate p r ≡ ok kp
        → load_from_bytes p (private_bytes p kp) ≡ ok kp
    unfolding load_from_bytes private_bytes
    load_from_bytes-private_bytes r kp h =
        let (size, priv_size, owner) =
          laws.length_generated r kp.public kp.private (generated_pair r kp h) in
        ground (arith, copy_into_full 32 kp.public size)

    -- Nobody can alter a transaction under its hash: two transactions that VerifyTx accepts and that
    -- carry the same hash agree on every hashed field, or they exhibit a collision of BLAKE2b-256.
    pub verify_tx-binding :
        (tx other : Transaction)
        → IsSized tx
        → IsSized other
        → verify_tx p tx ≡ ok tt
        → verify_tx p other ≡ ok tt
        → tx.hash ≡ other.hash
        → SameFields tx other ⊎ Collision p
    verify_tx-binding tx other h k a b same =
        hash_tx-binding p laws tx other h k
          (((verify_tx_iff tx).0.0 a).0 ∙ same ∙ sym ((verify_tx_iff other).0.0 b).0)
