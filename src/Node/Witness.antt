-- ===== src/Node/Witness.antt =====
-- What a witness signs, and what its answer is worth to the originator.
use cdml.Common.{ℕ, Bytes, [], some, ◌≡◌, inl, inr, ap, arith, Option-cases}
use cdml.Core.Errors.{ok, Res-cases}
use cdml.Core.Types.{Transaction, WitnessSignature}
use cdml.Crypto.KeyPair.{KeyPair, generate}
use cdml.Crypto.Sign.{verify_witness_sig}
use cdml.Crypto.Sign.Tx.{verify_witness_sig-sign_as_witness}
use cdml.Protocol.Dag.{current_tips}
use cdml.Protocol.Processor.World.{Libraries, LibraryLaws, World}
use cdml.Protocol.Processor.Verify.{VerifyPacket, verify_packet}
use cdml.Storage.Chain.Reads.{get_balance-disk, has_balance-disk, get_latest_seq-disk}
use cdml.Storage.NonceLock.{is_locked}
use cdml.Node.State.{Node, NodeLibraries, TxVerifyMsg}
use cdml.Node.Handlers.{judge, first_tip}

pub verify_packet-disk :
    (libs : Libraries) (pkt : VerifyPacket) (now : ℕ) (w : World libs)
    → (verify_packet libs pkt now w).1.disk ≡ w.disk
unfolding verify_packet
verify_packet-disk libs pkt now w = ground (
  arith,
  get_latest_seq-disk libs.badger pkt.tx.from now w.disk,
  has_balance-disk libs.badger pkt.tx.from now w.disk,
  get_balance-disk libs.badger pkt.tx.from now w.disk,
)

module _ (lib : NodeLibraries) (kp : KeyPair) where
  open lib use {libs}
  open libs use {badger, primitives}

  abbrev pub packet_of : Transaction → TxVerifyMsg → VerifyPacket
  packet_of tx msg = record { tx = tx; snapshot = msg.snapshot; known_tips = [] }

  -- What a signature by this node vouches for.
  pub record Vouches (msg : TxVerifyMsg) (now : ℕ) (s : Node lib) (tx : Transaction)
      (sig : WitnessSignature) : Type 0 where
    pub sent : msg.tx ≡ some tx
    pub checked : (verify_packet libs (packet_of tx msg) now s.world).0 ≡ ok tt
    pub owner : sig.witness_pub_key ≡ kp.public
    pub lock_seen : (is_locked badger tx.from tx.nonce now s.world.disk).0 ≡ ok sig.nonce_lock_seen
    pub tip : sig.dag_tip_at_sign ≡ first_tip (current_tips s.world.edges)
    pub verifies : verify_witness_sig primitives sig tx.hash ≡ ok tt

  module _ (laws : LibraryLaws libs) (r : Bytes) (owned : generate primitives r ≡ ok kp) where
    -- A node signs only a transaction that was sent to it and passed VerifyTx at that instant; its
    -- signature carries its key, its first tip, and whether the nonce is locked in its own store, and
    -- verifies for the transaction's hash.
    pub judge-Vouches :
        (msg : TxVerifyMsg) (now : ℕ) (s : Node lib) (tx : Transaction) (sig : WitnessSignature)
        → (judge lib kp msg now s).0 ≡ ok (tx, sig)
        → Vouches msg now s tx sig
    unfolding judge
    judge-Vouches msg now s tx sig done = elim (Option-cases msg.tx) [
      | inl missing ↦ absurd (ground arith)
      | inr (t, sent) ↦
          let pkt = packet_of t msg in
          let w = (verify_packet libs pkt now s.world).1 in
          let disk = verify_packet-disk libs pkt now s.world in
          elim (Res-cases (verify_packet libs pkt now s.world).0) [
            | inl (_, v) ↦ elim (Res-cases (is_locked badger t.from t.nonce now w.disk).0) [
              | inl (seen, l) ↦
                  let tip = first_tip (current_tips s.world.edges) in
                  let (ws, signed, key, at_tip, flag, good) =
                    verify_witness_sig-sign_as_witness primitives laws.primitives_laws r kp t.hash
                      tip seen owned in
                  let same : (t ≡ tx) × (ws ≡ sig) = ground arith in
                  let (same_tx, same_sig) = same in
                  let locked = ap (λ d. (is_locked badger t.from t.nonce now d).0) disk in
                  rw (← same_tx, ← same_sig)
                    (record {
                      sent = sent;
                      checked = v;
                      owner = key;
                      lock_seen = ground (arith, locked);
                      tip = at_tip;
                      verifies = good;
                    })
              | inr (inl (x, l)) ↦ absurd (ground arith)
              | inr (inr l) ↦ absurd (ground arith)
            ]
            | inr (inl (x, v)) ↦ absurd (ground arith)
            | inr (inr v) ↦ absurd (ground arith)
          ]
    ]
