-- ===== src/Node/Conflict.antt =====
-- Two payments of one sender with one sequence and one nonce, before the same witness.
pub mod Spent
use cdml.Common.{ℕ, Bool, false, some, ◌≡◌, inl, inr, refl, ap, sym, ◌∙◌, arith, Option-cases}
use cdml.Core.Errors.{Res, ok, Res-cases}
use cdml.Core.Types.{Hash32, Transaction, WitnessSignature}
use cdml.Crypto.KeyPair.{KeyPair}
use cdml.Crypto.Sign.{verify_tx, sign_as_witness}
use cdml.Network.Framing.{Packet}
use cdml.Protocol.Dag.{current_tips}
use cdml.Protocol.Processor.World.{World}
use cdml.Protocol.Processor.Verify.{has_expired, VerifyPacket, verify_packet}
use cdml.Storage.NonceLock.{is_locked}
use cdml.Storage.Db
use cdml.Node.State.{Node, NodeLibraries, TxVerifyMsg, broadcast, send_to_originator}
use cdml.Node.Handlers.{judge, handle_tx_verify, answer, first_tip}
use cdml.Node.Witness.{verify_packet-disk, packet_of}
use cdml.Node.Effects.{handle_tx_verify-Quiet}
use cdml.Node.Quorum.{get_active_set-disk}

module _ (lib : NodeLibraries) (kp : KeyPair) where
  open lib use {libs}
  open libs use {badger, primitives}

  -- whether a node finds the lock of a transaction's nonce
  abbrev locked : Transaction → ℕ → Node lib → Res Bool
  locked tx now s = (is_locked badger tx.from tx.nonce now s.world.disk).0

  judge-disk :
      (msg : TxVerifyMsg) (now : ℕ) (s : Node lib)
      → (judge lib kp msg now s).1.world.disk ≡ s.world.disk
  unfolding judge is_locked Db.get
  judge-disk msg now s = grind (arith, verify_packet-disk libs)

  handle_tx_verify-disk :
      (pkt : Packet) (now : ℕ) (s : Node lib)
      → (handle_tx_verify lib kp pkt now s).1.world.disk ≡ s.world.disk
  unfolding handle_tx_verify answer broadcast send_to_originator
  handle_tx_verify-disk pkt now s =
      grind (arith, judge-disk, get_active_set-disk lib kp now s.world.disk)

  -- the check looks at the sender, the sequence and the amount, beside the signature
  verify_packet_alike :
      (p q : VerifyPacket) (now : ℕ) (w : World libs)
      → (verify_packet libs p now w).0 ≡ ok tt
      → q.snapshot ≡ p.snapshot
      → q.tx.from ≡ p.tx.from
      → q.tx.sequence ≡ p.tx.sequence
      → q.tx.amount ≡ p.tx.amount
      → verify_tx primitives q.tx ≡ ok tt
      → (verify_packet libs q now w).0 ≡ ok tt
  unfolding verify_packet
  verify_packet_alike p q now w passed snap from seq amount signed =
      elim (Res-cases (verify_tx primitives p.tx)) [
        | inl (_, v) ↦ ground arith
        | inr (inl (x, v)) ↦ absurd (ground arith)
        | inr (inr v) ↦ absurd (ground arith)
      ]

  -- what is signed depends on the stores and the DAG only
  judge-world :
      (msg : TxVerifyMsg) (now : ℕ) (s s' : Node lib)
      → s'.world ≡ s.world
      → (judge lib kp msg now s').0 ≡ (judge lib kp msg now s).0
  unfolding judge
  judge-world msg now s s' same = ground arith

  passed :
      (msg : TxVerifyMsg) (tx : Transaction) (sig : WitnessSignature) (now : ℕ) (s : Node lib)
      → (judge lib kp msg now s).0 ≡ ok (tx, sig)
      → (msg.tx ≡ some tx)
        × (has_expired now msg.snapshot ≡ false)
        × ((verify_packet libs (packet_of lib kp tx msg) now s.world).0 ≡ ok tt)
        × (locked tx now s ≡ ok sig.nonce_lock_seen)
        × (sig.dag_tip_at_sign ≡ first_tip (current_tips s.world.edges))
  unfolding judge sign_as_witness
  passed msg tx sig now s done = elim (Option-cases msg.tx) [
    | inl missing ↦ absurd (ground arith)
    | inr (t, sent) ↦ elim (Res-cases (verify_packet libs (packet_of lib kp t msg) now s.world).0) [
      | inl (_, v) ↦
          let same = verify_packet-disk libs (packet_of lib kp t msg) now s.world in
          let read = ap (λ d. (is_locked badger t.from t.nonce now d).0) same in
          elim (Res-cases (locked t now s)) [
            | inl (flag, l) ↦ ground (arith, read)
            | inr (inl (x, l)) ↦ absurd (ground (arith, read))
            | inr (inr l) ↦ absurd (ground (arith, read))
          ]
      | inr (inl (x, v)) ↦ absurd (ground arith)
      | inr (inr v) ↦ absurd (ground arith)
    ]
  ]

  signature_made :
      (hash tip : Hash32) (flag : Bool)
      → (sig : WitnessSignature) × (sign_as_witness primitives kp hash tip flag ≡ ok sig)
        × (sig.nonce_lock_seen ≡ flag)
        × (sig.dag_tip_at_sign ≡ tip)
  unfolding sign_as_witness
  signature_made hash tip flag = (_, refl, refl, refl)

  signs :
      (msg : TxVerifyMsg) (tx : Transaction) (flag : Bool) (now : ℕ) (s : Node lib)
      → msg.tx ≡ some tx
      → has_expired now msg.snapshot ≡ false
      → (verify_packet libs (packet_of lib kp tx msg) now s.world).0 ≡ ok tt
      → locked tx now s ≡ ok flag
      → (sig : WitnessSignature) × ((judge lib kp msg now s).0 ≡ ok (tx, sig))
        × (sig.nonce_lock_seen ≡ flag)
        × (sig.dag_tip_at_sign ≡ first_tip (current_tips s.world.edges))
  unfolding judge
  signs msg tx flag now s sent alive ok_packet lock_read =
      let same = verify_packet-disk libs (packet_of lib kp tx msg) now s.world in
      let read = ap (λ d. (is_locked badger tx.from tx.nonce now d).0) same ∙ lock_read in
      let tip = first_tip (current_tips s.world.edges) in
      let (sig, made, as_read, at_tip) = signature_made tx.hash tip flag in
      (sig, ground (arith, read), as_read, at_tip)

  -- Nothing that a witness has signed keeps it from signing another payment. Where a transaction has
  -- passed, a second one of the same sender, sequence, nonce and amount, with the same snapshot and a
  -- signature of its own, passes too, whatever its receiver is, and also after the packet of the first,
  -- or any other packet of that kind, has been handled; both are signed with the same tip and the same
  -- flag for the nonce lock.
  pub judge_signs_conflicting :
      (pkt : Packet) (first other : TxVerifyMsg) (tx1 tx2 : Transaction) (sig1 : WitnessSignature)
      (earlier now : ℕ) (s : Node lib)
      → (judge lib kp first now s).0 ≡ ok (tx1, sig1)
      → other.tx ≡ some tx2
      → other.snapshot ≡ first.snapshot
      → tx2.from ≡ tx1.from
      → tx2.sequence ≡ tx1.sequence
      → tx2.nonce ≡ tx1.nonce
      → tx2.amount ≡ tx1.amount
      → verify_tx primitives tx2 ≡ ok tt
      → let s' = (handle_tx_verify lib kp pkt earlier s).1 in
        (sig2 : WitnessSignature) × ((judge lib kp other now s').0 ≡ ok (tx2, sig2))
        × (sig2.nonce_lock_seen ≡ sig1.nonce_lock_seen)
        × (sig2.dag_tip_at_sign ≡ sig1.dag_tip_at_sign)
  judge_signs_conflicting pkt first other tx1 tx2 sig1 earlier now s done sent snap from seq nonce
        amount signed =
      let s' = (handle_tx_verify lib kp pkt earlier s).1 in
      let quiet = handle_tx_verify-Quiet lib kp pkt earlier s in
      let same : s'.world ≡ s.world =
        λ i. record { disk = handle_tx_verify-disk pkt earlier s i; edges = quiet.edges i } in
      let (sent1, alive, checked, flag1, tip1) = passed first tx1 sig1 now s done in
      let accepted =
        verify_packet_alike (packet_of lib kp tx1 first) (packet_of lib kp tx2 other) now s.world
          checked snap from seq amount signed in
      let (sig2, signs2, flag2, tip2) =
        signs other tx2 sig1.nonce_lock_seen now s sent (ground arith) accepted (ground arith) in
      (sig2, judge-world other now s s' same ∙ signs2, flag2, tip2 ∙ sym tip1)
