-- ===== src/Node/Conflict/Spent.antt =====
-- Two payments that exclude each other, before the same witnesses.
use cdml.Common.{
  ℕ, ◌+◌, ltb, Bool, true, false, Bytes, Bool-cases, List, [], ◌∷◌, some, ◌≡◌, refl, sym, ◌∙◌, ap,
  arith, inl, inr,
}
use cdml.Core.Errors.{ok, wrap, fail_if, quorum_not_met}
use cdml.Core.Types.{PubKey, Hash32, Transaction, WitnessSignature}
use cdml.Crypto.KeyPair.{KeyPair, generate}
use cdml.Crypto.Primitives.{Primitives}
use cdml.Crypto.Sign.{verify_tx, verify_witness_sig, counts, count_loop, verify_quorum}
use cdml.Network.Framing.{Packet}
use cdml.Protocol.Processor.World.{LibraryLaws}
use cdml.Node.State.{Node, NodeLibraries, TxVerifyMsg, quorum_k}
use cdml.Node.Handlers.{judge, handle_tx_verify}
use cdml.Node.Witness.{judge-Vouches}
use cdml.Node.Conflict.{judge_signs_conflicting}

module _ (p : Primitives) where
  -- lists of valid signatures over two hashes, by the same witnesses and with the same flags
  data Matched (h1 h2 : Hash32) : List WitnessSignature → List WitnessSignature → Type 0 where
    both_end : Matched h1 h2 [] []
    both :
        {a b : WitnessSignature} {xs ys : List WitnessSignature}
        → b.witness_pub_key ≡ a.witness_pub_key
        → b.nonce_lock_seen ≡ a.nonce_lock_seen
        → verify_witness_sig p a h1 ≡ ok tt
        → verify_witness_sig p b h2 ≡ ok tt
        → Matched h1 h2 xs ys
        → Matched h1 h2 (a ∷ xs) (b ∷ ys)

  counts-Matched :
      (a b : WitnessSignature) (h1 h2 : Hash32) (valid_set counted : List PubKey)
      → b.witness_pub_key ≡ a.witness_pub_key
      → b.nonce_lock_seen ≡ a.nonce_lock_seen
      → verify_witness_sig p a h1 ≡ ok tt
      → verify_witness_sig p b h2 ≡ ok tt
      → counts p b h2 valid_set counted ≡ counts p a h1 valid_set counted
  counts-Matched a b h1 h2 valid_set counted key flag v w = ground arith

  counted_one :
      (a : WitnessSignature) (xs : List WitnessSignature) (h : Hash32)
      (valid_set counted : List PubKey) (n : ℕ)
      → counts p a h valid_set counted ≡ true
      → count_loop p (a ∷ xs) h valid_set counted n
        ≡ count_loop p xs h valid_set (a.witness_pub_key ∷ counted) (n + 1)
  unfolding count_loop
  counted_one a xs h valid_set counted n e =
      ap
        (λ (c : Bool). elim c [
          | true ↦ count_loop p xs h valid_set (a.witness_pub_key ∷ counted) (n + 1)
          | false ↦ count_loop p xs h valid_set counted n
        ])
        e

  passed_over :
      (a : WitnessSignature) (xs : List WitnessSignature) (h : Hash32)
      (valid_set counted : List PubKey) (n : ℕ)
      → counts p a h valid_set counted ≡ false
      → count_loop p (a ∷ xs) h valid_set counted n ≡ count_loop p xs h valid_set counted n
  unfolding count_loop
  passed_over a xs h valid_set counted n e =
      ap
        (λ (c : Bool). elim c [
          | true ↦ count_loop p xs h valid_set (a.witness_pub_key ∷ counted) (n + 1)
          | false ↦ count_loop p xs h valid_set counted n
        ])
        e

  count_loop-Matched :
      (h1 h2 : Hash32) (xs ys : List WitnessSignature) (valid_set counted : List PubKey) (n : ℕ)
      → Matched h1 h2 xs ys
      → count_loop p ys h2 valid_set counted n ≡ count_loop p xs h1 valid_set counted n
  count_loop-Matched h1 h2 _ _ valid_set counted n both_end = unfold count_loop in refl
  count_loop-Matched h1 h2 (a ∷ xs) (b ∷ ys) valid_set counted n (both key flag v w rest) =
      let same = counts-Matched a b h1 h2 valid_set counted key flag v w in
      elim (Bool-cases (counts p a h1 valid_set counted)) [
        | inl e ↦
            counted_one b ys h2 valid_set counted n (same ∙ e)
            ∙ ap (λ k. count_loop p ys h2 valid_set (k ∷ counted) (n + 1)) key
            ∙ count_loop-Matched h1 h2 xs ys valid_set (a.witness_pub_key ∷ counted) (n + 1) rest
            ∙ sym (counted_one a xs h1 valid_set counted n e)
        | inr e ↦
            passed_over b ys h2 valid_set counted n (same ∙ e)
            ∙ count_loop-Matched h1 h2 xs ys valid_set counted n rest
            ∙ sym (passed_over a xs h1 valid_set counted n e)
      ]

  verify_quorum-Matched :
      (h1 h2 : Hash32) (xs ys : List WitnessSignature) (valid_set : List PubKey) (k : ℕ)
      → Matched h1 h2 xs ys
      → verify_quorum p ys h2 valid_set k ≡ verify_quorum p xs h1 valid_set k
  unfolding verify_quorum
  verify_quorum-Matched h1 h2 xs ys valid_set k m =
      ap (λ n. fail_if (ltb n k) (wrap quorum_not_met))
        (count_loop-Matched h1 h2 xs ys valid_set [] 0 m)

module _ (lib : NodeLibraries) where
  open lib use {libs}
  open libs use {primitives}

  -- signatures over a transaction, each by a witness at a state of its own
  pub data AllSigned (tx : Transaction) : List WitnessSignature → Type 1 where
    none_signed : AllSigned tx []
    signed :
        {sigs : List WitnessSignature} {sig : WitnessSignature} (kp : KeyPair) (r : Bytes)
        (msg : TxVerifyMsg) (now : ℕ) (s : Node lib)
        → generate primitives r ≡ ok kp
        → (judge lib kp msg now s).0 ≡ ok (tx, sig)
        → AllSigned tx sigs
        → AllSigned tx (sig ∷ sigs)

  -- signatures over two transactions, each pair by one witness, which has handled a packet in between
  pub data BothSigned (pkt : Packet) (earlier : ℕ) (tx1 tx2 : Transaction)
      : List WitnessSignature → List WitnessSignature → Type 1 where
    none_both : BothSigned pkt earlier tx1 tx2 [] []
    both_signed :
        {xs ys : List WitnessSignature} {a b : WitnessSignature} (kp : KeyPair)
        (msg other : TxVerifyMsg) (now : ℕ) (s : Node lib)
        → (judge lib kp msg now s).0 ≡ ok (tx1, a)
        → (judge lib kp other now (handle_tx_verify lib kp pkt earlier s).1).0 ≡ ok (tx2, b)
        → BothSigned pkt earlier tx1 tx2 xs ys
        → BothSigned pkt earlier tx1 tx2 (a ∷ xs) (b ∷ ys)

  module _ (laws : LibraryLaws libs) (pkt : Packet) (earlier : ℕ) (tx1 tx2 : Transaction)
      (from : tx2.from ≡ tx1.from) (seq : tx2.sequence ≡ tx1.sequence)
      (nonce : tx2.nonce ≡ tx1.nonce) (amount : tx2.amount ≡ tx1.amount)
      (valid : verify_tx primitives tx2 ≡ ok tt) where
    signed_again :
        (sigs : List WitnessSignature)
        → AllSigned tx1 sigs
        → (others : List WitnessSignature) × BothSigned pkt earlier tx1 tx2 sigs others
          × Matched primitives tx1.hash tx2.hash sigs others
    signed_again _ none_signed = ([], none_both, both_end)
    signed_again (sig ∷ sigs) (signed kp r msg now s owned done rest) =
        let other : TxVerifyMsg = record { tx = some tx2; snapshot = msg.snapshot } in
        let s' = (handle_tx_verify lib kp pkt earlier s).1 in
        let (sig2, done2, flag, _) =
          judge_signs_conflicting lib kp pkt msg other tx1 tx2 sig earlier now s done refl refl from
            seq nonce amount valid in
        let first = judge-Vouches lib kp laws r owned msg now s tx1 sig done in
        let second = judge-Vouches lib kp laws r owned other now s' tx2 sig2 done2 in
        let (others, signers, matched) = signed_again sigs rest in
        (
          sig2 ∷ others,
          both_signed kp msg other now s done done2 signers,
          both (second.owner ∙ sym first.owner) flag first.verifies second.verifies matched,
        )

    -- Witnesses do not keep a sender from spending twice. Where the signatures that witnesses have made
    -- over a transaction are a quorum, the same witnesses, after each has handled any packet that asks for
    -- a signature, the one for that transaction say, sign a second transaction of the same sender,
    -- sequence, nonce and amount with a valid signature, whatever its receiver is, if they are asked for it
    -- at the instant and with the snapshot of the first; and these signatures are a quorum of the same set
    -- for it.
    pub quorum_signs_conflicting :
        (sigs : List WitnessSignature) (valid_set : List PubKey)
        → AllSigned tx1 sigs
        → verify_quorum primitives sigs tx1.hash valid_set quorum_k ≡ ok tt
        → (others : List WitnessSignature) × BothSigned pkt earlier tx1 tx2 sigs others
          × (verify_quorum primitives others tx2.hash valid_set quorum_k ≡ ok tt)
    quorum_signs_conflicting sigs valid_set all quorum =
        let (others, signers, matched) = signed_again sigs all in
        (
          others,
          signers,
          verify_quorum-Matched primitives tx1.hash tx2.hash sigs others valid_set quorum_k matched
              ∙ quorum,
        )
