-- ===== src/Protocol/Processor/Built.antt =====
-- BuildTx changes nothing, and builds only what a witness with the same ledger accepts.
use cdml.Common.{
  ℕ, ◌+◌, ◌≤◌, ◌<◌, true, false, Option, some, Bytes, copy_into, [], ◌≡◌, inl, inr, refl, ◌∙◌, ap,
  subst, arith, List, Option-cases,
}
use cdml.Core.Errors.{Res, ok, Res-cases}
use cdml.Core.Types.{PubKey, Hash32, Transaction, Snapshot, max_amount, pending}
use cdml.Core.Amount.{safe_add, validate_amount, bond_amount}
use cdml.Crypto.KeyPair.{KeyPair, generate}
use cdml.Crypto.Sign.{sign_tx, verify_tx}
use cdml.Crypto.Sign.Tx.{verify_tx-sign_tx}
use cdml.Storage.Db
use cdml.Storage.Chain.{number, get_balance, has_balance, get_latest_seq}
use cdml.Storage.Chain.Reads.{get_balance-disk, get_latest_seq-disk}
use cdml.Protocol.Dag.{current_tips}
use cdml.Protocol.Processor.World.{Libraries, LibraryLaws, World}
use cdml.Protocol.Processor.Build.{build_tx, next_seq, unsigned_tx}
use cdml.Protocol.Processor.Verify.{VerifyPacket, verify_packet, has_expired}
use cdml.Protocol.Processor.Check.{CanRead, verify_packet_iff}

module _ (libs : Libraries) where
  open libs use {badger, primitives}

  -- what BuildTx has read and checked, and what it has built
  pub record Built (kp : KeyPair) (to : PubKey) (amount now : ℕ) (w : World libs) (tx : Transaction)
      : Type 0 where
    pub bal : ℕ
    pub latest : ℕ
    pub bal_read : (get_balance badger kp.public now w.disk).0 ≡ ok bal
    pub seq_read : (get_latest_seq badger kp.public now w.disk).0 ≡ ok latest
    pub nonzero : 0 < amount
    pub within : amount + bond_amount amount ≤ max_amount
    pub funded : amount + bond_amount amount ≤ bal
    pub sender : tx.from ≡ kp.public
    pub receiver : tx.to ≡ to
    pub amounts : tx.amount ≡ amount
    pub numbered : tx.sequence ≡ next_seq libs latest
    pub parents : tx.parent_hashes ≡ current_tips w.edges
    pub unconfirmed : tx.status ≡ pending
    pub signed : verify_tx primitives tx ≡ ok tt

  module _ (laws : LibraryLaws libs) (r : Bytes) (kp : KeyPair)
      (owner : generate primitives r ≡ ok kp) (to : PubKey) (amount : ℕ) (random : Res Bytes)
      (now : ℕ) (w w' : World libs) (tx : Transaction)
      (done : build_tx libs kp to amount random now w ≡ (ok tx, w')) where
    balance_readable : (bal : ℕ) × ((get_balance badger kp.public now w.disk).0 ≡ ok bal)
    unfolding build_tx
    balance_readable =
        let rb = get_balance-disk badger kp.public now w.disk in
        elim (Res-cases (get_balance badger kp.public now w.disk).0) [
          | inl (bal, hb) ↦ (bal, hb)
          | inr (inl (x, hb)) ↦ absurd (ground arith)
          | inr (inr hb) ↦ absurd (ground arith)
        ]

    module _ (bal : ℕ) (hb : (get_balance badger kp.public now w.disk).0 ≡ ok bal) where
      sequence_readable :
          (latest : ℕ) × ((get_latest_seq badger kp.public now w.disk).0 ≡ ok latest)
      unfolding build_tx
      sequence_readable =
          let rb = get_balance-disk badger kp.public now w.disk in
          let rs = get_latest_seq-disk badger kp.public now w.disk in
          elim (Res-cases (get_latest_seq badger kp.public now w.disk).0) [
            | inl (latest, hs) ↦ (latest, hs)
            | inr (inl (x, hs)) ↦ absurd (ground arith)
            | inr (inr hs) ↦ absurd (ground arith)
          ]

      module _ (latest : ℕ) (hs : (get_latest_seq badger kp.public now w.disk).0 ≡ ok latest) where
        random_readable :
            (buf : Bytes) × (nonce : ℕ) × (random ≡ ok buf)
            × (number (some (copy_into 8 buf)) ≡ ok nonce)
        unfolding build_tx
        random_readable =
            let rb = get_balance-disk badger kp.public now w.disk in
            let rs = get_latest_seq-disk badger kp.public now w.disk in
            elim (Res-cases random) [
              | inl (buf, hr) ↦ elim (Res-cases (number (some (copy_into 8 buf)))) [
                | inl (nonce, hn) ↦ (buf, nonce, hr, hn)
                | inr (inl (x, hn)) ↦ absurd (ground arith)
                | inr (inr hn) ↦ absurd (ground arith)
              ]
              | inr (inl (x, hr)) ↦ absurd (ground arith)
              | inr (inr hr) ↦ absurd (ground arith)
            ]

        passed :
            (buf : Bytes) (nonce : ℕ)
            → random ≡ ok buf
            → number (some (copy_into 8 buf)) ≡ ok nonce
            → (0 < amount)
              × (amount + bond_amount amount ≤ max_amount)
              × (amount + bond_amount amount ≤ bal)
              × (sign_tx primitives kp (
                    unsigned_tx
                      (next_seq libs latest)
                      nonce
                      kp.public
                      to
                      amount
                      (current_tips w.edges)
                      now)
                  ≡ ok tx)
              × (w' ≡ w)
        unfolding build_tx safe_add validate_amount
        passed buf nonce hr hn =
            let rb = get_balance-disk badger kp.public now w.disk in
            let rs = get_latest_seq-disk badger kp.public now w.disk in ground arith

  -- A BuildTx that succeeds leaves ledger and DAG as they were. It has built a pending transaction
  -- from the owner of the key with the next sequence number and the DAG's tips as parents, whose
  -- amount is not zero, does not exceed the maximum and is covered with its bond, and whose hash and
  -- signature are valid.
  pub build_tx-Built :
      (laws : LibraryLaws libs) (r : Bytes) (kp : KeyPair)
      → generate primitives r ≡ ok kp
      → (to : PubKey) (amount : ℕ) (random : Res Bytes) (now : ℕ) (w w' : World libs)
        (tx : Transaction)
      → build_tx libs kp to amount random now w ≡ (ok tx, w')
      → (w' ≡ w) × Built kp to amount now w tx
  build_tx-Built laws r kp owner to amount random now w w' tx done =
      let (bal, hb) = balance_readable laws r kp owner to amount random now w w' tx done in
      let (latest, hs) =
        sequence_readable laws r kp owner to amount random now w w' tx done bal hb in
      let (buf, nonce, hr, hn) =
        random_readable laws r kp owner to amount random now w w' tx done bal hb latest hs in
      let (nonzero, within, funded, made, same) =
        passed laws r kp owner to amount random now w w' tx done bal hb latest hs buf nonce hr hn in
      let unsigned =
        unsigned_tx (next_seq libs latest) nonce kp.public to amount (current_tips w.edges) now in
      let (signed, made', rest, valid) =
        verify_tx-sign_tx primitives laws.primitives_laws r kp unsigned owner refl in
      let same_tx : signed ≡ tx = cc in
      let field : record tx { hash = []; sender_sig = [] } ≡ unsigned =
        subst (λ (t : Transaction). record t { hash = []; sender_sig = [] } ≡ unsigned) same_tx
          rest in
      (
        same,
        record {
          bal = bal;
          latest = latest;
          bal_read = hb;
          seq_read = hs;
          nonzero = nonzero;
          within = within;
          funded = funded;
          sender = ap (λ (t : Transaction). t.from) field;
          receiver = ap (λ (t : Transaction). t.to) field;
          amounts = ap (λ (t : Transaction). t.amount) field;
          numbered = ap (λ (t : Transaction). t.sequence) field;
          parents = ap (λ (t : Transaction). t.parent_hashes) field;
          unconfirmed = ap (λ (t : Transaction). t.status) field;
          signed = subst (λ (t : Transaction). verify_tx primitives t ≡ ok tt) same_tx valid;
        },
      )

  has_balance_of_pos :
      (pk : PubKey) (now bal : ℕ) (d : badger.Disk)
      → 0 < bal
      → (get_balance badger pk now d).0 ≡ ok bal
      → (has_balance badger pk now d).0 ≡ ok true
  unfolding get_balance has_balance Db.get
  has_balance_of_pos pk now bal d pos h = ground arith

  -- What a node builds, a witness with the same ledger accepts at the same instant: without a
  -- snapshot, or with one that has not expired and claims the stored balance.
  pub verify_packet-build_tx :
      (laws : LibraryLaws libs) (r : Bytes) (kp : KeyPair)
      → generate primitives r ≡ ok kp
      → (to : PubKey) (amount : ℕ) (random : Res Bytes) (now : ℕ) (w w' : World libs)
        (tx : Transaction)
      → build_tx libs kp to amount random now w ≡ (ok tx, w')
      → (snapshot : Option Snapshot) (known : List Hash32) → has_expired now snapshot ≡ false
      → ((s : Snapshot)
          → snapshot ≡ some s
          → (get_balance badger kp.public now w.disk).0 ≡ ok s.balance)
      → verify_packet libs (record { tx = tx; snapshot = snapshot; known_tips = known }) now w
        ≡ (ok tt, w)
  verify_packet-build_tx laws r kp owner to amount random now w w' tx done snapshot known fresh
        honest =
      let (_, c) = build_tx-Built laws r kp owner to amount random now w w' tx done in
      let pkt : VerifyPacket = record { tx = tx; snapshot = snapshot; known_tips = known } in
      let can : CanRead libs now w pkt c.latest (some c.bal) = record {
        seq_read = rw c.sender c.seq_read;
        has_read = rw c.sender (
            has_balance_of_pos kp.public now c.bal w.disk (omega (arith, c.nonzero, c.funded))
              c.bal_read);
        bal_read = λ bal e. let same : c.bal ≡ bal = cc in rw c.sender (c.bal_read ∙ ap ok same);
      } in
      (verify_packet_iff libs now w pkt c.latest (some c.bal) can).1 (record {
        fresh = fresh;
        signed = c.signed;
        in_sequence = inr c.numbered;
        funded = elim (Option-cases snapshot) [
          | inl e ↦ inr (rw (c.amounts, e) c.funded)
          | inr (s, e) ↦
              let claim : s.balance ≡ c.bal = cc (honest s e, c.bal_read) in
              inr (rw (c.amounts, e) (ground (arith, c.funded)))
        ];
      })
