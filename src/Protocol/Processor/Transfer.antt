-- ===== src/Protocol/Processor/Transfer.antt =====
-- What a confirmed transaction has done to the ledger.
use cdml.Common.{ℕ, ◌+◌, ◌-◌, ◌^◌, ◌≤◌, ◌<◌, Bytes-discrete, ite, Option, some, ◌≡◌, ◌≢◌, arith}
use cdml.Core.Errors.{Res, ok}
use cdml.Core.Types.{PubKey, Hash32, Transaction, max_amount}
use cdml.Core.Amount.{bond_amount}
use cdml.Storage.Keys.{tx_key, reward_pool_key}
use cdml.Storage.Db
use cdml.Storage.Chain.{get_balance, get_latest_seq, get_tx, is_confirmed_tx_applied}
use cdml.Storage.Chain.Batch.{Committed, confirm_tx_batch-Committed}
use cdml.Storage.Chain.Single.{accumulate_bond-PoolOnly}
use cdml.Protocol.Processor.World.{Libraries, LibraryLaws, World}
use cdml.Protocol.Processor.Confirm.{AutoSnapshot, confirm_tx, as_confirmed}
use cdml.Protocol.Processor.Steps.{Confirmation, confirm_tx-Confirmation, batch_of}

module _ (libs : Libraries) (laws : LibraryLaws libs) where
  open libs use {badger, tx_json}

  -- the balance that a later read finds
  abbrev pub balance : World libs → ℕ → PubKey → Res ℕ
  balance w τ pk = (get_balance badger pk τ w.disk).0

  module _ (tx : Transaction) (now : ℕ) (w w' : World libs) (c : Confirmation libs tx now w w')
      (fits : tx.sequence < 2 ^ 64) (sender_fits : c.bal < 2 ^ 64) where
    pub batch-Committed :
        Committed badger laws.badger_laws tx_json (batch_of libs tx c.bal c.recv) w.disk c.mid
    batch-Committed =
        confirm_tx_batch-Committed badger laws.badger_laws tx_json laws.tx_json_laws
          (batch_of libs tx c.bal c.recv)
          (record {
            sender_fits = omega (arith, c.covered);
            receiver_fits = omega (arith, c.credit_within);
            sequence_fits = fits;
          })
          now w.disk c.mid c.batched

    pub bal_after :
        (τ : ℕ) (q : PubKey)
        → balance w' τ q
          ≡ ite (Bytes-discrete q tx.to) (ok (c.recv + tx.amount)) (
              ite
                (Bytes-discrete q tx.from)
                (ok (c.bal - (tx.amount + bond_amount tx.amount)))
                (balance w τ q))
    bal_after τ q =
        let pool =
          accumulate_bond-PoolOnly badger laws.badger_laws (bond_amount tx.amount) now c.mid in
        rw (c.pooled, pool.balances_kept τ q) (batch-Committed.balances τ q)

    seq_after :
        (τ : ℕ) (q : PubKey)
        → (get_latest_seq badger q τ w'.disk).0
          ≡ ite (Bytes-discrete q tx.from) (ok tx.sequence) (get_latest_seq badger q τ w.disk).0
    seq_after τ q =
        let pool =
          accumulate_bond-PoolOnly badger laws.badger_laws (bond_amount tx.amount) now c.mid in
        rw (c.pooled, pool.sequences_kept τ q) (batch-Committed.sequences τ q)

    tx_after :
        (τ : ℕ)
        → (get_tx badger tx_json tx.from tx.sequence τ w'.disk).0 ≡ ok (some (as_confirmed tx))
    unfolding get_tx Db.get tx_key reward_pool_key
    tx_after τ =
        let pool =
          accumulate_bond-PoolOnly badger laws.badger_laws (bond_amount tx.amount) now c.mid in
        ground (
          arith,
          c.pooled,
          pool.reads_kept τ (tx_key tx.from tx.sequence),
          batch-Committed.recorded τ,
        )

    pub applied_after :
        (τ : ℕ) (h : Hash32)
        → (is_confirmed_tx_applied badger h τ w'.disk).0
          ≡ (is_confirmed_tx_applied badger h τ w.disk).0
    applied_after τ h =
        let pool =
          accumulate_bond-PoolOnly badger laws.badger_laws (bond_amount tx.amount) now c.mid in
        rw (c.pooled, pool.applied_kept τ h) (batch-Committed.applied_kept τ h)

  -- The ledger after a transfer, read at any later instant.
  pub record Transferred (tx : Transaction) (bal recv : ℕ) (w w' : World libs) (τ : ℕ)
      : Type 0 where
    pub covered : tx.amount + bond_amount tx.amount ≤ bal
    pub sender : balance w' τ tx.from ≡ ok (bal - (tx.amount + bond_amount tx.amount))
    pub receiver : balance w' τ tx.to ≡ ok (recv + tx.amount)
    pub bounded : recv + tx.amount ≤ max_amount
    pub others : (q : PubKey) → q ≢ tx.from → q ≢ tx.to → balance w' τ q ≡ balance w τ q
    pub conserved :
        (bal - (tx.amount + bond_amount tx.amount)) + (recv + tx.amount) + bond_amount tx.amount
        ≡ bal + recv

  -- A confirmed transaction between two different accounts moves the amount and takes the fee: the
  -- sender has lost the amount and the bond, which it had, the receiver has gained the amount and
  -- stays within the maximum, no other balance has changed, and the two balances and the bond add up
  -- to what the two held before.
  pub confirm_tx-Transferred :
      (tx : Transaction) (now bal recv : ℕ) (w w' : World libs) (job : Option AutoSnapshot)
      → tx.sequence < 2 ^ 64
      → bal < 2 ^ 64
      → tx.from ≢ tx.to
      → balance w now tx.from ≡ ok bal
      → balance w now tx.to ≡ ok recv
      → confirm_tx libs tx now w ≡ (ok job, w')
      → (τ : ℕ) → Transferred tx bal recv w w' τ
  confirm_tx-Transferred tx now bal recv w w' job fits sender_fits apart from_bal to_bal done τ =
      let c = confirm_tx-Confirmation libs tx now w w' job done in
      let bals : c.bal ≡ bal = cc (c.bal_read) in
      let recvs : c.recv ≡ recv = cc (c.recv_read) in
      let after = bal_after tx now w w' c fits (omega arith) in
      record {
        covered = omega (arith, c.covered);
        sender = ground (arith, after τ tx.from, bals);
        receiver = ground (arith, after τ tx.to, recvs);
        bounded = omega (arith, c.credit_within);
        others = λ q nf nt. ground (arith, after τ q);
        conserved = omega (arith, c.covered);
      }

  -- A transaction from an account to itself is confirmed too, and then creates money: the balance
  -- has grown by the amount, and neither the amount nor the bond has been taken from it.
  pub confirm_tx_self_mints :
      (tx : Transaction) (now bal : ℕ) (w w' : World libs) (job : Option AutoSnapshot)
      → tx.sequence < 2 ^ 64
      → bal < 2 ^ 64
      → tx.from ≡ tx.to
      → balance w now tx.from ≡ ok bal
      → confirm_tx libs tx now w ≡ (ok job, w')
      → (τ : ℕ) → balance w' τ tx.from ≡ ok (bal + tx.amount)
  confirm_tx_self_mints tx now bal w w' job fits sender_fits same from_bal done τ =
      let c = confirm_tx-Confirmation libs tx now w w' job done in
      let bals : c.bal ≡ bal = cc (c.bal_read) in
      let recvs : c.recv ≡ bal = ground (arith, c.recv_read) in
      ground (arith, bal_after tx now w w' c fits (omega arith) τ tx.from, recvs)

  -- A confirmed transaction is stored under its sender and sequence with the status confirmed, its
  -- sequence is the sender's latest, and every other account keeps its latest sequence.
  pub confirm_tx_recorded :
      (tx : Transaction) (now bal : ℕ) (w w' : World libs) (job : Option AutoSnapshot)
      → tx.sequence < 2 ^ 64
      → bal < 2 ^ 64
      → balance w now tx.from ≡ ok bal
      → confirm_tx libs tx now w ≡ (ok job, w')
      → (τ : ℕ)
      → ((get_tx badger tx_json tx.from tx.sequence τ w'.disk).0 ≡ ok (some (as_confirmed tx)))
        × ((q : PubKey)
            → (get_latest_seq badger q τ w'.disk).0
              ≡ ite
                  (Bytes-discrete q tx.from)
                  (ok tx.sequence)
                  (get_latest_seq badger q τ w.disk).0)
  confirm_tx_recorded tx now bal w w' job fits sender_fits from_bal done τ =
      let c = confirm_tx-Confirmation libs tx now w w' job done in
      let bals : c.bal ≡ bal = cc (c.bal_read) in
      let small : c.bal < 2 ^ 64 = omega arith in
      (tx_after tx now w w' c fits small τ, seq_after tx now w w' c fits small τ)
