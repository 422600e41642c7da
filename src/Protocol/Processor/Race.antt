-- ===== src/Protocol/Processor/Race.antt =====
-- ConfirmTx against ApplyConfirmedTxBalance at the same time (internal/protocol/transaction.go): the
-- two balances are read before the batch is written, and no mutex is held in between.
use cdml.Common.{
  ℕ, ◌+◌, ◌-◌, ◌%◌, false, ◌^◌, ◌≤◌, ◌<◌, Bytes-discrete, ite, if◌then◌else◌, Option, none, some,
  ◌==◌, ◌≡◌, ◌≢◌, inl, inr, arith,
}
use cdml.Core.Errors.{Res, ok, Res-cases}
use cdml.Core.Types.{PubKey, Amount, Transaction, max_amount}
use cdml.Core.Amount.{safe_add, safe_sub, bond_amount}
use cdml.Exec.{Exec, pure, lift, or_else, wrapped, ◌>>=◌, ◌>>◌}
use cdml.Storage.Chain.{ConfirmBatch, get_balance, confirm_tx_batch, accumulate_bond}
use cdml.Storage.Chain.Batch.{confirm_tx_batch-Committed}
use cdml.Storage.Chain.Reads.{get_balance-disk}
use cdml.Storage.Chain.Single.{accumulate_bond-PoolOnly}
use cdml.Protocol.Dag.{advance_tip}
use cdml.Protocol.Processor.World.{
  Libraries, LibraryLaws, World, on_disk, on_dag, snapshot_interval,
}
use cdml.Protocol.Processor.Confirm.{
  AutoSnapshot, confirm_tx, apply_confirmed_tx_balance, as_confirmed,
}
use cdml.Protocol.Processor.Credit.{marked, apply_credits}
use cdml.Protocol.Processor.Transfer.{balance}

module _ (libs : Libraries) where
  open libs use {badger, tx_json}

  -- the reads of ConfirmTx: the sender's new balance and the receiver's old one
  unfoldable pub prepare : Transaction → Exec (World libs) (Amount × Amount)
  prepare tx = do
    bal ← wrapped (on_disk libs (get_balance badger tx.from))
    total ← lift (safe_add tx.amount (bond_amount tx.amount))
    new_sender_bal ← wrapped (lift (safe_sub bal total))
    recv_bal ← or_else 0 (on_disk libs (get_balance badger tx.to))
    pure (new_sender_bal, recv_bal)

  -- the rest of ConfirmTx, which writes
  unfoldable pub settle : Transaction → Amount × Amount → Exec (World libs) (Option AutoSnapshot)
  settle tx (new_sender_bal, recv_bal) = do
    new_recv_bal ← lift (safe_add recv_bal tx.amount)
    wrapped (on_dag libs (advance_tip tx.hash tx.parent_hashes))
    wrapped (
        on_disk libs (
          confirm_tx_batch badger tx_json (record {
            tx = as_confirmed tx;
            sender_bal = new_sender_bal;
            receiver_bal = new_recv_bal;
          })))
    or_else tt (on_disk libs (accumulate_bond badger (bond_amount tx.amount)))
    pure (
        if tx.sequence % snapshot_interval == 0
        then some (record { owner = tx.from; balance = new_sender_bal; sequence = tx.sequence })
        else none)

  pub prepare-settle :
      (tx : Transaction) (now : ℕ) (w : World libs)
      → confirm_tx libs tx now w ≡ (prepare tx >>= settle tx) now w
  unfolding confirm_tx prepare settle
  prepare-settle tx now w = ground arith

  module _ (tx : Transaction) (now : ℕ) (bal : ℕ) (w : World libs)
      (read : (get_balance badger tx.from now w.disk).0 ≡ ok bal) where
    -- what the reads of ConfirmTx find
    prepare_finds :
        (r : Amount × Amount)
        → prepare tx now w ≡ (ok r, w)
        → (tx.amount + bond_amount tx.amount ≤ bal)
          × (r.0 ≡ bal - (tx.amount + bond_amount tx.amount))
    unfolding prepare safe_add safe_sub
    prepare_finds r h = elim (Res-cases (get_balance badger tx.to now w.disk).0) [
      | inl (recv, e) ↦ ground (
        arith,
        get_balance-disk badger tx.from now w.disk,
        get_balance-disk badger tx.to now w.disk,
      )
      | inr (inl (x, e)) ↦ ground (
        arith,
        get_balance-disk badger tx.from now w.disk,
        get_balance-disk badger tx.to now w.disk,
      )
      | inr (inr e) ↦ ground (
        arith,
        get_balance-disk badger tx.from now w.disk,
        get_balance-disk badger tx.to now w.disk,
      )
    ]

  module _ (tx : Transaction) (now left recv : ℕ) (w w' : World libs) (job : Option AutoSnapshot)
      (done : settle tx (left, recv) now w ≡ (ok job, w')) where
    batch : ConfirmBatch
    batch = record { tx = as_confirmed tx; sender_bal = left; receiver_bal = recv + tx.amount }

    written : Res (Unit {0}) × badger.Disk
    written = confirm_tx_batch badger tx_json batch now w.disk

    settle_steps :
        (recv + tx.amount ≤ max_amount)
        × (written.0 ≡ ok tt)
        × (w'.disk ≡ (accumulate_bond badger (bond_amount tx.amount) now written.1).1)
    unfolding settle safe_add written batch
    settle_steps = ground arith

    module _ (laws : LibraryLaws libs) (fits : tx.sequence < 2 ^ 64) (small : left < 2 ^ 64) where
      settled :
          (τ : ℕ) (q : PubKey)
          → balance libs laws w' τ q
            ≡ ite
                (Bytes-discrete q tx.to)
                (ok (recv + tx.amount))
                (ite (Bytes-discrete q tx.from) (ok left) (balance libs laws w τ q))
      unfolding written batch
      settled τ q =
          let (within, wrote, disk) = settle_steps in
          let d = written.1 in
          let committed =
            confirm_tx_batch-Committed badger laws.badger_laws tx_json laws.tx_json_laws batch
              (record { sender_fits = small; receiver_fits = omega arith; sequence_fits = fits })
              now w.disk d (λ i. (wrote i, d)) in
          let pool =
            accumulate_bond-PoolOnly badger laws.badger_laws (bond_amount tx.amount) now d in
          rw (disk, pool.balances_kept τ q) (committed.balances τ q)

  -- A payment that is received while the node confirms one of its own is lost. Where ConfirmTx has
  -- read the balances, then a received transaction to the sender is credited, and then ConfirmTx
  -- writes, all of them with success, the sender's balance had grown by the received amount, and is
  -- then what it would be without the credit: the amount and the bond below the balance that was
  -- read. (The sender and the receiver of the confirmed transaction differ.)
  pub settle_loses_credit :
      (laws : LibraryLaws libs) (tx other : Transaction) (a1 a2 a3 bal : ℕ) (r : Amount × Amount)
      (w w1 w2 : World libs) (job : Option AutoSnapshot)
      → tx.sequence < 2 ^ 64
      → bal < 2 ^ 64
      → tx.from ≢ tx.to
      → other.to ≡ tx.from
      → ((τ : ℕ) → balance libs laws w τ tx.from ≡ ok bal)
      → marked libs w a2 other ≡ ok false
      → prepare tx a1 w ≡ (ok r, w)
      → apply_confirmed_tx_balance libs other a2 w ≡ (ok tt, w1)
      → settle tx r a3 w1 ≡ (ok job, w2)
      → (τ : ℕ)
      → (balance libs laws w1 τ tx.from ≡ ok (bal + other.amount))
        × (balance libs laws w2 τ tx.from ≡ ok (bal - (tx.amount + bond_amount tx.amount)))
  settle_loses_credit laws tx other a1 a2 a3 bal r w w1 w2 job fits small apart own at new prepared
        credited done τ =
      let (covered, left) = prepare_finds tx a1 bal w (at a1) r prepared in
      let to_read : (get_balance badger other.to a2 w.disk).0 ≡ ok bal = rw own (at a2) in
      let (_, grown) = apply_credits libs laws other a2 bal w w1 new to_read credited in
      (
        ground (arith, grown τ tx.from),
        ground (arith, settled tx a3 r.0 r.1 w1 w2 job done laws fits (omega arith) τ tx.from),
      )
