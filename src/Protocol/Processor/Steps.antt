-- ===== src/Protocol/Processor/Steps.antt =====
-- The steps of ConfirmTx and ApplyConfirmedTxBalance, taken apart.
use cdml.Common.{ℕ, ◌+◌, ◌-◌, ◌≤◌, Option, ◌≡◌, inl, inr, arith}
use cdml.Core.Errors.{Error, Res, ok, err, panic, Res-cases}
use cdml.Core.Errors
use cdml.Core.Types.{Transaction, max_amount}
use cdml.Core.Amount.{safe_add, safe_sub, bond_amount}
use cdml.Storage.Chain.{ConfirmBatch, get_balance, confirm_tx_batch, accumulate_bond}
use cdml.Storage.Chain.Reads.{get_balance-disk}
use cdml.Protocol.Dag.{advance_tip}
use cdml.Protocol.Processor.World.{Libraries, World}
use cdml.Protocol.Processor.Confirm.{AutoSnapshot, confirm_tx, as_confirmed}

module _ (libs : Libraries) where
  open libs use {badger, tx_json}

  -- the writes of the batch for a transaction, from the balances read
  abbrev pub batch_of : Transaction → ℕ → ℕ → ConfirmBatch
  batch_of tx bal recv = record {
    tx = as_confirmed tx;
    sender_bal = bal - (tx.amount + bond_amount tx.amount);
    receiver_bal = recv + tx.amount;
  }

  -- what a ConfirmTx that succeeded has read, checked and written
  pub record Confirmation (tx : Transaction) (now : ℕ) (w w' : World libs) : Type 0 where
    pub bal : ℕ
    pub recv : ℕ
    pub mid : badger.Disk
    pub bal_read : (get_balance badger tx.from now w.disk).0 ≡ ok bal
    pub recv_read : Errors.or_else 0 (get_balance badger tx.to now w.disk).0 ≡ ok recv
    pub total_within : tx.amount + bond_amount tx.amount ≤ max_amount
    pub covered : tx.amount + bond_amount tx.amount ≤ bal
    pub credit_within : recv + tx.amount ≤ max_amount
    pub recorded : advance_tip tx.hash tx.parent_hashes w.edges ≡ (ok tt, w'.edges)
    pub batched : confirm_tx_batch badger tx_json (batch_of tx bal recv) now w.disk ≡ (ok tt, mid)
    pub pooled : w'.disk ≡ (accumulate_bond badger (bond_amount tx.amount) now mid).1

  module _ (tx : Transaction) (now : ℕ) (w w' : World libs) (job : Option AutoSnapshot)
      (done : confirm_tx libs tx now w ≡ (ok job, w')) where
    sender_readable : (bal : ℕ) × ((get_balance badger tx.from now w.disk).0 ≡ ok bal)
    unfolding confirm_tx
    sender_readable = elim (Res-cases (get_balance badger tx.from now w.disk).0) [
      | inl (bal, e) ↦ (bal, e)
      | inr (inl (x, e)) ↦ absurd (ground (arith, get_balance-disk badger tx.from now w.disk))
      | inr (inr e) ↦ absurd (ground (arith, get_balance-disk badger tx.from now w.disk))
    ]

    module _ (bal : ℕ) (bal_read : (get_balance badger tx.from now w.disk).0 ≡ ok bal) where
      sums_fit :
          (tx.amount + bond_amount tx.amount ≤ max_amount)
          × (tx.amount + bond_amount tx.amount ≤ bal)
      unfolding confirm_tx safe_add safe_sub
      sums_fit = ground (arith, get_balance-disk badger tx.from now w.disk)

      receiver_readable :
          (recv : ℕ) × (Errors.or_else 0 (get_balance badger tx.to now w.disk).0 ≡ ok recv)
      unfolding confirm_tx
      receiver_readable = elim (Res-cases (get_balance badger tx.to now w.disk).0) [
        | inl (recv, e) ↦ (recv, rw e)
        | inr (inl (x, e)) ↦ (0, rw e)
        | inr (inr e) ↦ absurd (
            ground (
              arith,
              get_balance-disk badger tx.from now w.disk,
              get_balance-disk badger tx.to now w.disk,
            ))
      ]

      module _ (recv : ℕ)
          (recv_read : Errors.or_else 0 (get_balance badger tx.to now w.disk).0 ≡ ok recv) where
        abbrev committed : Res (Unit {0}) × badger.Disk
        committed = confirm_tx_batch badger tx_json (batch_of tx bal recv) now w.disk

        writes :
            (recv + tx.amount ≤ max_amount)
            × (advance_tip tx.hash tx.parent_hashes w.edges ≡ (ok tt, w'.edges))
            × (committed ≡ (ok tt, committed.1))
            × (w'.disk ≡ (accumulate_bond badger (bond_amount tx.amount) now committed.1).1)
        unfolding confirm_tx safe_add safe_sub
        writes = ground (
          arith,
          get_balance-disk badger tx.from now w.disk,
          get_balance-disk badger tx.to now w.disk,
          sums_fit,
        )

  -- ConfirmTx succeeds only by reading, checking and writing all of this.
  pub confirm_tx-Confirmation :
      (tx : Transaction) (now : ℕ) (w w' : World libs) (job : Option AutoSnapshot)
      → confirm_tx libs tx now w ≡ (ok job, w')
      → Confirmation tx now w w'
  confirm_tx-Confirmation tx now w w' job done =
      let (bal, bal_read) = sender_readable tx now w w' job done in
      let (fits, covered) = sums_fit tx now w w' job done bal bal_read in
      let (recv, recv_read) = receiver_readable tx now w w' job done bal bal_read in
      let (credit, recorded, batched, pooled) =
        writes tx now w w' job done bal bal_read recv recv_read in
      record {
        bal = bal;
        recv = recv;
        mid = (confirm_tx_batch badger tx_json (batch_of tx bal recv) now w.disk).1;
        bal_read = bal_read;
        recv_read = recv_read;
        total_within = fits;
        covered = covered;
        credit_within = credit;
        recorded = recorded;
        batched = batched;
        pooled = pooled;
      }
