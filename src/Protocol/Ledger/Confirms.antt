-- ===== src/Protocol/Ledger/Confirms.antt =====
-- ConfirmTx as a call that moves money: the turn that it takes in the book.
use cdml.Common.{ℕ, ◌+◌, ◌^◌, ◌≤◌, ◌<◌, ◌≡◌, ◌≢◌, inl, inr, sym, ◌∙◌, subst, arith}
use cdml.Core.Errors.{Res, ok, err, panic, Res-cases}
use cdml.Core.Types.{Transaction, max_amount}
use cdml.Core.Amount.{bond_amount, safe_add, safe_sub}
use cdml.Storage.Chain.{ConfirmBatch, confirm_tx_batch, accumulate_bond}
use cdml.Storage.Chain.Batch.{confirm_tx_batch-ne-panic, confirm_tx_batch-Committed}
use cdml.Storage.Chain.Pool.{accumulate_bond-ne-panic}
use cdml.Storage.Chain.Reads.{get_balance-disk}
use cdml.Protocol.Dag.Tip.{advance_tip-ne-panic}
use cdml.Protocol.Processor.World.{Libraries, LibraryLaws, World}
use cdml.Protocol.Processor.Confirm.{confirm_tx}
use cdml.Protocol.Processor.Atomic.{confirm_tx-atomic}
use cdml.Protocol.Processor.Steps.{batch_of}
use cdml.Protocol.Ledger.{LedgerCall, Book, pay, Turn, perform}
use cdml.Protocol.Ledger.LedgerCall.{confirm}
use cdml.Protocol.Ledger.Turn.{refused, paid}
use cdml.Protocol.Ledger.Shows.{Shows, Shows-same, confirmed-Shows}

module _ (libs : Libraries) (laws : LibraryLaws libs) where
  open libs use {badger, tx_json}

  -- what a call may leave behind
  abbrev pub Follows : LedgerCall → Book → Res (Unit {0}) × World libs → Type 0
  Follows c book (r, w') = (next : Book) × Turn book c r next × Shows libs laws w' next

  module _ (tx : Transaction) (now : ℕ) (w : World libs) (book : Book) (fits : tx.sequence < 2 ^ 64)
      (s : Shows libs laws w book) where
    batch : ConfirmBatch
    batch = batch_of libs tx (book.balance tx.from) (book.balance tx.to)

    bond_calm :
        (mid : badger.Disk)
        → tx.amount + bond_amount tx.amount ≤ book.balance tx.from
        → book.balance tx.to + tx.amount ≤ max_amount
        → confirm_tx_batch badger tx_json batch now w.disk ≡ (ok tt, mid)
        → (accumulate_bond badger (bond_amount tx.amount) now mid).0 ≢ panic
    unfolding batch
    bond_calm mid covered within batched =
        let committed =
          confirm_tx_batch-Committed badger laws.badger_laws tx_json laws.tx_json_laws batch
            (record {
              sender_fits = omega (arith, s.fits tx.from);
              receiver_fits = omega arith;
              sequence_fits = fits;
            })
            now w.disk mid batched in
        accumulate_bond-ne-panic badger laws.badger_laws (bond_amount tx.amount) now mid
          (s.pool.0, λ τ. committed.pool_kept τ ∙ s.pool.1 τ)

    -- with the stores in order, ConfirmTx does not panic
    confirm_calm : (confirm_tx libs tx now w).0 ≢ panic
    unfolding confirm_tx safe_add safe_sub batch
    confirm_calm h =
        let written = confirm_tx_batch badger tx_json batch now w.disk in
        elim (Res-cases written.0) [
          | inl (_, e) ↦ ground (
            arith,
            get_balance-disk badger tx.from now w.disk,
            get_balance-disk badger tx.to now w.disk,
            s.balances now tx.from,
            s.balances now tx.to,
            advance_tip-ne-panic tx.hash tx.parent_hashes w.edges,
            bond_calm written.1,
          )
          | inr (inl (x, e)) ↦ ground (
            arith,
            get_balance-disk badger tx.from now w.disk,
            get_balance-disk badger tx.to now w.disk,
            s.balances now tx.from,
            s.balances now tx.to,
            advance_tip-ne-panic tx.hash tx.parent_hashes w.edges,
          )
          | inr (inr e) ↦
              confirm_tx_batch-ne-panic badger laws.badger_laws tx_json laws.tx_json_laws batch now
                w.disk e
        ]

    pub confirm-Follows : Follows (confirm tx) book (perform libs (confirm tx) now w)
    unfolding perform
    confirm-Follows =
        let (r, w') = confirm_tx libs tx now w in
        elim (Res-cases r) [
          | inl (job, e) ↦
              let (covered, within, after) =
                confirmed-Shows libs laws tx now w w' job book fits (λ i. (e i, w')) s in
              let out : perform libs (confirm tx) now w ≡ (ok tt, w') = ground arith in
              subst (Follows (confirm tx) book) (sym out)
                (pay tx book, paid tx covered within, after)
          | inr (inl (x, e)) ↦
              let out : perform libs (confirm tx) now w ≡ (err x, w') = ground arith in
              subst (Follows (confirm tx) book) (sym out) (
                book,
                refused (confirm tx) x,
                Shows-same libs laws w w' book
                    (confirm_tx-atomic libs laws tx now w w' x (λ i. (e i, w'))) s,
              )
          | inr (inr e) ↦ absurd (confirm_calm e)
        ]
