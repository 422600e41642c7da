-- ===== src/Protocol/Processor/Confirm.antt =====
-- TxProcessor.ConfirmTx, ApplyConfirmedTxBalance and autoSnapshot.
use cdml.Common.{ℕ, ◌+◌, ◌%◌, true, false, ◌==◌, if◌then◌else◌, Option, none, some}
use cdml.Core.Types.{PubKey, Amount, Transaction, confirmed}
use cdml.Core.Amount.{safe_add, safe_sub, bond_amount}
use cdml.Exec.{Exec, pure, lift, or_else, wrapped, ◌>>=◌, ◌>>◌}
use cdml.Storage.Chain.{
  get_balance, save_balance, confirm_tx_batch, accumulate_bond, is_confirmed_tx_applied,
  mark_confirmed_tx_applied,
}
use cdml.Storage.Snapshots.{save_snapshot}
use cdml.Protocol.Dag.{advance_tip, current_tips}
use cdml.Protocol.Processor.World.{
  Libraries, World, on_disk, on_dag, gets, snapshot_interval, snapshot_ttl,
}

-- the call of autoSnapshot that ConfirmTx starts as a goroutine
pub record AutoSnapshot : Type 0 where
  pub owner : PubKey
  pub balance : Amount
  pub sequence : ℕ

-- `tx.Status = core.TxConfirmed`
abbrev pub as_confirmed : Transaction → Transaction
as_confirmed tx = record tx { status = confirmed }

module _ (libs : Libraries) where
  open libs use {badger, tx_json, snapshot_json}

  -- The result is the goroutine that was started, if any.
  unfoldable pub confirm_tx : Transaction → Exec (World libs) (Option AutoSnapshot)
  confirm_tx tx = do
    bal ← wrapped (on_disk libs (get_balance badger tx.from))
    total ← lift (safe_add tx.amount (bond_amount tx.amount))
    new_sender_bal ← wrapped (lift (safe_sub bal total))
    recv_bal ← or_else 0 (on_disk libs (get_balance badger tx.to))
    new_recv_bal ← lift (safe_add recv_bal tx.amount)
    wrapped (on_dag libs (advance_tip tx.hash tx.parent_hashes))
    wrapped (
        on_disk libs (
          confirm_tx_batch badger tx_json (record {
            tx = as_confirmed tx;
            sender_bal = new_sender_bal;
            receiver_bal = new_recv_bal;
          })))
    or_else tt (on_disk libs (accumulate_bond badger (bond_amount tx.amount)))
    pure (
        if tx.sequence % snapshot_interval == 0
        then some (record { owner = tx.from; balance = new_sender_bal; sequence = tx.sequence })
        else none)

  -- the credit of ApplyConfirmedTxBalance, when the transaction is not marked
  unfoldable pub credit : Transaction → Exec (World libs) (Unit {0})
  credit tx = do
    recv_bal ← or_else 0 (on_disk libs (get_balance badger tx.to))
    new_bal ← lift (safe_add recv_bal tx.amount)
    on_disk libs (save_balance badger tx.to new_bal)
    or_else tt (on_disk libs (mark_confirmed_tx_applied badger tx.hash))

  unfoldable pub apply_confirmed_tx_balance : Transaction → Exec (World libs) (Unit {0})
  unfolding credit
  apply_confirmed_tx_balance tx = do
    applied ← on_disk libs (is_confirmed_tx_applied badger tx.hash)
    elim applied [ true ↦ pure tt | false ↦ credit tx ]

  unfoldable pub auto_snapshot : AutoSnapshot → Exec (World libs) (Unit {0})
  auto_snapshot job now =
      (do
        tips ← gets libs (λ w. current_tips w.edges)
        or_else tt (
            on_disk libs (
              save_snapshot badger snapshot_json (record {
                pub_key = job.owner;
                sequence = job.sequence;
                balance = job.balance;
                dag_tips = tips;
                created_at = now;
                expires_at = now + snapshot_ttl;
              }))))
        now
