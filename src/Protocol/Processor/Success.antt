-- ===== src/Protocol/Processor/Success.antt =====
-- ConfirmTx on a database that accepts its writes.
use cdml.Common.{
  ℕ, ◌+◌, ◌-◌, ◌%◌, ◌^◌, ◌≤◌, ◌<◌, Bytes, put_uint64, Option, none, some, ◌==◌, if◌then◌else◌, ◌≡◌,
  ◌≢◌, ◌∙◌, inl, inr, arith,
}
use cdml.Core.Errors.{Res, ok, panic, Res-cases}
use cdml.Core.Types.{Amount, Transaction, max_amount}
use cdml.Core.Amount.{safe_add, safe_sub, bond_amount}
use cdml.Storage.Badger.{Badger}
use cdml.Storage.Keys.{bal_key, seq_key, tx_key, reward_pool_key}
use cdml.Storage.Db
use cdml.Storage.Db.Laws.{set-ne-panic}
use cdml.Storage.Chain.{
  ConfirmBatch, batch_writes, get_balance, confirm_tx_batch, accumulate_bond, get_reward_pool,
}
use cdml.Storage.Chain.Batch.{confirm_tx_batch-Committed}
use cdml.Storage.Chain.Reads.{get_balance-disk}
use cdml.Protocol.Dag.{advance_tip}
use cdml.Protocol.Processor.World.{Libraries, LibraryLaws, World, snapshot_interval}
use cdml.Protocol.Processor.Confirm.{AutoSnapshot, confirm_tx, as_confirmed}
use cdml.Protocol.Processor.Steps.{batch_of}

-- every write is accepted, and an Update whose function succeeds commits
pub record IsHealthy (b : Badger) : Type 0 where
  pub set_succeeds : (k v : Bytes) (t : b.Txn) → (t' : b.Txn) × (b.set k v t ≡ ok t')
  pub update_succeeds :
      (f : b.Txn → Res b.Txn) (d : b.Disk) (t : b.Txn)
      → f (b.begin d) ≡ ok t
      → (b.update f d).0 ≡ ok tt

-- the call of autoSnapshot that ConfirmTx starts for a sender's new balance, at every 1000th sequence
abbrev pub job_of : Transaction → Amount → Option AutoSnapshot
job_of tx bal =
    if tx.sequence % snapshot_interval == 0
    then some (record { owner = tx.from; balance = bal; sequence = tx.sequence })
    else none

module _ (libs : Libraries) (healthy : IsHealthy libs.badger) where
  open libs use {badger, tx_json}

  batch_succeeds :
      (batch : ConfirmBatch) (bs : Bytes) (now : ℕ) (d : badger.Disk)
      → tx_json.marshal batch.tx ≡ ok bs
      → (confirm_tx_batch badger tx_json batch now d).0 ≡ ok tt
  unfolding confirm_tx_batch batch_writes Db.atomic_write
  batch_succeeds batch bs now d e =
      let (t1, e1) =
        healthy.set_succeeds (bal_key batch.tx.from) (put_uint64 batch.sender_bal)
          (badger.begin d) in
      let (t2, e2) =
        healthy.set_succeeds (bal_key batch.tx.to) (put_uint64 batch.receiver_bal) t1 in
      let (t3, e3) =
        healthy.set_succeeds (seq_key batch.tx.from) (put_uint64 batch.tx.sequence) t2 in
      let (t4, e4) = healthy.set_succeeds (tx_key batch.tx.from batch.tx.sequence) bs t3 in
      let written : batch_writes badger batch bs (badger.begin d) ≡ ok t4 =
        ground (arith, e1, e2, e3, e4) in
      ground (arith, e, healthy.update_succeeds (batch_writes badger batch bs) d t4 written)

  module _ (laws : LibraryLaws libs) where
    pool_calm :
        (bond now pool : ℕ) (d : badger.Disk)
        → (get_reward_pool badger now d).0 ≡ ok pool
        → (accumulate_bond badger bond now d).0 ≢ panic
    unfolding accumulate_bond safe_add Db.get
    pool_calm bond now pool d h e = ground (
      arith,
      set-ne-panic badger laws.badger_laws reward_pool_key (put_uint64 ((pool + bond) % 2 ^ 64)) now
          d,
    )

    -- On a database that accepts its writes, ConfirmTx succeeds whenever the sender's balance covers
    -- the amount and the bond, the sum and the receiver's new balance are within the maximum, the
    -- DAG accepts the parents, the transaction can be encoded and the fields fit; what it returns is
    -- the call of autoSnapshot that it starts, at every 1000th sequence.
    pub confirm_tx_succeeds :
        (tx : Transaction) (now bal recv pool : ℕ) (w : World libs) (bs : Bytes)
        → tx.sequence < 2 ^ 64
        → bal < 2 ^ 64
        → (get_balance badger tx.from now w.disk).0 ≡ ok bal
        → (get_balance badger tx.to now w.disk).0 ≡ ok recv
        → (get_reward_pool badger now w.disk).0 ≡ ok pool
        → tx.amount + bond_amount tx.amount ≤ max_amount
        → tx.amount + bond_amount tx.amount ≤ bal
        → recv + tx.amount ≤ max_amount
        → (advance_tip tx.hash tx.parent_hashes w.edges).0 ≡ ok tt
        → tx_json.marshal (as_confirmed tx) ≡ ok bs
        → (confirm_tx libs tx now w).0 ≡ ok (job_of tx (bal - (tx.amount + bond_amount tx.amount)))
    unfolding confirm_tx safe_add safe_sub
    confirm_tx_succeeds tx now bal recv pool w bs seq_fits bal_fits hb hr hp total covered within
          dag coded =
        let batch = batch_of libs tx bal recv in
        let (r, mid) = confirm_tx_batch badger tx_json batch now w.disk in
        let done : r ≡ ok tt = batch_succeeds batch bs now w.disk coded in
        let committed =
          confirm_tx_batch-Committed badger laws.badger_laws tx_json laws.tx_json_laws batch
            (record {
              sender_fits = omega arith;
              receiver_fits = omega arith;
              sequence_fits = seq_fits;
            })
            now w.disk mid (λ i. (done i, mid)) in
        let calm = pool_calm (bond_amount tx.amount) now pool mid (committed.pool_kept now ∙ hp) in
        elim (Res-cases (accumulate_bond badger (bond_amount tx.amount) now mid).0) [
          | inl (_, a) ↦ ground (
            arith,
            get_balance-disk badger tx.from now w.disk,
            get_balance-disk badger tx.to now w.disk,
          )
          | inr (inl (x, a)) ↦ ground (
            arith,
            get_balance-disk badger tx.from now w.disk,
            get_balance-disk badger tx.to now w.disk,
          )
          | inr (inr a) ↦ absurd (calm a)
        ]
