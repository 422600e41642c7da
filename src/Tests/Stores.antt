-- ===== src/Tests/Stores.antt =====
-- The stores' theorems on a database in memory.
use cdml.Common.{◌≡◌, refl, arith, Bytes-discrete, put_uint64, uint64}
use cdml.Core.Errors.{err, tx_nonce_locked}
use cdml.Core.Types.{Transaction, second}
use cdml.Json.{Json}
use cdml.Storage.Keys.{bal_key, seq_key, tx_key, nonce_lock_key}
use cdml.Storage.Db
use cdml.Storage.Chain.{ConfirmBatch, batch_writes, confirm_tx_batch}
use cdml.Storage.Chain.Batch.{Committed, confirm_tx_batch-Committed}
use cdml.Storage.NonceLock.{lock}
use cdml.Storage.NonceLock.Locking.{lock_excludes}
use cdml.Storage.Snapshots.{save_active_witnesses}
use cdml.Tests.Instances.{
  Memory, in_memory, in_memory_laws, codec, codec_laws, Transaction-discrete, Witnesses-discrete,
}
use cdml.Tests.Accounts.{alice, bob, payment, witnesses, funded}

abbrev json : Json Transaction
json = codec Transaction-discrete (payment bob)

abbrev batch : ConfirmBatch
batch = record { tx = payment bob; sender_bal = 7998; receiver_bal = 2500 }

abbrev batched : Memory
batched = (confirm_tx_batch in_memory json batch 5 funded).1

confirm_tx_batch-Committed_example : Committed in_memory in_memory_laws json batch funded batched
unfolding Db.get Db.read Db.set Db.set_with_ttl Db.delete Db.atomic_write put_uint64 uint64
    Bytes-discrete confirm_tx_batch batch_writes bal_key seq_key tx_key Transaction-discrete
confirm_tx_batch-Committed_example =
    confirm_tx_batch-Committed in_memory in_memory_laws json
      (codec_laws Transaction-discrete (payment bob)) batch
      (record {
        sender_fits = omega arith;
        receiver_fits = omega arith;
        sequence_fits = omega arith;
      })
      5 funded batched refl

-- a batch that cannot be encoded
abbrev unknown : ConfirmBatch
unknown = record { tx = payment alice; sender_bal = 7998; receiver_bal = 2500 }

abbrev locked : Memory
locked = (lock in_memory alice 9 0 funded).1

lock_excludes_example : lock in_memory alice 9 second locked ≡ (err tx_nonce_locked, locked)
unfolding Db.get Db.read Db.set Db.set_with_ttl Db.delete Db.atomic_write put_uint64 uint64
    Bytes-discrete lock nonce_lock_key bal_key
lock_excludes_example = lock_excludes in_memory in_memory_laws alice 9 0 funded locked refl second

abbrev registered : Memory
registered =
    (save_active_witnesses in_memory (codec Witnesses-discrete witnesses) witnesses 5 funded).1
