-- ===== src/Tests/Transfers.antt =====
-- The ledger's theorems at a payment of alice to bob, and at one to herself.
use cdml.Common.{◌≡◌, refl, none, [], Bytes-discrete, put_uint64, uint64, arith}
use cdml.Core.Errors.{ok, failure, wrap}
use cdml.Core.Types.{PubKey}
use cdml.Core.Amount.{safe_add, safe_sub, bond_amount}
use cdml.Storage.Db
use cdml.Storage.Chain
use cdml.Storage.Chain.{get_tx, get_latest_seq}
use cdml.Storage.Chain.Reads.{SameLedger}
use cdml.Storage.Keys.{bal_key, seq_key, tx_key, applied_key, reward_pool_key}
use cdml.Protocol.Dag.{advance_tip, add_edge}
use cdml.Protocol.Processor.World.{Libraries, LibraryLaws, World}
use cdml.Protocol.Processor.Confirm.{confirm_tx, as_confirmed, apply_confirmed_tx_balance, credit}
use cdml.Protocol.Processor.Transfer.{
  balance, Transferred, confirm_tx-Transferred, confirm_tx_self_mints,
}
use cdml.Protocol.Processor.Atomic.{confirm_tx-atomic}
use cdml.Protocol.Processor.Credit.{confirm_then_apply_credits_twice}
use cdml.Tests.Instances.{in_memory, Transaction-discrete, libraries, libraries_laws}
use cdml.Tests.Accounts.{alice, bob, payment, snapshot, witnesses, funded}

-- the libraries of a node that can encode the payment to this account
abbrev libs : PubKey → Libraries
libs to = libraries (as_confirmed (payment to)) snapshot witnesses

laws : (to : PubKey) → LibraryLaws (libs to)
laws to = libraries_laws (as_confirmed (payment to)) snapshot witnesses

abbrev before : (to : PubKey) → World (libs to)
before to = record { disk = funded; edges = [] }

abbrev after : (to : PubKey) → World (libs to)
after to = (confirm_tx (libs to) (payment to) 5 (before to)).1

confirmed_to_bob : confirm_tx (libs bob) (payment bob) 5 (before bob) ≡ (ok none, after bob)
unfolding confirm_tx safe_add safe_sub bond_amount Db.get Db.read Chain.get_balance
    Chain.confirm_tx_batch Chain.batch_writes Chain.accumulate_bond Chain.get_reward_pool
    Db.atomic_write Db.set bal_key put_uint64 uint64 Bytes-discrete Transaction-discrete advance_tip
    add_edge reward_pool_key tx_key seq_key
confirmed_to_bob = refl

confirm_tx-Transferred_example :
    Transferred (libs bob) (laws bob) (payment bob) 10_000 500 (before bob) (after bob) 9
unfolding confirm_tx safe_add safe_sub bond_amount Db.get Db.read Chain.get_balance
    Chain.confirm_tx_batch Chain.batch_writes Chain.accumulate_bond Chain.get_reward_pool
    Db.atomic_write Db.set bal_key put_uint64 uint64 Bytes-discrete Transaction-discrete advance_tip
    add_edge reward_pool_key tx_key seq_key
confirm_tx-Transferred_example =
    confirm_tx-Transferred (libs bob) (laws bob) (payment bob) 5 10_000 500 (before bob) (after bob)
      none (omega arith) (omega arith) (λ e. ground (arith, e)) refl refl confirmed_to_bob 9

confirm_tx_self_mints_example : balance (libs alice) (laws alice) (after alice) 9 alice ≡ ok 12_000
unfolding confirm_tx safe_add safe_sub bond_amount Db.get Db.read Chain.get_balance
    Chain.confirm_tx_batch Chain.batch_writes Chain.accumulate_bond Chain.get_reward_pool
    Db.atomic_write Db.set bal_key put_uint64 uint64 Bytes-discrete Transaction-discrete advance_tip
    add_edge reward_pool_key tx_key seq_key
confirm_tx_self_mints_example =
    confirm_tx_self_mints (libs alice) (laws alice) (payment alice) 5 10_000 (before alice)
      (after alice) none (omega arith) (omega arith) refl refl refl 9

-- the node of `libs alice` cannot encode the payment to bob: the batch fails after the DAG's step
abbrev failed : World (libs alice)
failed = (confirm_tx (libs alice) (payment bob) 5 (before alice)).1

confirm_tx-atomic_example : SameLedger in_memory funded failed.disk
unfolding confirm_tx safe_add safe_sub bond_amount Db.get Db.read Chain.get_balance
    Chain.confirm_tx_batch Chain.batch_writes Chain.accumulate_bond Chain.get_reward_pool
    Db.atomic_write Db.set bal_key put_uint64 uint64 Bytes-discrete Transaction-discrete advance_tip
    add_edge reward_pool_key tx_key seq_key
confirm_tx-atomic_example =
    confirm_tx-atomic (libs alice) (laws alice) (payment bob) 5 (before alice) failed
      (wrap (wrap (failure 9))) refl

abbrev credited : World (libs bob) → World (libs bob)
credited w = (apply_confirmed_tx_balance (libs bob) (payment bob) 7 w).1

confirm_then_apply_credits_twice_example :
    balance (libs bob) (laws bob) (credited (after bob)) 9 bob ≡ ok 4500
unfolding confirm_tx safe_add safe_sub bond_amount Db.get Db.read Chain.get_balance
    Chain.confirm_tx_batch Chain.batch_writes Chain.accumulate_bond Chain.get_reward_pool
    Db.atomic_write Db.set bal_key put_uint64 uint64 Bytes-discrete Transaction-discrete advance_tip
    add_edge reward_pool_key tx_key seq_key apply_confirmed_tx_balance credit
    Chain.is_confirmed_tx_applied Chain.mark_confirmed_tx_applied Chain.save_balance applied_key
confirm_then_apply_credits_twice_example =
    confirm_then_apply_credits_twice (libs bob) (laws bob) (payment bob) 5 7 10_000 500 (before bob)
      (after bob) (credited (after bob)) none (omega arith) (omega arith) (λ e. ground (arith, e))
      refl refl refl confirmed_to_bob refl 9
