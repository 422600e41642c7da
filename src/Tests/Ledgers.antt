-- ===== src/Tests/Ledgers.antt =====
-- Runs of the ledger's calls: a payment of alice to bob, its credit, and interleavings.
use cdml.Common.{
  ℕ, ◌+◌, Bytes-discrete, put_uint64, uint64, uint64-put_uint64, ite, replicate, true, false, List,
  [], ◌∷◌, none, ◌≡◌, refl, arith,
}
use cdml.Core.Errors.{ok}
use cdml.Core.Types.{Transaction}
use cdml.Core.Amount.{safe_add, safe_sub, bond_amount}
use cdml.Storage.Db
use cdml.Storage.Chain
use cdml.Storage.Keys.{bal_key, seq_key, tx_key, applied_key, reward_pool_key, nonce_lock_key}
use cdml.Storage.NonceLock.{is_locked}
use cdml.Storage.NonceLock.Race.{Phase, interleave, interleave_both_locked}
use cdml.Protocol.Dag.{advance_tip, add_edge}
use cdml.Protocol.Processor.World.{Libraries, LibraryLaws, World}
use cdml.Protocol.Processor.Confirm.{as_confirmed, credit, apply_confirmed_tx_balance}
use cdml.Protocol.Processor.Race.{prepare, settle, settle_loses_credit}
use cdml.Protocol.Processor.Transfer.{balance}
use cdml.Protocol.Ledger.{LedgerCall, Book, Turns, run}
use cdml.Protocol.Ledger.Shows.{Shows}
use cdml.Protocol.Ledger.Refines.{run-Turns}
use cdml.Protocol.Ledger.Supply.{sum, bonds, run_conserves}
use cdml.Tests.Instances.{in_memory, Transaction-discrete, libraries, libraries_laws}
use cdml.Tests.Accounts.{alice, bob, payment, snapshot, witnesses, funded}

abbrev libs : Libraries
libs = libraries (as_confirmed (payment bob)) snapshot witnesses

laws : LibraryLaws libs
laws = libraries_laws (as_confirmed (payment bob)) snapshot witnesses

abbrev before : World libs
before = record { disk = funded; edges = [] }

abbrev book : Book
book = record {
  balance = λ q. ite (Bytes-discrete q alice) 10_000 (ite (Bytes-discrete q bob) 500 0);
  applied = λ h. false;
}

before-Shows : Shows libs laws before book
unfolding Chain.get_balance Chain.is_confirmed_tx_applied Chain.get_reward_pool Db.get Db.read
    bal_key applied_key reward_pool_key
before-Shows = record {
  balances = λ τ q.
      ground (arith, uint64-put_uint64 10_000 (omega arith), uint64-put_uint64 500 (omega arith));
  fits = λ q. ground arith;
  marks = λ τ h. ground arith;
  pool = (0, λ τ. ground arith);
}

-- the payment is confirmed and comes back as confirmed, and the faucet sets alice's balance
abbrev calls : List (ℕ × LedgerCall)
calls =
    (5, LedgerCall.confirm (payment bob))
    ∷ (7, LedgerCall.credit (payment bob))
    ∷ (9, LedgerCall.grant alice 3)
    ∷ []

run-Turns_example :
    (last : Book) × Turns book calls (run libs calls before).0 last
    × Shows libs laws (run libs calls before).1 last
run-Turns_example =
    run-Turns libs laws calls before book (omega arith, (tt, (omega arith, tt))) before-Shows

-- the payment is confirmed twice
abbrev payments : List (ℕ × LedgerCall)
payments = (5, LedgerCall.confirm (payment bob)) ∷ (6, LedgerCall.confirm (payment bob)) ∷ []

run_conserves_example :
    (last : Book) × Shows libs laws (run libs payments before).1 last
    × (sum (alice ∷ bob ∷ []) last.balance + bonds payments (run libs payments before).0 ≡ 10_500)
unfolding Bytes-discrete
run_conserves_example =
    run_conserves libs laws (alice ∷ bob ∷ []) payments before book (refl, (refl, tt))
      ((λ e. ground (arith, e), refl, refl), ((λ e. ground (arith, e), refl, refl), tt))
      (omega arith, (omega arith, tt)) before-Shows

interleave_both_locked_example :
    (let race =
        interleave in_memory alice 9
          ((1, true) ∷ (2, false) ∷ (3, false) ∷ (4, true) ∷ [])
          (record { disk = funded; first = Phase.called; second = Phase.called }) in
      (race.first ≡ Phase.returned (ok tt)) × (race.second ≡ Phase.returned (ok tt)))
unfolding is_locked Db.get Db.read Db.set_with_ttl nonce_lock_key bal_key Bytes-discrete put_uint64
interleave_both_locked_example =
    interleave_both_locked in_memory alice 9 1 2 3 4 false funded (λ τ. refl) (λ τ d. refl)

-- bob's payment to alice, which she receives while hers is confirmed
abbrev received : Transaction
received = record (payment alice) { hash = replicate 32 8; from = bob }

abbrev after_credit : World libs
after_credit = (apply_confirmed_tx_balance libs received 6 before).1

abbrev after_settle : World libs
after_settle = (settle libs (payment bob) (7998, 500) 7 after_credit).1

settle_loses_credit_example :
    (balance libs laws after_credit 9 alice ≡ ok 12_000)
    × (balance libs laws after_settle 9 alice ≡ ok 7998)
unfolding prepare settle safe_add safe_sub bond_amount Db.get Db.read Chain.get_balance
    Chain.confirm_tx_batch Chain.batch_writes Chain.accumulate_bond Chain.get_reward_pool
    Db.atomic_write Db.set bal_key put_uint64 uint64 Bytes-discrete Transaction-discrete advance_tip
    add_edge reward_pool_key tx_key seq_key apply_confirmed_tx_balance credit
    Chain.is_confirmed_tx_applied Chain.mark_confirmed_tx_applied Chain.save_balance applied_key
settle_loses_credit_example =
    settle_loses_credit libs laws (payment bob) received 5 6 7 10_000 (7998, 500) before
      after_credit after_settle none (omega arith) (omega arith) (λ e. ground (arith, e)) refl
      (λ τ. refl) refl refl refl refl 9
