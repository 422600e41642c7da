-- ===== src/Protocol/Processor/Credit.antt =====
-- ApplyConfirmedTxBalance: the credit for a transaction that was received as confirmed.
use cdml.Common.{
  ℕ, ◌+◌, ◌*◌, ◌^◌, ◌≤◌, ◌<◌, Bytes-discrete, ite, Bool, true, false, Option, ◌≡◌, ◌≢◌, ◌∙◌, arith,
}
use cdml.Core.Errors.{Res, ok}
use cdml.Core.Types.{PubKey, Transaction, max_amount}
use cdml.Core.Amount.{safe_add}
use cdml.Storage.Chain.{
  get_balance, save_balance, is_confirmed_tx_applied, mark_confirmed_tx_applied,
}
use cdml.Storage.Chain.Reads.{get_balance-disk, is_confirmed_tx_applied-disk}
use cdml.Storage.Chain.Single.{save_balance-BalanceSet, mark_keeps_balances}
use cdml.Protocol.Processor.World.{Libraries, LibraryLaws, World}
use cdml.Protocol.Processor.Confirm.{AutoSnapshot, confirm_tx, credit, apply_confirmed_tx_balance}
use cdml.Protocol.Processor.Steps.{confirm_tx-Confirmation}
use cdml.Protocol.Processor.Transfer.{balance, applied_after, confirm_tx-Transferred}

module _ (libs : Libraries) where
  open libs use {badger}

  -- the transaction's hash is marked as applied
  abbrev pub marked : World libs → ℕ → Transaction → Res Bool
  marked w now tx = (is_confirmed_tx_applied badger tx.hash now w.disk).0

  -- A transaction whose hash is marked is not credited again: the call succeeds and changes nothing.
  pub apply_marked :
      (tx : Transaction) (now : ℕ) (w : World libs)
      → marked w now tx ≡ ok true
      → apply_confirmed_tx_balance libs tx now w ≡ (ok tt, w)
  unfolding apply_confirmed_tx_balance
  apply_marked tx now w h = ground (arith, is_confirmed_tx_applied-disk badger tx.hash now w.disk)

  module _ (tx : Transaction) (now recv : ℕ) (w w' : World libs) (new : marked w now tx ≡ ok false)
      (read : (get_balance badger tx.to now w.disk).0 ≡ ok recv)
      (done : apply_confirmed_tx_balance libs tx now w ≡ (ok tt, w')) where
    saved : Res (Unit {0}) × badger.Disk
    saved = save_balance badger tx.to (recv + tx.amount) now w.disk

    credit_steps :
        (recv + tx.amount ≤ max_amount)
        × (saved.0 ≡ ok tt)
        × (w'.disk ≡ (mark_confirmed_tx_applied badger tx.hash now saved.1).1)
        × (w'.edges ≡ w.edges)
    unfolding apply_confirmed_tx_balance credit safe_add saved
    credit_steps = ground (
      arith,
      is_confirmed_tx_applied-disk badger tx.hash now w.disk,
      get_balance-disk badger tx.to now w.disk,
    )

  -- A transaction that is not marked is credited: a call that succeeds has added the amount to the
  -- receiver's balance, which stays within the maximum, and changed no other balance.
  pub apply_credits :
      (laws : LibraryLaws libs) (tx : Transaction) (now recv : ℕ) (w w' : World libs)
      → marked w now tx ≡ ok false
      → (get_balance badger tx.to now w.disk).0 ≡ ok recv
      → apply_confirmed_tx_balance libs tx now w ≡ (ok tt, w')
      → (recv + tx.amount ≤ max_amount)
        × ((τ : ℕ) (q : PubKey)
            → balance libs laws w' τ q
              ≡ ite (Bytes-discrete q tx.to) (ok (recv + tx.amount)) (balance libs laws w τ q))
  unfolding saved
  apply_credits laws tx now recv w w' new read done =
      let (fits, wrote, disk, _) = credit_steps tx now recv w w' new read done in
      let (r, d) = save_balance badger tx.to (recv + tx.amount) now w.disk in
      let set =
        save_balance-BalanceSet badger laws.badger_laws tx.to (recv + tx.amount) now w.disk d
          (omega arith) (λ i. (wrote i, d)) in
      (
        fits,
        λ τ q.
            rw (disk, mark_keeps_balances badger laws.badger_laws tx.hash now d τ q)
              (set.balances τ q),
      )

  -- ConfirmTx does not mark its transaction. So where the originator confirms a transaction that was
  -- not marked and then receives it back as confirmed, a call of ApplyConfirmedTxBalance that
  -- succeeds credits the receiver a second time: the balance has grown by twice the amount.
  pub confirm_then_apply_credits_twice :
      (laws : LibraryLaws libs) (tx : Transaction) (now later bal recv : ℕ) (w w' w2 : World libs)
      (job : Option AutoSnapshot)
      → tx.sequence < 2 ^ 64
      → bal < 2 ^ 64
      → tx.from ≢ tx.to
      → balance libs laws w now tx.from ≡ ok bal
      → balance libs laws w now tx.to ≡ ok recv
      → marked w later tx ≡ ok false
      → confirm_tx libs tx now w ≡ (ok job, w')
      → apply_confirmed_tx_balance libs tx later w' ≡ (ok tt, w2)
      → (τ : ℕ) → balance libs laws w2 τ tx.to ≡ ok (recv + 2 * tx.amount)
  confirm_then_apply_credits_twice laws tx now later bal recv w w' w2 job fits small apart hb hr new
        done applied τ =
      let c = confirm_tx-Confirmation libs tx now w w' job done in
      let bals : c.bal ≡ bal = cc (c.bal_read) in
      let credited =
        (confirm_tx-Transferred libs laws tx now bal recv w w' job fits small apart hb hr done
          later).receiver in
      let kept = applied_after libs laws tx now w w' c fits (omega arith) later tx.hash in
      let (_, after) =
        apply_credits laws tx later (recv + tx.amount) w' w2 (kept ∙ new) credited applied in
      let twice : recv + tx.amount + tx.amount ≡ recv + 2 * tx.amount = omega arith in
      ground (arith, after τ tx.to, twice)
