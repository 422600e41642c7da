-- ===== src/Protocol/Processor/Atomic.antt =====
-- A ConfirmTx that fails has changed nothing that the ledger can show.
use mathlib.Core.Logic.{⊎_elim}
use cdml.Common.{sym, subst, ℕ, ◌≡◌, ◌⊎◌, inl, inr, ◌≢◌, arith}
use cdml.Core.Errors.{Error, Res, ok, err, panic, Res-cases}
use cdml.Core.Errors
use cdml.Core.Types.{Transaction}
use cdml.Core.Amount.{safe_add, safe_sub}
use cdml.Storage.Chain.{get_balance, confirm_tx_batch}
use cdml.Storage.Chain.Batch.{confirm_tx_batch-atomic}
use cdml.Storage.Chain.Reads.{get_balance-disk, SameLedger, SameLedger-of_reads, SameLedger-refl}
use cdml.Protocol.Processor.World.{Libraries, LibraryLaws, World}
use cdml.Protocol.Processor.Confirm.{confirm_tx}
use cdml.Protocol.Processor.Steps.{batch_of}

module _ (libs : Libraries) where
  open libs use {badger, tx_json}

  module _ (tx : Transaction) (now : ℕ) (w w' : World libs) (e : Error)
      (failed : confirm_tx libs tx now w ≡ (err e, w')) where
    -- either no write was reached, or the batch was the last and failed
    batch_or_nothing :
        (bal : ℕ)
        → (get_balance badger tx.from now w.disk).0 ≡ ok bal
        → (recv : ℕ) → Errors.or_else 0 (get_balance badger tx.to now w.disk).0 ≡ ok recv
        → (w'.disk ≡ w.disk)
          ⊎ ((x : Error) × (confirm_tx_batch badger tx_json (batch_of libs tx bal recv) now w.disk
                ≡ (err x, w'.disk)))
    unfolding confirm_tx safe_add safe_sub
    batch_or_nothing bal hb recv hr =
        let readable = get_balance-disk badger tx.from now w.disk in
        let readable' = get_balance-disk badger tx.to now w.disk in
        let batch = batch_of libs tx bal recv in
        let written = confirm_tx_batch badger tx_json batch now w.disk in
        elim (Res-cases written.0) [
          | inl (_, c) ↦ inl (ground arith)
          | inr (inl (x, c)) ↦
              let reached : (w'.disk ≡ w.disk) ⊎ (w'.disk ≡ written.1) = ground arith in
              ⊎_elim inl (λ r. inr (x, λ i. (c i, sym r i))) reached
          | inr (inr c) ↦ inl (ground arith)
        ]

    sender_unreadable :
        (x : Error) → (get_balance badger tx.from now w.disk).0 ≡ err x → w'.disk ≡ w.disk
    unfolding confirm_tx
    sender_unreadable x hb = ground (arith, get_balance-disk badger tx.from now w.disk)

    receiver_panics :
        (bal : ℕ)
        → (get_balance badger tx.from now w.disk).0 ≡ ok bal
        → (get_balance badger tx.to now w.disk).0 ≡ panic
        → w'.disk ≡ w.disk
    unfolding confirm_tx safe_add safe_sub
    receiver_panics bal hb hr = ground (
      arith,
      get_balance-disk badger tx.from now w.disk,
      get_balance-disk badger tx.to now w.disk,
    )

    sender_panics : (get_balance badger tx.from now w.disk).0 ≢ panic
    unfolding confirm_tx
    sender_panics hb = ground (arith, get_balance-disk badger tx.from now w.disk)

    nothing_or_batch :
        (w'.disk ≡ w.disk)
        ⊎ ((bal : ℕ) × (recv : ℕ) × (x : Error) × (confirm_tx_batch badger tx_json
                (batch_of libs tx bal recv)
                now
                w.disk
              ≡ (err x, w'.disk)))
    nothing_or_batch = elim (Res-cases (get_balance badger tx.from now w.disk).0) [
      | inl (bal, hb) ↦ elim (Res-cases (get_balance badger tx.to now w.disk).0) [
        | inl (recv, hr) ↦
            ⊎_elim inl (λ (x, f). inr (bal, recv, x, f)) (batch_or_nothing bal hb recv (rw hr))
        | inr (inl (_, hr)) ↦
            ⊎_elim inl (λ (x, f). inr (bal, 0, x, f)) (batch_or_nothing bal hb 0 (rw hr))
        | inr (inr hr) ↦ inl (receiver_panics bal hb hr)
      ]
      | inr (inl (x, hb)) ↦ inl (sender_unreadable x hb)
      | inr (inr hb) ↦ absurd (sender_panics hb)
    ]

  -- A ConfirmTx that returns an error, for whatever reason, leaves every balance, every sequence,
  -- every mark and the pool as they were. (The DAG may have gained edges.)
  pub confirm_tx-atomic :
      (laws : LibraryLaws libs) (tx : Transaction) (now : ℕ) (w w' : World libs) (e : Error)
      → confirm_tx libs tx now w ≡ (err e, w')
      → SameLedger badger w.disk w'.disk
  confirm_tx-atomic laws tx now w w' e failed =
      ⊎_elim (λ same. subst (SameLedger badger w.disk) (sym same) (SameLedger-refl badger w.disk))
        (λ (bal, recv, x, f). SameLedger-of_reads badger w.disk w'.disk (
          confirm_tx_batch-atomic badger laws.badger_laws tx_json (batch_of libs tx bal recv) now
            w.disk w'.disk x f))
        (nothing_or_batch tx now w w' e failed)
