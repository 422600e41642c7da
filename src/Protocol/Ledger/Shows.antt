-- ===== src/Protocol/Ledger/Shows.antt =====
-- When the stores of a node show a book, and that each call keeps this.
use cdml.Common.{
  ℕ, ◌+◌, ◌^◌, ◌≤◌, ◌<◌, Bool, true, false, if◌then◌else◌, Option, ◌≡◌, [], ◌∷◌, inl, inr, sym, ◌∙◌,
  subst, arith,
}
use cdml.Core.Errors.{ok, Res-cases}
use cdml.Core.Types.{PubKey, Hash32, Transaction, max_amount}
use cdml.Core.Amount.{bond_amount}
use cdml.Storage.Badger.{Badger}
use cdml.Storage.Keys.{applied_key}
use cdml.Storage.Db
use cdml.Storage.Db.Laws.{SameReads-of_err, set-ne-panic}
use cdml.Storage.Chain.{save_balance, is_confirmed_tx_applied, mark_confirmed_tx_applied}
use cdml.Storage.Chain.Pool.{HasPool, accumulate_bond-HasPool}
use cdml.Storage.Chain.Reads.{SameLedger, SameLedger-of_reads}
use cdml.Storage.Chain.Single.{save_balance-BalanceSet, mark-Marked}
use cdml.Protocol.Processor.World.{Libraries, LibraryLaws, World}
use cdml.Protocol.Processor.Confirm.{AutoSnapshot, confirm_tx}
use cdml.Protocol.Processor.Steps.{confirm_tx-Confirmation}
use cdml.Protocol.Processor.Transfer.{balance, bal_after, applied_after, batch-Committed}
use cdml.Protocol.Ledger.{Book, pay, put, mark}

module _ (libs : Libraries) (laws : LibraryLaws libs) where
  open libs use {badger, tx_json}

  -- every balance and every mark can be read, at every instant, and is that of the book
  pub record Shows (w : World libs) (book : Book) : Type 0 where
    pub balances : (τ : ℕ) (q : PubKey) → balance libs laws w τ q ≡ ok (book.balance q)
    pub fits : (q : PubKey) → book.balance q < 2 ^ 64
    pub marks :
        (τ : ℕ) (h : Hash32) → (is_confirmed_tx_applied badger h τ w.disk).0 ≡ ok (book.applied h)
    pub pool : HasPool badger laws.badger_laws w.disk

  pub Shows-same :
      (w w' : World libs) (book : Book)
      → SameLedger badger w.disk w'.disk
      → Shows w book
      → Shows w' book
  Shows-same w w' book same s = record {
    balances = λ τ q. same.balances τ q ∙ s.balances τ q;
    fits = s.fits;
    marks = λ τ h. same.applied τ h ∙ s.marks τ h;
    pool = (s.pool.0, λ τ. same.pool τ ∙ s.pool.1 τ);
  }

  pub confirmed-Shows :
      (tx : Transaction) (now : ℕ) (w w' : World libs) (job : Option AutoSnapshot) (book : Book)
      → tx.sequence < 2 ^ 64
      → confirm_tx libs tx now w ≡ (ok job, w')
      → Shows w book
      → (tx.amount + bond_amount tx.amount ≤ book.balance tx.from)
        × (book.balance tx.to + tx.amount ≤ max_amount)
        × Shows w' (pay tx book)
  confirmed-Shows tx now w w' job book fits done s =
      let c = confirm_tx-Confirmation libs tx now w w' job done in
      let from_bal = s.balances now tx.from in
      let to_bal = s.balances now tx.to in
      let bals : c.bal ≡ book.balance tx.from = ground (arith, c.bal_read, from_bal) in
      let recvs : c.recv ≡ book.balance tx.to = ground (arith, c.recv_read, to_bal) in
      let small : c.bal < 2 ^ 64 = ground (arith, s.fits tx.from) in
      let covered : tx.amount + bond_amount tx.amount ≤ book.balance tx.from =
        omega (arith, c.covered) in
      let within : book.balance tx.to + tx.amount ≤ max_amount = omega (arith, c.credit_within) in
      (
        covered,
        within,
        record {
          balances = λ τ q. ground (
            arith,
            bal_after libs laws tx now w w' c fits small τ q,
            bals,
            recvs,
            s.balances τ q,
          );
          fits = λ q. ground (arith, s.fits q, s.fits tx.from);
          marks = λ τ h. applied_after libs laws tx now w w' c fits small τ h ∙ s.marks τ h;
          pool = subst (HasPool badger laws.badger_laws) (sym c.pooled) (
              accumulate_bond-HasPool badger laws.badger_laws (bond_amount tx.amount) now c.mid (
                s.pool.0,
                λ τ. (batch-Committed libs laws tx now w w' c fits small).pool_kept τ ∙ s.pool.1 τ,
              ));
        },
      )

  -- the disk after a balance was saved
  pub saved-Shows :
      (pk : PubKey) (amount now : ℕ) (w w' : World libs) (book : Book)
      → amount < 2 ^ 64
      → save_balance badger pk amount now w.disk ≡ (ok tt, w'.disk)
      → Shows w book
      → Shows w' (put pk amount book)
  saved-Shows pk amount now w w' book fits done s =
      let set =
        save_balance-BalanceSet badger laws.badger_laws pk amount now w.disk w'.disk fits done in
      record {
        balances = λ τ q. ground (arith, set.balances τ q, s.balances τ q);
        fits = λ q. ground (arith, s.fits q);
        marks = λ τ h. set.applied_kept τ h ∙ s.marks τ h;
        pool = (s.pool.0, λ τ. set.pool_kept τ ∙ s.pool.1 τ);
      }

  -- the disk after the attempt to mark a transaction
  pub marked-Shows :
      (hash : Hash32) (now : ℕ) (w w' : World libs) (book : Book)
      → w'.disk ≡ (mark_confirmed_tx_applied badger hash now w.disk).1
      → Shows w book
      → (marked : Bool) × Shows w' (if marked then mark hash book else book)
  unfolding mark_confirmed_tx_applied Db.set
  marked-Shows hash now w w' book at s =
      let (r, d) = mark_confirmed_tx_applied badger hash now w.disk in
      elim (Res-cases r) [
        | inl (_, e) ↦
            let m =
              mark-Marked badger laws.badger_laws hash now w.disk w'.disk (λ i. (e i, sym at i)) in
            (
              true,
              record {
                balances = λ τ q. m.balances_kept τ q ∙ s.balances τ q;
                fits = s.fits;
                marks = λ τ h. ground (arith, m.applied τ h, s.marks τ h);
                pool = (s.pool.0, λ τ. m.pool_kept τ ∙ s.pool.1 τ);
              },
            )
        | inr (inl (x, e)) ↦ (
          false,
          Shows-same w w' book
              (SameLedger-of_reads badger w.disk w'.disk (
                SameReads-of_err badger laws.badger_laws
                  (Badger.set badger (applied_key hash) (1 ∷ [])) w.disk w'.disk x
                  (λ i. (e i, sym at i))))
              s,
        )
        | inr (inr e) ↦
            absurd (set-ne-panic badger laws.badger_laws (applied_key hash) (1 ∷ []) now w.disk e)
      ]
