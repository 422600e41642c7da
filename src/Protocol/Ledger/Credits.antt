-- ===== src/Protocol/Ledger/Credits.antt =====
-- SaveBalance and ApplyConfirmedTxBalance as calls that move money: the turns that they take in the book.
use cdml.Common.{
  ℕ, put_uint64, dec_le, Bool-cases, ◌+◌, ◌^◌, ◌≤◌, ◌<◌, false, [], ◌∷◌, ◌≡◌, ◌⊎◌, inl, inr, refl,
  sym, ap, ◌∙◌, subst, arith,
}
use cdml.Core.Errors.{Error, Res, ok, err, Res-cases}
use cdml.Core.Types.{PubKey, Transaction, max_amount}
use cdml.Core.Amount.{safe_add}
use cdml.Storage.Badger.{Badger}
use cdml.Storage.Keys.{bal_key, applied_key}
use cdml.Storage.Db
use cdml.Storage.Db.Laws.{SameReads-of_err, set-ne-panic}
use cdml.Storage.Chain.{save_balance, mark_confirmed_tx_applied}
use cdml.Storage.Chain.Reads.{get_balance-disk, is_confirmed_tx_applied-disk, SameLedger-of_reads}
use cdml.Protocol.Processor.World.{Libraries, LibraryLaws, World}
use cdml.Protocol.Processor.Confirm
use cdml.Protocol.Processor.Confirm.{AutoSnapshot, confirm_tx, apply_confirmed_tx_balance}
use cdml.Protocol.Processor.Credit.{apply_marked}
use cdml.Protocol.Ledger.{Book, put, perform}
use cdml.Protocol.Ledger.LedgerCall.{credit, grant}
use cdml.Protocol.Ledger.Turn.{refused, skipped, credited, granted}
use cdml.Protocol.Ledger.Shows.{Shows, Shows-same, saved-Shows, marked-Shows}
use cdml.Protocol.Ledger.Confirms.{Follows}

module _ (libs : Libraries) (laws : LibraryLaws libs) where
  open libs use {badger}

  -- a SaveBalance, whether it succeeds or not
  save_follows :
      (pk : PubKey) (amount now : ℕ) (w w' : World libs) (book : Book)
      → amount < 2 ^ 64
      → w'.disk ≡ (save_balance badger pk amount now w.disk).1
      → Shows libs laws w book
      → (((save_balance badger pk amount now w.disk).0 ≡ ok tt)
          × Shows libs laws w' (put pk amount book))
        ⊎ ((x : Error) × ((save_balance badger pk amount now w.disk).0 ≡ err x)
            × Shows libs laws w' book)
  unfolding save_balance Db.set
  save_follows pk amount now w w' book fits at s =
      let (r, d) = save_balance badger pk amount now w.disk in
      elim (Res-cases r) [
        | inl (_, e) ↦
            inl (e, saved-Shows libs laws pk amount now w w' book fits (λ i. (e i, sym at i)) s)
        | inr (inl (x, e)) ↦ inr (
          x,
          e,
          Shows-same libs laws w w' book
              (SameLedger-of_reads badger w.disk w'.disk (
                SameReads-of_err badger laws.badger_laws
                  (Badger.set badger (bal_key pk) (put_uint64 amount)) w.disk w'.disk x
                  (λ i. (e i, sym at i))))
              s,
        )
        | inr (inr e) ↦
            absurd
              (set-ne-panic badger laws.badger_laws (bal_key pk) (put_uint64 amount) now w.disk e)
      ]

  pub grant-Follows :
      (pk : PubKey) (amount now : ℕ) (w : World libs) (book : Book)
      → amount < 2 ^ 64
      → Shows libs laws w book
      → Follows libs laws (grant pk amount) book (perform libs (grant pk amount) now w)
  unfolding perform
  grant-Follows pk amount now w book fits s =
      let (r, w') = perform libs (grant pk amount) now w in
      elim (save_follows pk amount now w w' book fits refl s) [
        | inl (e, after) ↦
            subst (Follows libs laws (grant pk amount) book) (λ i. (sym e i, w'))
              (put pk amount book, granted pk amount, after)
        | inr (x, e, after) ↦
            subst (Follows libs laws (grant pk amount) book) (λ i. (sym e i, w'))
              (book, refused (grant pk amount) x, after)
      ]

  module _ (tx : Transaction) (now : ℕ) (w : World libs) (book : Book) (s : Shows libs laws w book)
      (new : book.applied tx.hash ≡ false) where
    sum : ℕ
    sum = book.balance tx.to + tx.amount

    saved : Res (Unit {0}) × badger.Disk
    saved = save_balance badger tx.to sum now w.disk

    after_save : World libs
    after_save = record w { disk = saved.1 }

    too_much :
        max_amount < sum → (x : Error) × (apply_confirmed_tx_balance libs tx now w ≡ (err x, w))
    unfolding apply_confirmed_tx_balance Confirm.credit sum
    too_much over = elim (Res-cases (safe_add (book.balance tx.to) tx.amount)) [
      | inl (n, e) ↦ absurd (unfold safe_add in ground arith)
      | inr (inl (x, e)) ↦ (
        x,
        ground (
          arith,
          is_confirmed_tx_applied-disk badger tx.hash now w.disk,
          get_balance-disk badger tx.to now w.disk,
          s.balances now tx.to,
          s.marks now tx.hash,
        ),
      )
      | inr (inr e) ↦ absurd (unfold safe_add in ground arith)
    ]

    save_failed :
        (x : Error)
        → sum ≤ max_amount
        → saved.0 ≡ err x
        → apply_confirmed_tx_balance libs tx now w ≡ (err x, after_save)
    unfolding apply_confirmed_tx_balance Confirm.credit safe_add sum saved after_save
    save_failed x within e = ground (
      arith,
      is_confirmed_tx_applied-disk badger tx.hash now w.disk,
      get_balance-disk badger tx.to now w.disk,
      s.balances now tx.to,
      s.marks now tx.hash,
    )

    after_mark : World libs
    after_mark = record w { disk = (mark_confirmed_tx_applied badger tx.hash now saved.1).1 }

    save_done :
        sum ≤ max_amount
        → saved.0 ≡ ok tt
        → apply_confirmed_tx_balance libs tx now w ≡ (ok tt, after_mark)
    unfolding apply_confirmed_tx_balance Confirm.credit safe_add sum saved after_mark
        mark_confirmed_tx_applied
    save_done within e = elim (Res-cases (mark_confirmed_tx_applied badger tx.hash now saved.1).0) [
      | inl (_, m) ↦ ground (
        arith,
        is_confirmed_tx_applied-disk badger tx.hash now w.disk,
        get_balance-disk badger tx.to now w.disk,
        s.balances now tx.to,
        s.marks now tx.hash,
      )
      | inr (inl (x, m)) ↦ ground (
        arith,
        is_confirmed_tx_applied-disk badger tx.hash now w.disk,
        get_balance-disk badger tx.to now w.disk,
        s.balances now tx.to,
        s.marks now tx.hash,
      )
      | inr (inr m) ↦
          absurd (set-ne-panic badger laws.badger_laws (applied_key tx.hash) (1 ∷ []) now saved.1 m)
    ]

    unmarked-Follows : Follows libs laws (credit tx) book (apply_confirmed_tx_balance libs tx now w)
    unfolding sum saved after_save after_mark
    unmarked-Follows = elim (dec_le sum max_amount) [
      | yes within ↦ elim (save_follows tx.to sum now w after_save book (omega arith) refl s) [
        | inl (e, put_there) ↦
            let (marked, after) =
              marked-Shows libs laws tx.hash now after_save after_mark (put tx.to sum book) refl
                put_there in
            subst (Follows libs laws (credit tx) book) (sym (save_done within e))
              (_, credited tx marked new within, after)
        | inr (x, e, same) ↦
            subst (Follows libs laws (credit tx) book) (sym (save_failed x within e))
              (book, refused (credit tx) x, same)
      ]
      | no over ↦
          let (x, out) = too_much (omega arith) in
          subst (Follows libs laws (credit tx) book) (sym out) (book, refused (credit tx) x, s)
    ]

  pub credit-Follows :
      (tx : Transaction) (now : ℕ) (w : World libs) (book : Book)
      → Shows libs laws w book
      → Follows libs laws (credit tx) book (apply_confirmed_tx_balance libs tx now w)
  credit-Follows tx now w book s = elim (Bool-cases (book.applied tx.hash)) [
    | inl old ↦
        subst (Follows libs laws (credit tx) book)
          (sym (apply_marked libs tx now w (s.marks now tx.hash ∙ ap ok old)))
          (book, skipped tx old, s)
    | inr new ↦ unmarked-Follows tx now w book s new
  ]
