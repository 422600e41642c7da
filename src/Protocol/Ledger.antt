-- ===== src/Protocol/Ledger.antt =====
-- What the calls that move money promise: a book of balances and marks, and the turns that a call may
-- take in it. The calls are ConfirmTx and ApplyConfirmedTxBalance (internal/protocol/transaction.go),
-- and SaveBalance as the faucet makes it.
pub mod Shows
pub mod Confirms
pub mod Credits
pub mod Refines
pub mod Supply
use cdml.Common.{
  ℕ, ◌+◌, ◌-◌, ◌^◌, ◌≤◌, ◌<◌, Bool, true, false, if◌then◌else◌, Bytes-discrete, ite, List, [], ◌∷◌,
  ◌≡◌,
}
use cdml.Core.Errors.{Error, Res, ok, err}
use cdml.Core.Types.{PubKey, Hash32, Amount, Transaction, max_amount}
use cdml.Core.Amount.{bond_amount}
use cdml.Exec.{Exec, pure, ◌>>=◌}
use cdml.Protocol.Processor.World.{Libraries, World, on_disk}
use cdml.Protocol.Processor.Confirm.{confirm_tx, apply_confirmed_tx_balance}
use cdml.Storage.Chain.{save_balance}

pub data LedgerCall : Type 0 where
  confirm : Transaction → LedgerCall
  credit : Transaction → LedgerCall
  grant : PubKey → Amount → LedgerCall

module _ (libs : Libraries) where
  unfoldable pub perform : LedgerCall → Exec (World libs) (Unit {0})
  perform (confirm tx) = do _ ← confirm_tx libs tx; pure tt
  perform (credit tx) = apply_confirmed_tx_balance libs tx
  perform (grant pk amount) = on_disk libs (save_balance libs.badger pk amount)

  -- one call after another, each at its instant, whatever the calls before it returned; the result is
  -- what each call returned
  unfoldable pub run : List (ℕ × LedgerCall) → World libs → List (Res (Unit {0})) × World libs
  run [] w = ([], w)
  run ((now, c) ∷ calls) w =
      let (r, w') = perform c now w in let (rs, last) = run calls w' in (r ∷ rs, last)

pub record Book : Type 0 where
  pub balance : PubKey → ℕ
  pub applied : Hash32 → Bool

-- the receiver's balance is written last
abbrev pub pay : Transaction → Book → Book
pay tx book = record book {
  balance = λ q. ite (Bytes-discrete q tx.to) (book.balance tx.to + tx.amount) (
      ite (Bytes-discrete q tx.from) (book.balance tx.from - (tx.amount + bond_amount tx.amount))
        (book.balance q));
}

abbrev pub put : PubKey → ℕ → Book → Book
put pk amount book = record book {
  balance = λ q. ite (Bytes-discrete q pk) amount (book.balance q);
}

abbrev pub mark : Hash32 → Book → Book
mark hash book = record book { applied = λ h. ite (Bytes-discrete h hash) true (book.applied h) }

-- What a call may do to the book, by what it returns. The mark of a credit can get lost.
pub data Turn (book : Book) : LedgerCall → Res (Unit {0}) → Book → Type 0 where
  refused : (c : LedgerCall) (x : Error) → Turn book c (err x) book
  paid :
      (tx : Transaction)
      → tx.amount + bond_amount tx.amount ≤ book.balance tx.from
      → book.balance tx.to + tx.amount ≤ max_amount
      → Turn book (confirm tx) (ok tt) (pay tx book)
  skipped : (tx : Transaction) → book.applied tx.hash ≡ true → Turn book (credit tx) (ok tt) book
  credited :
      (tx : Transaction) (marked : Bool)
      → book.applied tx.hash ≡ false
      → book.balance tx.to + tx.amount ≤ max_amount
      → Turn book (credit tx) (ok tt) (
          if marked
          then mark tx.hash (put tx.to (book.balance tx.to + tx.amount) book)
          else put tx.to (book.balance tx.to + tx.amount) book)
  granted :
      (pk : PubKey) (amount : Amount) → Turn book (grant pk amount) (ok tt) (put pk amount book)

-- the turns of a run of calls
pub data Turns : Book → List (ℕ × LedgerCall) → List (Res (Unit {0})) → Book → Type 0 where
  done : {book : Book} → Turns book [] [] book
  turn :
      {book next last : Book} {now : ℕ} {c : LedgerCall} {calls : List (ℕ × LedgerCall)}
      {r : Res (Unit {0})} {rs : List (Res (Unit {0}))}
      → Turn book c r next
      → Turns next calls rs last
      → Turns book ((now, c) ∷ calls) (r ∷ rs) last

-- the numbers of a call are those of a uint64
abbrev pub Fits : LedgerCall → Type 0
Fits (confirm tx) = tx.sequence < 2 ^ 64
Fits (credit tx) = Unit {0}
Fits (grant pk amount) = amount < 2 ^ 64

abbrev pub AllFit : List (ℕ × LedgerCall) → Type 0
AllFit [] = Unit {0}
AllFit ((_, c) ∷ calls) = Fits c × AllFit calls
