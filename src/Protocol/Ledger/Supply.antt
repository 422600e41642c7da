-- ===== src/Protocol/Ledger/Supply.antt =====
-- Confirmations neither make money nor lose it: what the accounts hold in sum, and the bonds.
use cdml.Common.{
  ℕ, ◌+◌, ◌-◌, ◌≤◌, true, false, contains, Bytes-discrete, ite, List, [], ◌∷◌, ◌≡◌, ◌≢◌, refl,
  arith,
}
use cdml.Core.Errors.{Res, ok}
use cdml.Core.Types.{PubKey, Transaction}
use cdml.Core.Amount.{bond_amount}
use cdml.Protocol.Processor.World.{Libraries, LibraryLaws, World}
use cdml.Protocol.Ledger.{LedgerCall, Book, pay, Turn, Turns, AllFit, run}
use cdml.Protocol.Ledger.LedgerCall.{confirm, credit, grant}
use cdml.Protocol.Ledger.Turn.{refused, paid, skipped, credited, granted}
use cdml.Protocol.Ledger.Turns.{done, turn}
use cdml.Protocol.Ledger.Shows.{Shows}
use cdml.Protocol.Ledger.Refines.{run-Turns}

-- what the accounts of a list hold together
abbrev pub sum : List PubKey → (PubKey → ℕ) → ℕ
sum [] f = 0
sum (q ∷ who) f = f q + sum who f

-- no account stands twice in the list
abbrev pub IsDistinct : List PubKey → Type 0
IsDistinct [] = Unit {0}
IsDistinct (q ∷ who) = (contains Bytes-discrete q who ≡ false) × IsDistinct who

-- a confirmation of a transaction between two different accounts of the list
abbrev pub IsTransfer : List PubKey → LedgerCall → Type 0
IsTransfer who (confirm tx) =
    (tx.from ≢ tx.to)
    × (contains Bytes-discrete tx.from who ≡ true)
    × (contains Bytes-discrete tx.to who ≡ true)
IsTransfer who (credit tx) = ⊥
IsTransfer who (grant pk amount) = ⊥

abbrev pub AllTransfers : List PubKey → List (ℕ × LedgerCall) → Type 0
AllTransfers who [] = Unit {0}
AllTransfers who ((_, c) ∷ calls) = IsTransfer who c × AllTransfers who calls

-- the bonds of the confirmations that succeeded
abbrev pub bonds : List (ℕ × LedgerCall) → List (Res (Unit {0})) → ℕ
bonds ((_, confirm tx) ∷ calls) (ok _ ∷ rs) = bond_amount tx.amount + bonds calls rs
bonds (_ ∷ calls) (_ ∷ rs) = bonds calls rs
bonds [] rs = 0
bonds calls [] = 0

-- a balance function with one value replaced
abbrev with : (PubKey → ℕ) → PubKey → ℕ → PubKey → ℕ
with f pk v q = ite (Bytes-discrete q pk) v (f q)

sum-with_absent :
    (f : PubKey → ℕ) (pk : PubKey) (v : ℕ) (who : List PubKey)
    → contains Bytes-discrete pk who ≡ false
    → sum who (with f pk v) ≡ sum who f
sum-with_absent f pk v [] h = refl
sum-with_absent f pk v (q ∷ who) h = ground (arith, sum-with_absent f pk v who)

sum-with :
    (f : PubKey → ℕ) (pk : PubKey) (v : ℕ) (who : List PubKey)
    → IsDistinct who
    → contains Bytes-discrete pk who ≡ true
    → sum who (with f pk v) + f pk ≡ sum who f + v
sum-with f pk v [] d h = cc
sum-with f pk v (q ∷ who) d h = ground (arith, sum-with f pk v who d.1, sum-with_absent f pk v who)

-- a payment between two of the accounts takes the bond out of the sum
sum-pay :
    (tx : Transaction) (book : Book) (who : List PubKey)
    → IsDistinct who
    → IsTransfer who (confirm tx)
    → tx.amount + bond_amount tx.amount ≤ book.balance tx.from
    → sum who (pay tx book).balance + bond_amount tx.amount ≡ sum who book.balance
sum-pay tx book who distinct (apart, from_in, to_in) covered =
    let left = book.balance tx.from - (tx.amount + bond_amount tx.amount) in
    let taken = with book.balance tx.from left in
    let untouched : taken tx.to ≡ book.balance tx.to = ground arith in
    omega (
      arith,
      sum-with book.balance tx.from left who distinct from_in,
      sum-with taken tx.to (book.balance tx.to + tx.amount) who distinct to_in,
      untouched,
      covered,
    )

sum-Turn :
    (who : List PubKey) (c : LedgerCall) (r : Res (Unit {0})) (now : ℕ)
    (calls : List (ℕ × LedgerCall)) (rs : List (Res (Unit {0}))) (book next : Book)
    → IsDistinct who
    → IsTransfer who c
    → Turn book c r next
    → sum who next.balance + bonds ((now, c) ∷ calls) (r ∷ rs)
      ≡ sum who book.balance + bonds calls rs
sum-Turn who _ _ now calls rs book next distinct t (refused (confirm tx) x) = refl
sum-Turn who _ _ now calls rs book next distinct t (refused (credit tx) x) = absurd t
sum-Turn who _ _ now calls rs book next distinct t (refused (grant pk amount) x) = absurd t
sum-Turn who _ _ now calls rs book next distinct t (paid tx covered within) =
    omega (arith, sum-pay tx book who distinct t covered)
sum-Turn who _ _ now calls rs book next distinct t (skipped tx old) = absurd t
sum-Turn who _ _ now calls rs book next distinct t (credited tx m new within) = absurd t
sum-Turn who _ _ now calls rs book next distinct t (granted pk amount) = absurd t

sum-Turns :
    (who : List PubKey) (calls : List (ℕ × LedgerCall)) (rs : List (Res (Unit {0})))
    (book last : Book)
    → IsDistinct who
    → AllTransfers who calls
    → Turns book calls rs last
    → sum who last.balance + bonds calls rs ≡ sum who book.balance
sum-Turns who [] _ book _ distinct all done = omega arith
sum-Turns who ((now, c) ∷ calls) _ book last distinct (t, all)
      (turn {next = next} {r = r} {rs = rs} step steps) =
    omega (
      arith,
      sum-Turn who c r now calls rs book next distinct t step,
      sum-Turns who calls rs next last distinct all steps,
    )

module _ (libs : Libraries) (laws : LibraryLaws libs) where
  -- No run of confirmations makes or loses money: on any database, which may refuse any write, the
  -- balances that the stores show of a list of accounts, after confirmations between different
  -- accounts of the list, and the bonds of those that succeeded add up to what the accounts held
  -- before. (Sequences are 64-bit.)
  pub run_conserves :
      (who : List PubKey) (calls : List (ℕ × LedgerCall)) (w : World libs) (book : Book)
      → IsDistinct who
      → AllTransfers who calls
      → AllFit calls
      → Shows libs laws w book
      → (last : Book) × Shows libs laws (run libs calls w).1 last
        × (sum who last.balance + bonds calls (run libs calls w).0 ≡ sum who book.balance)
  run_conserves who calls w book distinct all fit s =
      let (last, turns, after) = run-Turns libs laws calls w book fit s in
      (last, after, sum-Turns who calls (run libs calls w).0 book last distinct all turns)
