-- ===== src/Protocol/Ledger/Refines.antt =====
-- A run of the calls that move money, on any database, against the book.
use cdml.Common.{ℕ, List, [], ◌∷◌}
use cdml.Protocol.Processor.World.{Libraries, LibraryLaws, World}
use cdml.Protocol.Ledger.{LedgerCall, Book, Turns, Fits, AllFit, perform, run}
use cdml.Protocol.Ledger.LedgerCall.{confirm, credit, grant}
use cdml.Protocol.Ledger.Turns.{done, turn}
use cdml.Protocol.Ledger.Shows.{Shows}
use cdml.Protocol.Ledger.Confirms.{Follows, confirm-Follows}
use cdml.Protocol.Ledger.Credits.{grant-Follows, credit-Follows}

module _ (libs : Libraries) (laws : LibraryLaws libs) where
  perform-Follows :
      (c : LedgerCall) (now : ℕ) (w : World libs) (book : Book)
      → Fits c
      → Shows libs laws w book
      → Follows libs laws c book (perform libs c now w)
  perform-Follows (confirm tx) now w book fits s = confirm-Follows libs laws tx now w book fits s
  perform-Follows (credit tx) now w book fits s =
      unfold perform in credit-Follows libs laws tx now w book s
  perform-Follows (grant pk amount) now w book fits s =
      grant-Follows libs laws pk amount now w book fits s

  -- Any run of the calls that move money, at any instants, on a database that may refuse any write:
  -- when the stores show a book before, they show a book after, and each call has taken the book's
  -- turn for what it returned. A call that returns an error has changed nothing. A confirmation that
  -- succeeds was covered and has moved the amount and taken the bond, a credit that succeeds found
  -- the hash marked and changed nothing, or found it unmarked and has added the amount (its mark may
  -- be lost), and a grant that succeeds has set the balance. No call panics. (Sequences and granted
  -- balances are 64-bit.)
  pub run-Turns :
      (calls : List (ℕ × LedgerCall)) (w : World libs) (book : Book)
      → AllFit calls
      → Shows libs laws w book
      → (last : Book) × Turns book calls (run libs calls w).0 last
        × Shows libs laws (run libs calls w).1 last
  unfolding run
  run-Turns [] w book fits s = (book, done, s)
  run-Turns ((now, c) ∷ calls) w book (fit, fits) s =
      let (next, t, s') = perform-Follows c now w book fit s in
      let (last, ts, s2) = run-Turns calls (perform libs c now w).1 next fits s' in
      (last, turn t ts, s2)
