-- ===== src/Storage/Badger.antt =====
-- What the program calls of github.com/dgraph-io/badger: a parameter, with the documented
-- behaviour that the stores rely on as a record of laws over it.
use cdml.Common.{ℕ, ◌+◌, ◌/◌, Bytes, Bytes-discrete, ite, Bool, ltb, if◌then◌else◌, ◌≡◌, ◌≢◌}
use cdml.Core.Errors.{Error, Res, ok, err, panic, key_not_found}
use cdml.Core.Types.{second}

pub record Badger : Type 1 where
  pub Disk : Type 0
  pub Txn : Type 0
  -- the transaction that View and Update hand to their function
  pub begin : Disk → Txn
  -- txn.Get and item.ValueCopy, at an instant
  pub peek : Txn → ℕ → Bytes → Res Bytes
  pub set : Bytes → Bytes → Txn → Res Txn
  -- txn.SetEntry(NewEntry(key, val).WithTTL(ttl)), at an instant
  pub set_entry : ℕ → Bytes → Bytes → ℕ → Txn → Res Txn
  pub delete : Bytes → Txn → Res Txn
  -- bdb.Update: run the function on a new transaction, and commit
  pub update : (Txn → Res Txn) → Disk → Res (Unit {0}) × Disk

-- An entry with a time to live is visible until the clock's second reaches that of its deadline.
abbrev pub is_live : ℕ → ℕ → ℕ → Bool
is_live now ttl τ = ltb (τ / second) ((now + ttl) / second)

module _ (b : Badger) where
  open b use {Disk, Txn, begin, peek, set, set_entry, delete, update}

  -- A transaction reads its own writes; a commit publishes what its transaction reads; an Update
  -- that returns an error changes nothing; and no call panics by itself.
  pub record BadgerLaws : Type 0 where
    pub peek-set :
        (k v j : Bytes) (τ : ℕ) (t t' : Txn)
        → set k v t ≡ ok t'
        → peek t' τ j ≡ ite (Bytes-discrete j k) (ok v) (peek t τ j)
    pub peek-set_entry :
        (now : ℕ) (k v : Bytes) (ttl : ℕ) (j : Bytes) (τ : ℕ) (t t' : Txn)
        → set_entry now k v ttl t ≡ ok t'
        → peek t' τ j
          ≡ ite
              (Bytes-discrete j k)
              (if is_live now ttl τ then ok v else err key_not_found)
              (peek t τ j)
    pub peek-delete :
        (k j : Bytes) (τ : ℕ) (t t' : Txn)
        → delete k t ≡ ok t'
        → peek t' τ j ≡ ite (Bytes-discrete j k) (err key_not_found) (peek t τ j)
    pub update_commits :
        (f : Txn → Res Txn) (d d' : Disk)
        → update f d ≡ (ok tt, d')
        → (t : Txn) × (f (begin d) ≡ ok t)
          × ((τ : ℕ) (j : Bytes) → peek (begin d') τ j ≡ peek t τ j)
    pub update_fails :
        (f : Txn → Res Txn) (d d' : Disk) (e : Error)
        → update f d ≡ (err e, d')
        → (τ : ℕ) (j : Bytes) → peek (begin d') τ j ≡ peek (begin d) τ j
    pub peek_calm : (t : Txn) (τ : ℕ) (j : Bytes) → peek t τ j ≢ panic
    pub update_calm :
        (f : Txn → Res Txn) (d : Disk) → ((t : Txn) → f t ≢ panic) → (update f d).0 ≢ panic
    pub set_calm : (k v : Bytes) (t : Txn) → set k v t ≢ panic
    pub set_entry_calm :
        (now : ℕ) (k v : Bytes) (ttl : ℕ) (t : Txn) → set_entry now k v ttl t ≢ panic
    pub delete_calm : (k : Bytes) (t : Txn) → delete k t ≢ panic
