-- ===== src/Storage/Db.antt =====
-- internal/storage/db.go: the calls of the database that the stores make, and Open.
pub mod Laws
pub mod Scan
use cdml.Common.{ℕ, Bool, Bytes, Option, none, some, List, [], ◌∷◌}
use cdml.Core.Errors.{Res, ok, err, panic, key_not_found, wrapped, ◌>>=◌}
use cdml.Exec.{Exec}
use cdml.Storage.Badger.{Badger}

-- `if err == badger.ErrKeyNotFound { return nil, nil }`
abbrev pub nil_if_missing : Res Bytes → Res (Option Bytes)
nil_if_missing (ok v) = ok (some v)
nil_if_missing (err key_not_found) = ok none
nil_if_missing (err e) = err e
nil_if_missing panic = panic

-- how a database is opened
pub record Options : Type 0 where
  pub path : Bytes
  pub in_memory : Bool

-- Open; what badger.Open gives for a path and a mode is the first argument
unfoldable pub open_db : {D : Type 0} → (Bytes → Bool → Res D) → Options → Res D
open_db badger_open opts = wrapped (badger_open opts.path opts.in_memory)

module _ (b : Badger) where
  open b use {Disk, Txn, begin, peek, update}

  -- what DB.Get returns
  unfoldable pub read : Bytes → ℕ → Disk → Res (Option Bytes)
  read key now d = nil_if_missing (peek (begin d) now key)

  unfoldable pub get : Bytes → Exec Disk (Option Bytes)
  unfolding read
  get key now d = (read key now d, d)

  unfoldable pub atomic_write : (Txn → Res Txn) → Exec Disk (Unit {0})
  atomic_write fn now d = update fn d

  unfoldable pub set : Bytes → Bytes → Exec Disk (Unit {0})
  set key val now d = update (Badger.set b key val) d

  unfoldable pub set_with_ttl : Bytes → Bytes → ℕ → Exec Disk (Unit {0})
  set_with_ttl key val ttl now d = update (Badger.set_entry b now key val ttl) d

  unfoldable pub delete : Bytes → Exec Disk (Unit {0})
  delete key now d = update (Badger.delete b key) d

  -- the loop of SetBatch over the pairs, in the order in which Go ranges over the map
  unfoldable pub set_all : List (Bytes × Bytes) → Txn → Res Txn
  set_all [] t = ok t
  set_all ((k, v) ∷ pairs) t = do t' ← Badger.set b k v t; set_all pairs t'

  unfoldable pub set_batch : List (Bytes × Bytes) → Exec Disk (Unit {0})
  unfolding set_all
  set_batch pairs now d = update (set_all pairs) d
