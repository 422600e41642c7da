-- ===== src/Storage/NonceLock.antt =====
-- internal/storage/snapshot.go: NonceLockStore, the locks on a sender's nonce.
pub mod Locking
pub mod Race
use cdml.Common.{ℕ, ◌*◌, Bool, true, false, Bytes, Option, none, some, [], ◌∷◌}
use cdml.Core.Errors.{err, tx_nonce_locked}
use cdml.Core.Types.{PubKey, second}
use cdml.Exec.{Exec, pure, lift, or_else, ◌>>=◌}
use cdml.Storage.Badger.{Badger}
use cdml.Storage.Keys.{nonce_lock_key}
use cdml.Storage.Db

-- nonceLockTTL
abbrev pub nonce_lock_ttl : ℕ
nonce_lock_ttl = 15 * second

module _ (b : Badger) where
  open b use {Disk}

  -- what Lock does once it knows the entry
  unfoldable pub lock_unless : Option Bytes → Bytes → Exec Disk (Unit {0})
  lock_unless (some existing) key = lift (err tx_nonce_locked)
  lock_unless none key = Db.set_with_ttl b key (1 ∷ []) nonce_lock_ttl

  unfoldable pub lock : PubKey → ℕ → Exec Disk (Unit {0})
  unfolding lock_unless
  lock pk nonce = do
    existing ← or_else none (Db.get b (nonce_lock_key pk nonce))
    lock_unless existing (nonce_lock_key pk nonce)

  unfoldable pub unlock : PubKey → ℕ → Exec Disk (Unit {0})
  unlock pk nonce = Db.delete b (nonce_lock_key pk nonce)

  unfoldable pub is_locked : PubKey → ℕ → Exec Disk Bool
  is_locked pk nonce = do
    val ← or_else none (Db.get b (nonce_lock_key pk nonce))
    pure (elim val [ none ↦ false | some _ ↦ true ])
