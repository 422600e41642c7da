-- ===== src/Storage/NonceLock/Locking.antt =====
-- A nonce lock excludes a second one until its deadline, and no longer.
use cdml.Common.{ℕ, ◌^◌, ◌<◌, length, false, [], ◌∷◌, if◌then◌else◌, ◌≡◌, ◌≢◌, arith, ◌⊎◌}
use cdml.Core.Errors.{ok, err, tx_nonce_locked}
use cdml.Core.Types.{PubKey}
use cdml.Storage.Badger.{Badger, BadgerLaws, is_live}
use cdml.Storage.Keys.{nonce_lock_key}
use cdml.Storage.Keys.Injective.{nonce_lock_key-injective}
use cdml.Storage.Db
use cdml.Storage.Db.{read}
use cdml.Storage.Db.Laws.{read-set_with_ttl, read-delete}
use cdml.Storage.NonceLock.{lock, unlock, is_locked, nonce_lock_ttl}

module _ (b : Badger) (laws : BadgerLaws b) where
  open b use {Disk}

  -- a Lock that succeeds has made its write
  lock-written :
      (pk : PubKey) (nonce now : ℕ) (d d' : Disk)
      → lock b pk nonce now d ≡ (ok tt, d')
      → Db.set_with_ttl b (nonce_lock_key pk nonce) (1 ∷ []) nonce_lock_ttl now d ≡ (ok tt, d')
  unfolding lock Db.get
  lock-written pk nonce now d d' h = ground arith

  -- After a Lock that succeeds, IsLocked answers true before the deadline, and false from the
  -- deadline on: the lock expires by itself.
  pub lock-is_locked :
      (pk : PubKey) (nonce now : ℕ) (d d' : Disk)
      → lock b pk nonce now d ≡ (ok tt, d')
      → (τ : ℕ) → (is_locked b pk nonce τ d').0 ≡ ok (is_live now nonce_lock_ttl τ)
  unfolding is_locked Db.get
  lock-is_locked pk nonce now d d' h τ =
      let key = nonce_lock_key pk nonce in
      let write = lock-written pk nonce now d d' h in
      ground (arith, read-set_with_ttl b laws key (1 ∷ []) nonce_lock_ttl now d d' write τ key)

  -- A held nonce cannot be locked again: until the deadline of the first Lock every further Lock of
  -- the same nonce of the same sender is refused with ErrTxNonceLocked and writes nothing. From the
  -- deadline on it is not refused for that reason: it makes its own write.
  pub lock_excludes :
      (pk : PubKey) (nonce now : ℕ) (d d' : Disk)
      → lock b pk nonce now d ≡ (ok tt, d')
      → (τ : ℕ)
      → lock b pk nonce τ d' ≡ (
          if is_live now nonce_lock_ttl τ
          then (err tx_nonce_locked, d')
          else Db.set_with_ttl b (nonce_lock_key pk nonce) (1 ∷ []) nonce_lock_ttl τ d')
  unfolding lock Db.get
  lock_excludes pk nonce now d d' h τ =
      let key = nonce_lock_key pk nonce in
      let write = lock-written pk nonce now d d' h in
      ground (arith, read-set_with_ttl b laws key (1 ∷ []) nonce_lock_ttl now d d' write τ key)

  -- After an Unlock that succeeds the nonce is not locked at any instant, whoever locked it.
  pub unlock-is_locked :
      (pk : PubKey) (nonce now : ℕ) (d d' : Disk)
      → unlock b pk nonce now d ≡ (ok tt, d')
      → (τ : ℕ) → (is_locked b pk nonce τ d').0 ≡ ok false
  unfolding is_locked unlock Db.get
  unlock-is_locked pk nonce now d d' h τ =
      let key = nonce_lock_key pk nonce in ground (arith, read-delete b laws key now d d' h τ key)

  -- Locks do not interfere: a successful Lock of one nonce leaves the answer about every other
  -- sender or nonce as it was (32-byte keys, 64-bit nonces).
  pub lock_separate :
      (p q : PubKey) (m n now : ℕ) (d d' : Disk)
      → length p ≡ 32
      → length q ≡ 32
      → m < 2 ^ 64
      → n < 2 ^ 64
      → (p ≢ q) ⊎ (m ≢ n)
      → lock b p m now d ≡ (ok tt, d')
      → (τ : ℕ) → (is_locked b q n τ d').0 ≡ (is_locked b q n τ d).0
  unfolding is_locked Db.get
  lock_separate p q m n now d d' hp hq hm hn apart h τ =
      let write = lock-written p m now d d' h in
      ground (
        arith,
        read-set_with_ttl b laws (nonce_lock_key p m) (1 ∷ []) nonce_lock_ttl now d d' write τ
            (nonce_lock_key q n),
        nonce_lock_key-injective q p n m hq hp hn hm,
      )
