-- ===== src/Storage/NonceLock/Race.antt =====
-- Two Locks of one nonce that run at once (internal/storage/snapshot.go): Lock looks for the entry in one
-- transaction of the database and writes it in another.
use cdml.Common.{ℕ, not, Bool, true, false, Bytes, Option, none, List, [], ◌∷◌, ◌≡◌, arith}
use cdml.Core.Errors.{Res, ok, err, panic}
use cdml.Core.Types.{PubKey}
use cdml.Storage.Badger.{Badger}
use cdml.Storage.Keys.{nonce_lock_key}
use cdml.Storage.Db
use cdml.Storage.NonceLock.{lock, lock_unless, is_locked, nonce_lock_ttl}

-- how far a call of Lock is
pub data Phase : Type 0 where
  called : Phase
  looked : Option Bytes → Phase
  returned : Res (Unit {0}) → Phase

module _ (b : Badger) where
  open b use {Disk}

  pub record Race : Type 0 where
    pub disk : Disk
    pub first : Phase
    pub second : Phase

  -- the next transaction of a call of Lock
  unfoldable pub advance : PubKey → ℕ → ℕ → Phase → Disk → Phase × Disk
  advance pk nonce now called d = elim (Db.get b (nonce_lock_key pk nonce) now d).0 [
    | ok existing ↦ (looked existing, d)
    | err _ ↦ (looked none, d)
    | panic ↦ (returned panic, d)
  ]
  advance pk nonce now (looked existing) d =
      let (r, d') = lock_unless b existing (nonce_lock_key pk nonce) now d in (returned r, d')
  advance pk nonce now (returned r) d = (returned r, d)

  -- an interleaving of two calls: at each instant one of them (the first, if true) goes on
  unfoldable pub interleave : PubKey → ℕ → List (ℕ × Bool) → Race → Race
  unfolding advance
  interleave pk nonce [] race = race
  interleave pk nonce ((now, true) ∷ steps) race =
      let (phase, d) = advance pk nonce now race.first race.disk in
      interleave pk nonce steps (record race { disk = d; first = phase })
  interleave pk nonce ((now, false) ∷ steps) race =
      let (phase, d) = advance pk nonce now race.second race.disk in
      interleave pk nonce steps (record race { disk = d; second = phase })

  -- a call that nobody interrupts is Lock
  pub interleave-lock :
      (pk : PubKey) (nonce now : ℕ) (d : Disk) (other : Phase)
      → interleave pk nonce
          ((now, true) ∷ (now, true) ∷ [])
          (record { disk = d; first = called; second = other })
        ≡ record {
          disk = (lock b pk nonce now d).1;
          first = returned (lock b pk nonce now d).0;
          second = other;
        }
  unfolding interleave lock Db.get
  interleave-lock pk nonce now d other = ground arith

  -- A nonce lock does not exclude a Lock that runs at the same time: of a nonce that is free, on a
  -- database that accepts the writes, two Locks that both look before either has written both
  -- succeed, whatever the instants and whichever writes first.
  pub interleave_both_locked :
      (pk : PubKey) (nonce a1 a2 a3 a4 : ℕ) (early : Bool) (d : Disk)
      → ((τ : ℕ) → (is_locked b pk nonce τ d).0 ≡ ok false)
      → ((τ : ℕ) (d : Disk)
          → (Db.set_with_ttl b (nonce_lock_key pk nonce) (1 ∷ []) nonce_lock_ttl τ d).0 ≡ ok tt)
      → (let race =
            interleave pk nonce
              ((a1, true) ∷ (a2, false) ∷ (a3, early) ∷ (a4, not early) ∷ [])
              (record { disk = d; first = called; second = called }) in
          (race.first ≡ returned (ok tt)) × (race.second ≡ returned (ok tt)))
  unfolding interleave lock_unless is_locked Db.get
  interleave_both_locked pk nonce a1 a2 a3 a4 early d free accepts =
      let write =
        λ (τ : ℕ). Db.set_with_ttl b (nonce_lock_key pk nonce) (1 ∷ []) nonce_lock_ttl τ in
      let second = accepts a4 (write a3 d).1 in
      elim early [
        | true ↦ ground (arith, free a1, free a2, accepts a3 d, second)
        | false ↦ ground (arith, free a1, free a2, accepts a3 d, second)
      ]
