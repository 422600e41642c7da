-- ===== src/Storage/Db/Laws.antt =====
-- What DB.Get returns after each kind of write, from the laws of the database.
use cdml.Common.{ℕ, Bytes, Bytes-discrete, ite, if◌then◌else◌, none, some, ◌≡◌, ◌≢◌, arith}
use cdml.Core.Errors.{Error, Res, ok, err, panic}
use cdml.Storage.Badger.{Badger, BadgerLaws, is_live}
use cdml.Storage.Db.{read, set, set_with_ttl, delete}

module _ (b : Badger) where
  open b use {Disk, Txn, begin, peek, update}

  -- every read, at every later instant too, finds the same
  abbrev pub SameReads : Disk → Disk → Type 0
  SameReads d d' = (τ : ℕ) (j : Bytes) → read b j τ d' ≡ read b j τ d

  module _ (laws : BadgerLaws b) where
    open laws use {
      peek-set, peek-set_entry, peek-delete, update_commits, update_fails, update_calm, set_calm,
      set_entry_calm, delete_calm,
    }

    -- A write that reports an error has changed no entry.
    pub SameReads-of_err :
        (fn : Txn → Res Txn) (d d' : Disk) (e : Error) → update fn d ≡ (err e, d') → SameReads d d'
    unfolding read
    SameReads-of_err fn d d' e h τ j = rw (update_fails fn d d' e h τ j)

    -- After a successful Set the key has its value for good, and no other key has changed.
    pub read-set :
        (key val : Bytes) (now : ℕ) (d d' : Disk)
        → set b key val now d ≡ (ok tt, d')
        → (τ : ℕ) (j : Bytes)
        → read b j τ d' ≡ ite (Bytes-discrete j key) (ok (some val)) (read b j τ d)
    unfolding read set
    read-set key val now d d' h τ j =
        let (t, made, seen) = update_commits (Badger.set b key val) d d' h in
        rw (seen τ j, peek-set key val j τ (begin d) t made) (ground arith)

    -- After a successful SetWithTTL the key has its value until its deadline, and then no value.
    pub read-set_with_ttl :
        (key val : Bytes) (ttl now : ℕ) (d d' : Disk)
        → set_with_ttl b key val ttl now d ≡ (ok tt, d')
        → (τ : ℕ) (j : Bytes)
        → read b j τ d'
          ≡ ite
              (Bytes-discrete j key)
              (if is_live now ttl τ then ok (some val) else ok none)
              (read b j τ d)
    unfolding read set_with_ttl
    read-set_with_ttl key val ttl now d d' h τ j =
        let (t, made, seen) = update_commits (Badger.set_entry b now key val ttl) d d' h in
        rw (seen τ j, peek-set_entry now key val ttl j τ (begin d) t made) (ground arith)

    pub read-delete :
        (key : Bytes) (now : ℕ) (d d' : Disk)
        → delete b key now d ≡ (ok tt, d')
        → (τ : ℕ) (j : Bytes) → read b j τ d' ≡ ite (Bytes-discrete j key) (ok none) (read b j τ d)
    unfolding read delete
    read-delete key now d d' h τ j =
        let (t, made, seen) = update_commits (Badger.delete b key) d d' h in
        rw (seen τ j, peek-delete key j τ (begin d) t made) (ground arith)

    pub set-ne-panic : (key val : Bytes) (now : ℕ) (d : Disk) → (set b key val now d).0 ≢ panic
    unfolding set
    set-ne-panic key val now d = update_calm _ d (set_calm key val)
