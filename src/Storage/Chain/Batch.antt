-- ===== src/Storage/Chain/Batch.antt =====
-- ConfirmTxBatch is atomic: after an error no entry has changed, and after a success exactly the
-- two balances, the sender's sequence and the transaction's record have.
use cdml.Common.{
  ℕ, ◌^◌, ◌<◌, Bytes, Bytes-discrete, put_uint64, uint64-put_uint64, ite, Option, some, ◌≡◌, ◌≢◌,
  refl, arith, inl, inr,
}
use cdml.Core.Errors.{Error, Res, ok, err, panic, ◌>>=◌, Res-cases}
use cdml.Core.Types.{PubKey, Hash32, Transaction}
use cdml.Json.{Json, JsonLaws}
use cdml.Storage.Badger.{Badger, BadgerLaws}
use cdml.Storage.Keys.{bal_key, seq_key, tx_key, applied_key, reward_pool_key}
use cdml.Storage.Db
use cdml.Storage.Db.{read, atomic_write, nil_if_missing}
use cdml.Storage.Db.Laws.{SameReads, SameReads-of_err}
use cdml.Storage.Chain.{
  ConfirmBatch, decode, batch_writes, get_balance, get_latest_seq, get_tx, get_reward_pool,
  is_confirmed_tx_applied, confirm_tx_batch,
}

-- the numbers of a batch are uint64
pub record Fits (batch : ConfirmBatch) : Type 0 where
  pub sender_fits : batch.sender_bal < 2 ^ 64
  pub receiver_fits : batch.receiver_bal < 2 ^ 64
  pub sequence_fits : batch.tx.sequence < 2 ^ 64

pub >>=-eq-ok {ℓ κ} :
    {A : Type ℓ} {B : Type κ} (m : Res A) (f : A → Res B) {c : B}
    → (m >>= f) ≡ ok c
    → (a : A) × (m ≡ ok a) × (f a ≡ ok c)
>>=-eq-ok (ok a) f h = (a, refl, h)
>>=-eq-ok (err e) f h = cc
>>=-eq-ok panic f h = cc

module _ (b : Badger) (laws : BadgerLaws b) where
  open b use {Disk, Txn, begin, peek, set}

  -- the four writes, as seen by a read
  abbrev overlay : ConfirmBatch → Bytes → Bytes → Res (Option Bytes) → Res (Option Bytes)
  overlay batch tx_data j before =
      ite (Bytes-discrete j (tx_key batch.tx.from batch.tx.sequence)) (ok (some tx_data)) (
        ite (Bytes-discrete j (seq_key batch.tx.from)) (ok (some (put_uint64 batch.tx.sequence))) (
          ite (Bytes-discrete j (bal_key batch.tx.to)) (ok (some (put_uint64 batch.receiver_bal))) (
            ite (Bytes-discrete j (bal_key batch.tx.from)) (ok (some (put_uint64 batch.sender_bal)))
              before)))

  -- a Set and what follows it
  peek-set_then :
      (k v : Bytes) (f : Txn → Res Txn) (t t2 : Txn)
      → (set k v t >>= f) ≡ ok t2
      → (t1 : Txn) × (f t1 ≡ ok t2)
        × ((τ : ℕ) (j : Bytes) → peek t1 τ j ≡ ite (Bytes-discrete j k) (ok v) (peek t τ j))
  peek-set_then k v f t t2 h =
      let (t1, made, rest) = >>=-eq-ok (set k v t) f h in
      (t1, rest, λ τ j. laws.peek-set k v j τ t t1 made)

  peek-batch_writes :
      (batch : ConfirmBatch) (bs : Bytes) (t0 t : Txn)
      → batch_writes b batch bs t0 ≡ ok t
      → (τ : ℕ) (j : Bytes)
      → nil_if_missing (peek t τ j) ≡ overlay batch bs j (nil_if_missing (peek t0 τ j))
  unfolding batch_writes
  peek-batch_writes batch bs t0 t h τ j =
      let key = tx_key batch.tx.from batch.tx.sequence in
      let sequence = put_uint64 batch.tx.sequence in
      let last = set key bs in
      let third = λ (x : Txn). set (seq_key batch.tx.from) sequence x >>= last in
      let second =
        λ (x : Txn). set (bal_key batch.tx.to) (put_uint64 batch.receiver_bal) x >>= third in
      let (t1, r1, e1) =
        peek-set_then (bal_key batch.tx.from) (put_uint64 batch.sender_bal) second t0 t h in
      let (t2, r2, e2) =
        peek-set_then (bal_key batch.tx.to) (put_uint64 batch.receiver_bal) third t1 t r1 in
      let (t3, r3, e3) = peek-set_then (seq_key batch.tx.from) sequence last t2 t r2 in
      rw (laws.peek-set key bs j τ t3 t r3, e3 τ j, e2 τ j, e1 τ j) (ground arith)

  batch_writes-ne-panic :
      (batch : ConfirmBatch) (bs : Bytes) (t : Txn) → batch_writes b batch bs t ≢ panic
  unfolding batch_writes
  batch_writes-ne-panic batch bs t h = grind (arith, laws.set_calm)

  module _ (json : Json Transaction) where
    -- what a successful batch has made of the disk, for every key that is read afterwards
    read-confirm_tx_batch :
        (batch : ConfirmBatch) (now : ℕ) (d d' : Disk)
        → confirm_tx_batch b json batch now d ≡ (ok tt, d')
        → (bs : Bytes) × (json.marshal batch.tx ≡ ok bs)
          × ((τ : ℕ) (j : Bytes) → read b j τ d' ≡ overlay batch bs j (read b j τ d))
    unfolding confirm_tx_batch atomic_write read
    read-confirm_tx_batch batch now d d' h = elim (Res-cases (json.marshal batch.tx)) [
      | inl (bs, e) ↦
          let (t, made, seen) = laws.update_commits (batch_writes b batch bs) d d' (rw e at h) in
          (bs, e, λ τ j. rw (seen τ j) (peek-batch_writes batch bs (begin d) t made τ j))
      | inr (inl (x, e)) ↦ absurd (ground arith)
      | inr (inr e) ↦ absurd (ground arith)
    ]

    -- The disk after a confirmation, by what the store's methods answer at any later instant.
    pub record Committed (batch : ConfirmBatch) (d d' : Disk) : Type 0 where
      pub balances :
          (τ : ℕ) (pk : PubKey)
          → (get_balance b pk τ d').0
            ≡ ite (Bytes-discrete pk batch.tx.to) (ok batch.receiver_bal) (
                ite
                  (Bytes-discrete pk batch.tx.from)
                  (ok batch.sender_bal)
                  (get_balance b pk τ d).0)
      pub sequences :
          (τ : ℕ) (pk : PubKey)
          → (get_latest_seq b pk τ d').0
            ≡ ite
                (Bytes-discrete pk batch.tx.from)
                (ok batch.tx.sequence)
                (get_latest_seq b pk τ d).0
      pub recorded :
          (τ : ℕ) → (get_tx b json batch.tx.from batch.tx.sequence τ d').0 ≡ ok (some batch.tx)
      pub applied_kept :
          (τ : ℕ) (h : Hash32)
          → (is_confirmed_tx_applied b h τ d').0 ≡ (is_confirmed_tx_applied b h τ d).0
      pub pool_kept : (τ : ℕ) → (get_reward_pool b τ d').0 ≡ (get_reward_pool b τ d).0

    module _ (coded : JsonLaws json) (batch : ConfirmBatch) (fits : Fits batch) (now : ℕ)
        (d d' : Disk) (done : confirm_tx_batch b json batch now d ≡ (ok tt, d')) where
      balances_after :
          (τ : ℕ) (pk : PubKey)
          → (get_balance b pk τ d').0
            ≡ ite (Bytes-discrete pk batch.tx.to) (ok batch.receiver_bal) (
                ite
                  (Bytes-discrete pk batch.tx.from)
                  (ok batch.sender_bal)
                  (get_balance b pk τ d).0)
      unfolding get_balance Db.get bal_key seq_key tx_key
      balances_after τ pk =
          let (bs, _, seen) = read-confirm_tx_batch batch now d d' done in
          ground (
            arith,
            seen τ (bal_key pk),
            uint64-put_uint64 batch.sender_bal fits.sender_fits,
            uint64-put_uint64 batch.receiver_bal fits.receiver_fits,
          )

      sequences_after :
          (τ : ℕ) (pk : PubKey)
          → (get_latest_seq b pk τ d').0
            ≡ ite
                (Bytes-discrete pk batch.tx.from)
                (ok batch.tx.sequence)
                (get_latest_seq b pk τ d).0
      unfolding get_latest_seq Db.get bal_key seq_key tx_key
      sequences_after τ pk =
          let (bs, _, seen) = read-confirm_tx_batch batch now d d' done in
          ground
            (arith, seen τ (seq_key pk), uint64-put_uint64 batch.tx.sequence fits.sequence_fits)

      recorded_after :
          (τ : ℕ) → (get_tx b json batch.tx.from batch.tx.sequence τ d').0 ≡ ok (some batch.tx)
      unfolding get_tx Db.get decode
      recorded_after τ =
          let (bs, coding, seen) = read-confirm_tx_batch batch now d d' done in
          ground (
            arith,
            seen τ (tx_key batch.tx.from batch.tx.sequence),
            coded.unmarshal-marshal batch.tx bs coding,
          )

      applied_after :
          (τ : ℕ) (h : Hash32)
          → (is_confirmed_tx_applied b h τ d').0 ≡ (is_confirmed_tx_applied b h τ d).0
      unfolding is_confirmed_tx_applied Db.get applied_key bal_key seq_key tx_key
      applied_after τ h =
          let (bs, _, seen) = read-confirm_tx_batch batch now d d' done in
          ground (arith, seen τ (applied_key h))

      pool_after : (τ : ℕ) → (get_reward_pool b τ d').0 ≡ (get_reward_pool b τ d).0
      unfolding get_reward_pool Db.get reward_pool_key bal_key seq_key tx_key
      pool_after τ =
          let (bs, _, seen) = read-confirm_tx_batch batch now d d' done in
          ground (arith, seen τ reward_pool_key)

      -- A batch that succeeds has set the two balances, the sequence and the record of its
      -- transaction, the receiver's balance last, and no other balance, sequence, mark or pool.
      pub confirm_tx_batch-Committed : Committed batch d d'
      confirm_tx_batch-Committed = record {
        balances = balances_after;
        sequences = sequences_after;
        recorded = recorded_after;
        applied_kept = applied_after;
        pool_kept = pool_after;
      }

    -- A batch that returns an error has changed no entry.
    pub confirm_tx_batch-atomic :
        (batch : ConfirmBatch) (now : ℕ) (d d' : Disk) (e : Error)
        → confirm_tx_batch b json batch now d ≡ (err e, d')
        → SameReads b d d'
    unfolding confirm_tx_batch atomic_write
    confirm_tx_batch-atomic batch now d d' e h = elim (Res-cases (json.marshal batch.tx)) [
      | inl (bs, c) ↦ SameReads-of_err b laws (batch_writes b batch bs) d d' e (rw c at h)
      | inr (inl (x, c)) ↦ ground arith
      | inr (inr c) ↦ ground arith
    ]

    pub confirm_tx_batch-ne-panic :
        (coded : JsonLaws json) (batch : ConfirmBatch) (now : ℕ) (d : Disk)
        → (confirm_tx_batch b json batch now d).0 ≢ panic
    unfolding confirm_tx_batch atomic_write
    confirm_tx_batch-ne-panic coded batch now d h = elim (Res-cases (json.marshal batch.tx)) [
      | inl (bs, c) ↦
          laws.update_calm (batch_writes b batch bs) d (batch_writes-ne-panic batch bs) (rw c at h)
      | inr (inl (x, c)) ↦ ground arith
      | inr (inr c) ↦ coded.marshal_calm batch.tx c
    ]
