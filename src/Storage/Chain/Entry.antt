-- ===== src/Storage/Chain/Entry.antt =====
-- internal/storage/chain.go: how the entries are decoded, and the writes of a confirmation.
use cdml.Common.{ℕ, Bytes, put_uint64, uint64, Option, none, some}
use cdml.Core.Errors.{Res, ok, panic, ◌>>=◌}
use cdml.Core.Types.{Amount, Transaction}
use cdml.Json.{Json}
use cdml.Storage.Badger.{Badger}
use cdml.Storage.Keys.{bal_key, seq_key, tx_key}

-- A stored counter: 0 if there is none; binary.BigEndian.Uint64 panics on a short value.
abbrev pub number : Option Bytes → Res ℕ
number none = ok 0
number (some v) = elim (uint64 v) [ none ↦ panic | some n ↦ ok n ]

pub record ConfirmBatch : Type 0 where
  pub tx : Transaction
  pub sender_bal : Amount
  pub receiver_bal : Amount

-- `json.Unmarshal(val, &tx)` of a value that is there
unfoldable pub decode : {A : Type 0} → Json A → Option Bytes → Res (Option A)
decode json none = ok none
decode json (some val) = do tx ← json.unmarshal val; ok (some tx)

-- the function that ConfirmTxBatch hands to AtomicWrite
unfoldable pub batch_writes : (b : Badger) → ConfirmBatch → Bytes → b.Txn → Res b.Txn
batch_writes b batch tx_data t0 = do
  t1 ← b.set (bal_key batch.tx.from) (put_uint64 batch.sender_bal) t0
  t2 ← b.set (bal_key batch.tx.to) (put_uint64 batch.receiver_bal) t1
  t3 ← b.set (seq_key batch.tx.from) (put_uint64 batch.tx.sequence) t2
  b.set (tx_key batch.tx.from batch.tx.sequence) tx_data t3
