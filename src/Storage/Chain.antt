-- ===== src/Storage/Chain.antt =====
-- internal/storage/chain.go: ChainStore, the balances, sequences, transactions and the reward pool.
mod Entry
unfoldable pub use Entry.*
pub mod Batch
pub mod Reads
pub mod Single
pub mod Pool
use cdml.Common.{ℕ, Bool, true, false, Bytes, put_uint64, uint64, Option, none, some, [], ◌∷◌}
use cdml.Core.Types.{PubKey, Hash32, Amount, Transaction}
use cdml.Core.Amount.{safe_add}
use cdml.Exec.{Exec, pure, lift, or_else, wrapped, ◌>>=◌, ◌>>◌}
use cdml.Json.{Json}
use cdml.Storage.Badger.{Badger}
use cdml.Storage.Keys.{bal_key, seq_key, tx_key, applied_key, reward_pool_key}
use cdml.Storage.Db
use cdml.Storage.Db.{atomic_write}

-- `val != nil`
abbrev pub is_some : Option Bytes → Bool
is_some none = false
is_some (some _) = true

module _ (b : Badger) where
  open b use {Disk, Txn}

  unfoldable pub get_balance : PubKey → Exec Disk Amount
  get_balance pk = do val ← Db.get b (bal_key pk); lift (number val)

  unfoldable pub save_balance : PubKey → Amount → Exec Disk (Unit {0})
  save_balance pk bal = Db.set b (bal_key pk) (put_uint64 bal)

  unfoldable pub has_balance : PubKey → Exec Disk Bool
  has_balance pk = do val ← or_else none (Db.get b (bal_key pk)); pure (is_some val)

  unfoldable pub get_latest_seq : PubKey → Exec Disk ℕ
  get_latest_seq pk = do val ← Db.get b (seq_key pk); lift (number val)

  unfoldable pub save_latest_seq : PubKey → ℕ → Exec Disk (Unit {0})
  save_latest_seq pk seq = Db.set b (seq_key pk) (put_uint64 seq)

  unfoldable pub is_confirmed_tx_applied : Hash32 → Exec Disk Bool
  is_confirmed_tx_applied hash = do
    val ← or_else none (Db.get b (applied_key hash))
    pure (is_some val)

  unfoldable pub mark_confirmed_tx_applied : Hash32 → Exec Disk (Unit {0})
  mark_confirmed_tx_applied hash = Db.set b (applied_key hash) (1 ∷ [])

  unfoldable pub get_reward_pool : Exec Disk Amount
  get_reward_pool = do val ← Db.get b reward_pool_key; lift (number val)

  unfoldable pub accumulate_bond : Amount → Exec Disk (Unit {0})
  unfolding get_reward_pool
  accumulate_bond bond = do
    pool ← get_reward_pool
    new_pool ← lift (safe_add pool bond)
    Db.set b reward_pool_key (put_uint64 new_pool)

  module _ (json : Json Transaction) where
    open json use {marshal, unmarshal}

    unfoldable pub save_tx : Transaction → Exec Disk (Unit {0})
    save_tx tx = do data' ← wrapped (lift (marshal tx)); Db.set b (tx_key tx.from tx.sequence) data'

    unfoldable pub get_tx : PubKey → ℕ → Exec Disk (Option Transaction)
    get_tx pk seq = do val ← Db.get b (tx_key pk seq); lift (decode json val)

    unfoldable pub confirm_tx_batch : ConfirmBatch → Exec Disk (Unit {0})
    confirm_tx_batch batch = do
      tx_data ← wrapped (lift (marshal batch.tx))
      atomic_write b (batch_writes b batch tx_data)
