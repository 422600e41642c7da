-- ===== src/Storage/Chain/Reads.antt =====
-- The reading methods leave the disk alone, and answer alike where every read does.
use cdml.Common.{ℕ, ◌≡◌, refl, arith}
use cdml.Core.Types.{PubKey, Hash32}
use cdml.Storage.Badger.{Badger}
use cdml.Storage.Keys.{bal_key, seq_key, applied_key, reward_pool_key}
use cdml.Storage.Db
use cdml.Storage.Db.{read}
use cdml.Storage.Db.Laws.{SameReads}
use cdml.Storage.Chain.{
  get_balance, has_balance, get_latest_seq, is_confirmed_tx_applied, get_reward_pool,
}

module _ (b : Badger) where
  open b use {Disk}

  pub get_balance-disk :
      (pk : PubKey) (now : ℕ) (d : Disk) → get_balance b pk now d ≡ ((get_balance b pk now d).0, d)
  unfolding get_balance Db.get
  get_balance-disk pk now d = ground arith

  pub has_balance-disk :
      (pk : PubKey) (now : ℕ) (d : Disk) → has_balance b pk now d ≡ ((has_balance b pk now d).0, d)
  unfolding has_balance Db.get
  has_balance-disk pk now d = ground arith

  pub get_latest_seq-disk :
      (pk : PubKey) (now : ℕ) (d : Disk)
      → get_latest_seq b pk now d ≡ ((get_latest_seq b pk now d).0, d)
  unfolding get_latest_seq Db.get
  get_latest_seq-disk pk now d = ground arith

  pub is_confirmed_tx_applied-disk :
      (h : Hash32) (now : ℕ) (d : Disk)
      → is_confirmed_tx_applied b h now d ≡ ((is_confirmed_tx_applied b h now d).0, d)
  unfolding is_confirmed_tx_applied Db.get
  is_confirmed_tx_applied-disk h now d = ground arith

  -- the answers of the store are the same at every instant
  pub record SameLedger (d d' : Disk) : Type 0 where
    pub balances : (τ : ℕ) (q : PubKey) → (get_balance b q τ d').0 ≡ (get_balance b q τ d).0
    pub sequences : (τ : ℕ) (q : PubKey) → (get_latest_seq b q τ d').0 ≡ (get_latest_seq b q τ d).0
    pub applied :
        (τ : ℕ) (h : Hash32)
        → (is_confirmed_tx_applied b h τ d').0 ≡ (is_confirmed_tx_applied b h τ d).0
    pub pool : (τ : ℕ) → (get_reward_pool b τ d').0 ≡ (get_reward_pool b τ d).0

  pub SameLedger-of_reads : (d d' : Disk) → SameReads b d d' → SameLedger d d'
  unfolding get_balance get_latest_seq is_confirmed_tx_applied get_reward_pool Db.get
  SameLedger-of_reads d d' same = record {
    balances = λ τ q. ground (arith, same τ (bal_key q));
    sequences = λ τ q. ground (arith, same τ (seq_key q));
    applied = λ τ h. ground (arith, same τ (applied_key h));
    pool = λ τ. ground (arith, same τ reward_pool_key);
  }

  pub SameLedger-refl : (d : Disk) → SameLedger d d
  SameLedger-refl d = record {
    balances = λ τ q. refl;
    sequences = λ τ q. refl;
    applied = λ τ h. refl;
    pool = λ τ. refl;
  }
