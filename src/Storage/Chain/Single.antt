-- ===== src/Storage/Chain/Single.antt =====
-- The writes of one entry: a balance, a mark of an applied transaction, the reward pool.
use cdml.Common.{
  ℕ, ◌+◌, ◌^◌, ◌<◌, ◌≤◌, Bytes, Bytes-discrete, put_uint64, uint64-put_uint64, ite, [], ◌∷◌, true,
  ◌≡◌, ◌≢◌, ◌⊎◌, refl, sym, ◌∙◌, arith, inl, inr,
}
use cdml.Core.Errors.{ok, Res-cases}
use cdml.Core.Types.{PubKey, Hash32, Amount, max_amount}
use cdml.Core.Amount.{safe_add}
use cdml.Core.Amount.Bounds.{safe_add_exact}
use cdml.Storage.Badger.{Badger, BadgerLaws}
use cdml.Storage.Keys.{bal_key, seq_key, applied_key, reward_pool_key}
use cdml.Storage.Db
use cdml.Storage.Db.{read}
use cdml.Storage.Db.Laws.{SameReads, SameReads-of_err, read-set, set-ne-panic}
use cdml.Storage.Chain.{
  get_balance, save_balance, get_latest_seq, get_reward_pool, is_confirmed_tx_applied,
  mark_confirmed_tx_applied, accumulate_bond,
}

module _ (b : Badger) (laws : BadgerLaws b) where
  open b use {Disk}

  -- SaveBalance sets that balance, and no other balance, sequence, mark or pool.
  pub record BalanceSet (pk : PubKey) (bal : Amount) (d d' : Disk) : Type 0 where
    pub balances :
        (τ : ℕ) (q : PubKey)
        → (get_balance b q τ d').0 ≡ ite (Bytes-discrete q pk) (ok bal) (get_balance b q τ d).0
    pub sequences_kept :
        (τ : ℕ) (q : PubKey) → (get_latest_seq b q τ d').0 ≡ (get_latest_seq b q τ d).0
    pub applied_kept :
        (τ : ℕ) (h : Hash32)
        → (is_confirmed_tx_applied b h τ d').0 ≡ (is_confirmed_tx_applied b h τ d).0
    pub pool_kept : (τ : ℕ) → (get_reward_pool b τ d').0 ≡ (get_reward_pool b τ d).0

  -- A SaveBalance that succeeds has set the balance of that account, for every later read, and has left
  -- every other balance, every sequence, every mark and the pool as they were (64-bit balances).
  pub save_balance-BalanceSet :
      (pk : PubKey) (bal now : ℕ) (d d' : Disk)
      → bal < 2 ^ 64
      → save_balance b pk bal now d ≡ (ok tt, d')
      → BalanceSet pk bal d d'
  unfolding save_balance get_balance get_latest_seq is_confirmed_tx_applied get_reward_pool Db.get
      bal_key seq_key applied_key reward_pool_key
  save_balance-BalanceSet pk bal now d d' fits h =
      let seen = read-set b laws (bal_key pk) (put_uint64 bal) now d d' h in
      record {
        balances = λ τ q. ground (arith, seen τ (bal_key q), uint64-put_uint64 bal fits);
        sequences_kept = λ τ q. ground (arith, seen τ (seq_key q));
        applied_kept = λ τ q. ground (arith, seen τ (applied_key q));
        pool_kept = λ τ. ground (arith, seen τ reward_pool_key);
      }

  -- MarkConfirmedTxApplied marks that hash, and changes no other mark, no balance and not the pool.
  pub record Marked (hash : Hash32) (d d' : Disk) : Type 0 where
    pub applied :
        (τ : ℕ) (h : Hash32)
        → (is_confirmed_tx_applied b h τ d').0
          ≡ ite (Bytes-discrete h hash) (ok true) (is_confirmed_tx_applied b h τ d).0
    pub balances_kept : (τ : ℕ) (q : PubKey) → (get_balance b q τ d').0 ≡ (get_balance b q τ d).0
    pub pool_kept : (τ : ℕ) → (get_reward_pool b τ d').0 ≡ (get_reward_pool b τ d).0

  pub mark-Marked :
      (hash : Hash32) (now : ℕ) (d d' : Disk)
      → mark_confirmed_tx_applied b hash now d ≡ (ok tt, d')
      → Marked hash d d'
  unfolding mark_confirmed_tx_applied get_balance is_confirmed_tx_applied get_reward_pool Db.get
      bal_key applied_key reward_pool_key
  mark-Marked hash now d d' h =
      let seen = read-set b laws (applied_key hash) (1 ∷ []) now d d' h in
      record {
        applied = λ τ q. ground (arith, seen τ (applied_key q));
        balances_kept = λ τ q. ground (arith, seen τ (bal_key q));
        pool_kept = λ τ. ground (arith, seen τ reward_pool_key);
      }

  -- AccumulateBond, however it ends, keeps every balance, sequence and mark.
  pub record PoolOnly (d d' : Disk) : Type 0 where
    pub reads_kept : (τ : ℕ) (j : Bytes) → j ≢ reward_pool_key → read b j τ d' ≡ read b j τ d
    pub balances_kept : (τ : ℕ) (q : PubKey) → (get_balance b q τ d').0 ≡ (get_balance b q τ d).0
    pub sequences_kept :
        (τ : ℕ) (q : PubKey) → (get_latest_seq b q τ d').0 ≡ (get_latest_seq b q τ d).0
    pub applied_kept :
        (τ : ℕ) (h : Hash32)
        → (is_confirmed_tx_applied b h τ d').0 ≡ (is_confirmed_tx_applied b h τ d).0

  written :
      (bond now pool : ℕ) (d : Disk)
      → (get_reward_pool b now d).0 ≡ ok pool
      → pool + bond ≤ max_amount
      → accumulate_bond b bond now d ≡ Db.set b reward_pool_key (put_uint64 (pool + bond)) now d
  unfolding accumulate_bond Db.get
  written bond now pool d h fits =
      ground (arith, (safe_add_exact pool bond (pool + bond)).1 (fits, refl))

  -- When the pool can be read and the sum is within the maximum, a successful AccumulateBond has
  -- added the bond to the pool and kept every balance.
  pub accumulate_bond_adds :
      (bond now pool : ℕ) (d d' : Disk)
      → (get_reward_pool b now d).0 ≡ ok pool
      → pool + bond ≤ max_amount
      → accumulate_bond b bond now d ≡ (ok tt, d')
      → (τ : ℕ)
      → ((get_reward_pool b τ d').0 ≡ ok (pool + bond))
        × ((q : PubKey) → (get_balance b q τ d').0 ≡ (get_balance b q τ d).0)
  unfolding get_reward_pool get_balance Db.get reward_pool_key bal_key
  accumulate_bond_adds bond now pool d d' h fits done τ =
      let seen =
        read-set b laws reward_pool_key (put_uint64 (pool + bond)) now d d'
          (sym (written bond now pool d h fits) ∙ done) in
      (
        ground (arith, seen τ reward_pool_key, uint64-put_uint64 (pool + bond) (omega arith)),
        λ q. ground (arith, seen τ (bal_key q)),
      )

  accumulate_bond-cases :
      (bond now : ℕ) (d : Disk)
      → ((accumulate_bond b bond now d).1 ≡ d)
        ⊎ ((new_pool : ℕ) × (accumulate_bond b bond now d
              ≡ Db.set b reward_pool_key (put_uint64 new_pool) now d))
  unfolding accumulate_bond Db.get
  accumulate_bond-cases bond now d = elim (Res-cases (get_reward_pool b now d).0) [
    | inl (pool, e) ↦ elim (Res-cases (safe_add pool bond)) [
      | inl (sum, s) ↦ inr (sum, ground arith)
      | inr (inl (x, s)) ↦ inl (ground arith)
      | inr (inr s) ↦ inl (ground arith)
    ]
    | inr (inl (x, e)) ↦ inl (ground arith)
    | inr (inr e) ↦ inl (ground arith)
  ]

  PoolOnly-of_reads :
      (d d' : Disk)
      → ((τ : ℕ) (j : Bytes) → j ≢ reward_pool_key → read b j τ d' ≡ read b j τ d)
      → PoolOnly d d'
  unfolding get_latest_seq get_balance is_confirmed_tx_applied Db.get reward_pool_key bal_key
      seq_key applied_key
  PoolOnly-of_reads d d' same = record {
    reads_kept = same;
    balances_kept = λ τ q. ground (arith, same τ (bal_key q));
    sequences_kept = λ τ q. ground (arith, same τ (seq_key q));
    applied_kept = λ τ h. ground (arith, same τ (applied_key h));
  }

  set_pool-keeps :
      (v : Bytes) (now : ℕ) (d : Disk) (τ : ℕ) (j : Bytes)
      → j ≢ reward_pool_key
      → read b j τ (Db.set b reward_pool_key v now d).1 ≡ read b j τ d
  unfolding Db.set
  set_pool-keeps v now d τ j ne =
      let w = Db.set b reward_pool_key v now d in
      elim (Res-cases w.0) [
        | inl (done, e) ↦
            ground (arith, read-set b laws reward_pool_key v now d w.1 (λ i. (e i, w.1)) τ j)
        | inr (inl (x, e)) ↦
            SameReads-of_err b laws (Badger.set b reward_pool_key v) d w.1 x (λ i. (e i, w.1)) τ j
        | inr (inr e) ↦ absurd (set-ne-panic b laws reward_pool_key v now d e)
      ]

  -- AccumulateBond, however it ends, keeps every balance, every sequence and every mark.
  pub accumulate_bond-PoolOnly :
      (bond now : ℕ) (d : Disk) → PoolOnly d (accumulate_bond b bond now d).1
  accumulate_bond-PoolOnly bond now d = elim (accumulate_bond-cases bond now d) [
    | inl same ↦ PoolOnly-of_reads d _ (λ τ j _. rw same)
    | inr (v, e) ↦
        PoolOnly-of_reads d _ (λ τ j ne. rw e (set_pool-keeps (put_uint64 v) now d τ j ne))
  ]

  -- What a save of a balance that reports an error leaves: everything as it was.
  pub SameReads-get_balance :
      (d d' : Disk)
      → SameReads b d d'
      → (τ : ℕ) (q : PubKey) → (get_balance b q τ d').0 ≡ (get_balance b q τ d).0
  unfolding get_balance Db.get
  SameReads-get_balance d d' same τ q = ground (arith, same τ (bal_key q))

  -- MarkConfirmedTxApplied, however it ends, keeps every balance.
  pub mark_keeps_balances :
      (hash : Hash32) (now : ℕ) (d : Disk) (τ : ℕ) (q : PubKey)
      → (get_balance b q τ (mark_confirmed_tx_applied b hash now d).1).0 ≡ (get_balance b q τ d).0
  unfolding mark_confirmed_tx_applied Db.set
  mark_keeps_balances hash now d τ q =
      let w = Db.set b (applied_key hash) (1 ∷ []) now d in
      elim (Res-cases w.0) [
        | inl (done, e) ↦ (mark-Marked hash now d w.1 (λ i. (e i, w.1))).balances_kept τ q
        | inr (inl (x, e)) ↦
            SameReads-get_balance d w.1
              (SameReads-of_err b laws (Badger.set b (applied_key hash) (1 ∷ [])) d w.1 x
                (λ i. (e i, w.1)))
              τ q
        | inr (inr e) ↦ absurd (set-ne-panic b laws (applied_key hash) (1 ∷ []) now d e)
      ]
