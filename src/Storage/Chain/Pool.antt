-- ===== src/Storage/Chain/Pool.antt =====
-- AccumulateBond leaves a pool that can be read.
use cdml.Common.{
  ℕ, ◌+◌, ◌≤◌, ◌<◌, ◌^◌, put_uint64, uint64-put_uint64, ◌≡◌, ◌≢◌, ◌⊎◌, ◌∙◌, ap, sym, subst, arith,
  inl, inr,
}
use cdml.Core.Errors.{Error, Res, ok, err, panic, Res-cases}
use cdml.Core.Types.{max_amount}
use cdml.Core.Amount.{safe_add}
use cdml.Core.Amount.Bounds.{safe_add_exact}
use cdml.Storage.Badger.{Badger, BadgerLaws}
use cdml.Storage.Keys.{reward_pool_key}
use cdml.Storage.Db
use cdml.Storage.Db.Laws.{SameReads-of_err, read-set, set-ne-panic}
use cdml.Storage.Chain.{get_reward_pool, accumulate_bond}

module _ (b : Badger) (laws : BadgerLaws b) where
  open b use {Disk}

  -- a pool that can be read from now on
  abbrev pub HasPool : Disk → Type 0
  HasPool d = (p : ℕ) × ((τ : ℕ) → (get_reward_pool b τ d).0 ≡ ok p)

  set_pool-HasPool :
      (sum now : ℕ) (d : Disk)
      → sum < 2 ^ 64
      → HasPool d
      → HasPool (Db.set b reward_pool_key (put_uint64 sum) now d).1
  unfolding get_reward_pool Db.get Db.set reward_pool_key
  set_pool-HasPool sum now d fits (p, read) =
      let w = Db.set b reward_pool_key (put_uint64 sum) now d in
      elim (Res-cases w.0) [
        | inl (_, e) ↦
            let seen =
              read-set b laws reward_pool_key (put_uint64 sum) now d w.1 (λ i. (e i, w.1)) in
            (sum, λ τ. ground (arith, seen τ reward_pool_key, uint64-put_uint64 sum fits))
        | inr (inl (x, e)) ↦ (
          p,
          λ τ. ground (
            arith,
            SameReads-of_err b laws (Badger.set b reward_pool_key (put_uint64 sum)) d w.1 x
                (λ i. (e i, w.1)) τ reward_pool_key,
            read τ,
          ),
        )
        | inr (inr e) ↦ absurd (set-ne-panic b laws reward_pool_key (put_uint64 sum) now d e)
      ]

  -- it sets the sum, or changes nothing
  accumulate_bond_cases :
      (bond now p : ℕ) (d : Disk)
      → (get_reward_pool b now d).0 ≡ ok p
      → ((p + bond ≤ max_amount)
          × (accumulate_bond b bond now d ≡ Db.set b reward_pool_key (put_uint64 (p + bond)) now d))
        ⊎ ((x : Error) × (accumulate_bond b bond now d ≡ (err x, d)))
  unfolding accumulate_bond Db.get
  accumulate_bond_cases bond now p d read = elim (Res-cases (safe_add p bond)) [
    | inl (sum, s) ↦ let (fits, exact) = (safe_add_exact p bond sum).0 s in inl (fits, ground arith)
    | inr (inl (x, s)) ↦ inr (x, ground arith)
    | inr (inr s) ↦ absurd (unfold safe_add in ground arith)
  ]

  pub accumulate_bond-HasPool :
      (bond now : ℕ) (d : Disk) → HasPool d → HasPool (accumulate_bond b bond now d).1
  accumulate_bond-HasPool bond now d (p, read) =
      elim (accumulate_bond_cases bond now p d (read now)) [
        | inl (fits, e) ↦
            subst (λ (r : Res (Unit {0}) × Disk). HasPool r.1) (sym e)
              (set_pool-HasPool (p + bond) now d (omega arith) (p, read))
        | inr (x, e) ↦ subst (λ (r : Res (Unit {0}) × Disk). HasPool r.1) (sym e) (p, read)
      ]

  pub accumulate_bond-ne-panic :
      (bond now : ℕ) (d : Disk) → HasPool d → (accumulate_bond b bond now d).0 ≢ panic
  accumulate_bond-ne-panic bond now d (p, read) h =
      elim (accumulate_bond_cases bond now p d (read now)) [
        | inl (fits, e) ↦
            set-ne-panic b laws reward_pool_key (put_uint64 (p + bond)) now d
              (ap (λ r. r.0) (sym e) ∙ h)
        | inr (x, e) ↦ ground (arith, e)
      ]
