-- ===== src/Core/Errors.antt =====
-- internal/core/errors.go, and what a Go function that returns an error can do: return a value,
-- return an error, or panic. A message that fmt.Errorf makes is kept as its wrapped error only.
use cdml.Common.{ℕ, Bool, true, false, Bytes, ◌≡◌, refl, ◌⊎◌, inl, inr}

pub data Error : Type 0 where
  amount_zero amount_overflow amount_underflow amount_exceed_max : Error
  tx_invalid_signature tx_insufficient_bal tx_invalid_sequence : Error
  tx_already_exists tx_nonce_locked : Error
  snapshot_not_found snapshot_expired : Error
  dag_edge_duplicate dag_cycle_detected : Error
  witness_not_found quorum_not_met : Error
  dag_cycle : Bytes → Bytes → Error  -- *ErrDAGCycle, with the two nodes
  key_not_found : Error  -- badger.ErrKeyNotFound
  failure : ℕ → Error  -- any other error of a library, or a fmt.Errorf without %w
  wrap : Error → Error  -- fmt.Errorf("...: %w", err)

-- `errors.Is(err, ErrDAGCycleDetected)`: the method `Is` of ErrDAGCycle, and unwrapping
abbrev pub is_dag_cycle : Error → Bool
is_dag_cycle dag_cycle_detected = true
is_dag_cycle (dag_cycle _ _) = true
is_dag_cycle (wrap e) = is_dag_cycle e
is_dag_cycle _ = false

pub data Res {ℓ} (A : Type ℓ) : Type ℓ where
  ok : A → Res A
  err : Error → Res A
  panic : Res A

pub Res-cases {ℓ} :
    {A : Type ℓ} (r : Res A) → ((a : A) × (r ≡ ok a)) ⊎ (((e : Error) × (r ≡ err e)) ⊎ (r ≡ panic))
Res-cases (ok a) = inl (a, refl)
Res-cases (err e) = inr (inl (e, refl))
Res-cases panic = inr (inr refl)

infixl 5 ◌>>=◌ ◌>>◌
abbrev pub ◌>>=◌ {ℓ κ} : {A : Type ℓ} {B : Type κ} → Res A → (A → Res B) → Res B
ok a >>= f = f a
err e >>= f = err e
panic >>= f = panic

abbrev pub ◌>>◌ {ℓ} : {B : Type ℓ} → Res (Unit {0}) → Res B → Res B
m >> k = m >>= λ _. k

-- `if test { return e }`
abbrev pub fail_if : Bool → Error → Res (Unit {0})
fail_if true e = err e
fail_if false e = ok tt

-- `v, _ := m`, where m returns the zero value with an error
abbrev pub or_else {ℓ} : {A : Type ℓ} → A → Res A → Res A
or_else d (ok a) = ok a
or_else d (err e) = ok d
or_else d panic = panic

-- `return fmt.Errorf("...: %w", err)`
abbrev pub wrapped {ℓ} : {A : Type ℓ} → Res A → Res A
wrapped (ok a) = ok a
wrapped (err e) = err (wrap e)
wrapped panic = panic
