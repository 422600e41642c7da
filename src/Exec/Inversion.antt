-- ===== src/Exec/Inversion.antt =====
-- What a call that ended has done, step by step.
use cdml.Common.{ℕ, ◌≡◌, ◌⊎◌, inl, inr, arith}
use cdml.Core.Errors.{Error, ok, err, Res-cases}
use cdml.Exec.{Exec, ◌>>=◌}

module _ {S A B : Type 0} (m : Exec S A) (f : A → Exec S B) {now : ℕ} {s s' : S} where
  -- a success went through both parts
  pub bind_ok :
      {v : B}
      → (m >>= f) now s ≡ (ok v, s')
      → (a : A) × (s1 : S) × (m now s ≡ (ok a, s1)) × (f a now s1 ≡ (ok v, s'))
  bind_ok h = elim (Res-cases (m now s).0) [
    | inl (a, e) ↦ (a, (m now s).1, (λ i. (e i, (m now s).1)), ground arith)
    | inr (inl (x, e)) ↦ absurd (ground arith)
    | inr (inr e) ↦ absurd (ground arith)
  ]

  -- an error comes from the first part, or from the second after the first
  pub bind_err :
      {x : Error}
      → (m >>= f) now s ≡ (err x, s')
      → (m now s ≡ (err x, s'))
        ⊎ ((a : A) × (s1 : S) × (m now s ≡ (ok a, s1)) × (f a now s1 ≡ (err x, s')))
  bind_err h = elim (Res-cases (m now s).0) [
    | inl (a, e) ↦ inr (a, (m now s).1, (λ i. (e i, (m now s).1)), ground arith)
    | inr (inl (x, e)) ↦ inl (ground arith)
    | inr (inr e) ↦ absurd (ground arith)
  ]
