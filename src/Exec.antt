-- ===== src/Exec.antt =====
-- A Go call that reads and writes stored state: it runs at an instant of the clock, and leaves a
-- state behind however it ends.
pub mod Inversion
use cdml.Common.{ℕ}
use cdml.Core.Errors.{Res, ok, err, panic}
use cdml.Core.Errors

abbrev pub Exec : Type 0 → Type 0 → Type 0
Exec S A = ℕ → S → Res A × S

module _ {S : Type 0} where
  abbrev pub pure : {A : Type 0} → A → Exec S A
  pure a now s = (ok a, s)

  -- a step that touches no stored state
  abbrev pub lift : {A : Type 0} → Res A → Exec S A
  lift r now s = (r, s)

  infixl 5 ◌>>=◌ ◌>>◌
  abbrev pub ◌>>=◌ : {A B : Type 0} → Exec S A → (A → Exec S B) → Exec S B
  ◌>>=◌ m f now s =
      let (r, s') = m now s in
      elim r [ ok a ↦ f a now s' | err e ↦ (err e, s') | panic ↦ (panic, s') ]

  abbrev pub ◌>>◌ : {B : Type 0} → Exec S (Unit {0}) → Exec S B → Exec S B
  m >> k = m >>= λ _. k

  -- `v, _ := m`
  abbrev pub or_else : {A : Type 0} → A → Exec S A → Exec S A
  or_else d m now s = let (r, s') = m now s in (Errors.or_else d r, s')

  -- `return fmt.Errorf("...: %w", err)`
  abbrev pub wrapped : {A : Type 0} → Exec S A → Exec S A
  wrapped m now s = let (r, s') = m now s in (Errors.wrapped r, s')
