-- ===== src/Common/Maps.antt =====
-- A Go map from byte strings, as the list of its entries.
use mathlib.Core.Path.{◌≡◌}
use mathlib.Core.Logic.{ite}
use mathlib.Core.Option.{Option, none, some}
use mathlib.Core.List.{List, [], ◌∷◌}
use native.Mathlib.Omega.{arith}
use cdml.Common.Encoding.{Bytes, Bytes-discrete}

module _ {A : Type 0} where
  -- `m[k]`, and whether it is there
  unfoldable pub lookup : Bytes → List (Bytes × A) → Option A
  unfolding Bytes-discrete
  lookup k [] = none
  lookup k ((j, a) ∷ m) = ite (Bytes-discrete j k) (some a) (lookup k m)

  -- `m[k] = a`
  unfoldable pub insert : Bytes → A → List (Bytes × A) → List (Bytes × A)
  unfolding Bytes-discrete
  insert k a [] = (k, a) ∷ []
  insert k a ((j, b) ∷ m) = ite (Bytes-discrete j k) ((k, a) ∷ m) ((j, b) ∷ insert k a m)

  -- `delete(m, k)`
  unfoldable pub delete : Bytes → List (Bytes × A) → List (Bytes × A)
  unfolding Bytes-discrete
  delete k [] = []
  delete k ((j, b) ∷ m) = let rest = delete k m in ite (Bytes-discrete j k) rest ((j, b) ∷ rest)

  pub lookup-insert :
      (k j : Bytes) (a : A) (m : List (Bytes × A))
      → lookup j (insert k a m) ≡ ite (Bytes-discrete k j) (some a) (lookup j m)
  unfolding lookup insert
  lookup-insert k j a [] = ground arith
  lookup-insert k j a ((i, b) ∷ m) = ground (arith, lookup-insert k j a m)

  pub lookup-delete :
      (k j : Bytes) (m : List (Bytes × A))
      → lookup j (delete k m) ≡ ite (Bytes-discrete k j) none (lookup j m)
  unfolding lookup delete
  lookup-delete k j [] = ground arith
  lookup-delete k j ((i, b) ∷ m) = ground (arith, lookup-delete k j m)
