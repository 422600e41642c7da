-- ===== src/Common/Encoding.antt =====
-- Byte strings, and the part of Go's encoding/binary and of its `copy` that the program calls.
use Prim.Native.Nat.{ℕ, zero, suc, ◌+◌, ◌*◌, ◌/◌, ◌%◌, ◌^◌, ◌<◌}
use mathlib.Core.Path.{◌≡◌, refl}
use mathlib.Core.Option.{Option, none, some}
use mathlib.Core.List.{List, [], ◌∷◌}
use native.Mathlib.Omega.{arith}
unfoldable use native.Mathlib.Decide.{ℕ_discrete}
use cdml.Common.Lists.{length}

abbrev pub Bytes : Type 0
Bytes = List ℕ

unfoldable pub Bytes-discrete : Discrete Bytes
unfolding ℕ_discrete
Bytes-discrete = hlevel ℕ_discrete

-- binary.BigEndian.PutUint64 into a fresh [8]byte
unfoldable pub put_uint64 : ℕ → Bytes
put_uint64 v =
    (v / 2 ^ 56 % 256)
    ∷ (v / 2 ^ 48 % 256)
    ∷ (v / 2 ^ 40 % 256)
    ∷ (v / 2 ^ 32 % 256)
    ∷ (v / 2 ^ 24 % 256)
    ∷ (v / 2 ^ 16 % 256)
    ∷ (v / 2 ^ 8 % 256)
    ∷ (v % 256)
    ∷ []

-- binary.BigEndian.Uint64, which panics on fewer than eight bytes
unfoldable pub uint64 : Bytes → Option ℕ
uint64 (a ∷ b ∷ c ∷ d ∷ e ∷ f ∷ g ∷ h ∷ _) =
    some
      (a * 2 ^ 56 + b * 2 ^ 48 + c * 2 ^ 40 + d * 2 ^ 32 + e * 2 ^ 24 + f * 2 ^ 16 + g * 2 ^ 8 + h)
uint64 _ = none

-- copy(out[:], bs) into a zeroed array of n bytes
unfoldable pub copy_into : ℕ → Bytes → Bytes
copy_into zero bs = []
copy_into (suc n) [] = 0 ∷ copy_into n []
copy_into (suc n) (b ∷ bs) = b ∷ copy_into n bs

pub length-put_uint64 : (v : ℕ) → length (put_uint64 v) ≡ 8
unfolding put_uint64
length-put_uint64 v = refl

pub uint64-put_uint64 : (v : ℕ) → v < 2 ^ 64 → uint64 (put_uint64 v) ≡ some v
unfolding uint64 put_uint64
uint64-put_uint64 v h = ground arith

pub copy_into_full : (n : ℕ) (bs : Bytes) → length bs ≡ n → copy_into n bs ≡ bs
unfolding copy_into
copy_into_full zero [] h = refl
copy_into_full zero (b ∷ bs) h = absurd (omega arith)
copy_into_full (suc n) [] h = absurd (omega arith)
copy_into_full (suc n) (b ∷ bs) h = rw (copy_into_full n bs (omega arith))

pub length-copy_into : (n : ℕ) (bs : Bytes) → length (copy_into n bs) ≡ n
unfolding copy_into
length-copy_into zero bs = refl
length-copy_into (suc n) [] = omega (arith, length-copy_into n [])
length-copy_into (suc n) (b ∷ bs) = omega (arith, length-copy_into n bs)
