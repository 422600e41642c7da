-- ===== src/Crypto/Hash.antt =====
-- internal/crypto/hash.go
pub mod Collision
use cdml.Common.{ℕ, Bytes, put_uint64, copy_into, List, [], ◌∷◌, ◌++◌}
use cdml.Core.Types.{PubKey, Hash32, Amount}
use cdml.Crypto.Primitives.{Primitives}

-- the loop that writes the parents to the hash
unfoldable pub concat : List Hash32 → Bytes
concat [] = []
concat (p ∷ ps) = p ++ concat ps

-- the bytes that HashTx writes to the hash, in order
unfoldable pub hash_input : ℕ → ℕ → PubKey → PubKey → Amount → List Hash32 → Bytes
unfolding concat
hash_input seq nonce from to amount parents =
    put_uint64 seq ++ (put_uint64 nonce ++ (from ++ (to ++ (put_uint64 amount ++ concat parents))))

module _ (p : Primitives) where
  unfoldable pub sum : Bytes → Hash32
  sum bytes = p.blake2b_256 bytes

  unfoldable pub hash_tx : ℕ → ℕ → PubKey → PubKey → Amount → List Hash32 → Hash32
  hash_tx seq nonce from to amount parents =
      copy_into 32 (p.blake2b_256 (hash_input seq nonce from to amount parents))
