-- ===== src/Storage/Keys.antt =====
-- The keys of the stores: a letter for the kind of entry, and the identifying bytes.
pub mod Injective
use cdml.Common.{ℕ, zero, suc, ◌+◌, ◌-◌, ◌*◌, ◌/◌, ◌%◌, ◌^◌, Bytes, put_uint64, List, [], ◌∷◌, ◌++◌}
use cdml.Core.Types.{PubKey, Hash32}

unfoldable pub bal_key : PubKey → Bytes
bal_key pk = b'B' ∷ pk

unfoldable pub seq_key : PubKey → Bytes
seq_key pk = b'S' ∷ pk

unfoldable pub tx_key : PubKey → ℕ → Bytes
tx_key pk seq = b'T' ∷ (pk ++ put_uint64 seq)

unfoldable pub applied_key : Hash32 → Bytes
applied_key hash = b'A' ∷ hash

unfoldable pub snap_key : PubKey → Bytes
snap_key pk = b'P' ∷ pk

-- the loop of nonceLockKey, with `n` rounds left: byte(nonce >> (56 - 8*i)) for i = 8 - n
pub nonce_bytes : ℕ → ℕ → Bytes
nonce_bytes zero nonce = []
nonce_bytes (suc n) nonce = (nonce / 2 ^ (56 - 8 * (7 - n)) % 256) ∷ nonce_bytes n nonce

unfoldable pub nonce_lock_key : PubKey → ℕ → Bytes
unfolding nonce_bytes
nonce_lock_key pk nonce = b'N' ∷ (pk ++ nonce_bytes 8 nonce)

-- []byte("reward_pool")
unfoldable pub reward_pool_key : Bytes
reward_pool_key = b'r' ∷ b'e' ∷ b'w' ∷ b'a' ∷ b'r' ∷ b'd' ∷ b'_' ∷ b'p' ∷ b'o' ∷ b'o' ∷ b'l' ∷ []

-- []byte("active_witnesses")
unfoldable pub active_witnesses_key : Bytes
active_witnesses_key =
    b'a' ∷ b'c' ∷ b't' ∷ b'i' ∷ b'v' ∷ b'e' ∷ b'_' ∷ b'w' ∷ b'i' ∷ b't' ∷ b'n' ∷ b'e' ∷ b's' ∷ b's'
    ∷ b'e' ∷ b's' ∷ []
