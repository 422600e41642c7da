-- ===== src/Storage/Keys/Injective.antt =====
-- Entries of different kinds, owners or numbers never share a key.
use cdml.Common.{
  ℕ, ◌^◌, ◌<◌, Bytes, put_uint64, uint64, uint64-put_uint64, length, drop, append-injective, ◌++◌,
  ◌≡◌, ap, arith,
}
use cdml.Core.Types.{PubKey}
use cdml.Storage.Keys.{tx_key, nonce_lock_key, nonce_bytes}

-- bytes in front of an encoded number, taken apart again
parts_of_append :
    (p q : Bytes) (m n : ℕ)
    → length p ≡ 32
    → length q ≡ 32
    → m < 2 ^ 64
    → n < 2 ^ 64
    → p ++ put_uint64 m ≡ q ++ put_uint64 n
    → (p ≡ q) × (m ≡ n)
parts_of_append p q m n hp hq hm hn e =
    let (front, back) = append-injective p q (put_uint64 m) (put_uint64 n) (omega arith) e in
    (front, ground (arith, uint64-put_uint64 m hm, uint64-put_uint64 n hn, ap uint64 back))

-- The shifting loop of nonceLockKey writes the same eight bytes as binary.BigEndian.PutUint64.
pub nonce_bytes-eq-put_uint64 : (nonce : ℕ) → nonce_bytes 8 nonce ≡ put_uint64 nonce
unfolding nonce_bytes put_uint64
nonce_bytes-eq-put_uint64 nonce = ground arith

-- For 32-byte public keys, two transactions share a key only if their senders and sequences agree.
pub tx_key-injective :
    (p q : PubKey) (m n : ℕ)
    → length p ≡ 32
    → length q ≡ 32
    → m < 2 ^ 64
    → n < 2 ^ 64
    → tx_key p m ≡ tx_key q n
    → (p ≡ q) × (m ≡ n)
unfolding tx_key
tx_key-injective p q m n hp hq hm hn e = parts_of_append p q m n hp hq hm hn (ap (drop 1) e)

-- For 32-byte public keys, two nonce locks share a key only if owner and nonce agree.
pub nonce_lock_key-injective :
    (p q : PubKey) (m n : ℕ)
    → length p ≡ 32
    → length q ≡ 32
    → m < 2 ^ 64
    → n < 2 ^ 64
    → nonce_lock_key p m ≡ nonce_lock_key q n
    → (p ≡ q) × (m ≡ n)
unfolding nonce_lock_key
nonce_lock_key-injective p q m n hp hq hm hn e =
    parts_of_append p q m n hp hq hm hn
      (rw (← nonce_bytes-eq-put_uint64 m, ← nonce_bytes-eq-put_uint64 n) (ap (drop 1) e))
