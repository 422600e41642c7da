-- ===== src/Crypto/Primitives.antt =====
-- What internal/crypto calls of BLAKE2b and Ed25519: a parameter, with the documented behaviour that
-- the program relies on as a record of laws. No law says that hashes do not collide.
use cdml.Common.{Bytes, length, Bool, true, ◌≡◌}
use cdml.Core.Errors.{Res, ok}

pub record Primitives : Type 0 where
  pub blake2b_256 : Bytes → Bytes
  -- ed25519.GenerateKey on a source of random bytes: the public and the private key
  pub generate_key : Bytes → Res (Bytes × Bytes)
  -- priv.Public()
  pub public_of : Bytes → Bytes
  pub ed25519_sign : Bytes → Bytes → Bytes
  pub ed25519_verify : Bytes → Bytes → Bytes → Bool

module _ (p : Primitives) where
  open p use {blake2b_256, generate_key, public_of, ed25519_sign, ed25519_verify}

  pub record PrimitivesLaws : Type 0 where
    pub length-blake2b_256 : (bs : Bytes) → length (blake2b_256 bs) ≡ 32
    pub length-ed25519_sign : (k m : Bytes) → length (ed25519_sign k m) ≡ 64
    pub length_generated :
        (r pub_key priv : Bytes)
        → generate_key r ≡ ok (pub_key, priv)
        → (length pub_key ≡ 32) × (length priv ≡ 64) × (public_of priv ≡ pub_key)
    pub verify-sign :
        (r pub_key priv m : Bytes)
        → generate_key r ≡ ok (pub_key, priv)
        → ed25519_verify pub_key m (ed25519_sign priv m) ≡ true
