-- ===== src/Crypto/KeyPair.antt =====
-- internal/crypto/keypair.go, and encoding/hex as PubKeyFromHex uses it.
use cdml.Common.{
  ℕ, ◌+◌, ◌-◌, ◌*◌, Bytes, copy_into, length, leb, ◌==◌, ◌&&◌, if◌then◌else◌, [], ◌∷◌, Option, none,
  some, Bool,
}
use cdml.Core.Errors.{Res, ok, err, failure, wrapped, ◌>>=◌}
use cdml.Core.Types.{PubKey, Signature}
use cdml.Crypto.Primitives.{Primitives}

pub record KeyPair : Type 0 where
  pub public : PubKey
  pub private : Bytes

module _ (p : Primitives) where
  open p use {generate_key, public_of, ed25519_sign, ed25519_verify}

  unfoldable pub generate : Bytes → Res KeyPair
  generate random = do
    keys ← wrapped (generate_key random)
    ok (record { public = copy_into 32 keys.0; private = keys.1 })

  unfoldable pub load_from_bytes : Bytes → Res KeyPair
  load_from_bytes priv_bytes =
      if length priv_bytes == 64
      then ok (record { public = copy_into 32 (public_of priv_bytes); private = priv_bytes })
      else err (failure 1)

  unfoldable pub private_bytes : KeyPair → Bytes
  private_bytes kp = kp.private

  unfoldable pub sign : KeyPair → Bytes → Res Signature
  sign kp data' = ok (copy_into 64 (ed25519_sign kp.private data'))

  unfoldable pub verify : PubKey → Bytes → Signature → Bool
  verify pub_key data' sig = ed25519_verify pub_key data' sig

-- the value of a hexadecimal digit, of either case
unfoldable pub hex_value : ℕ → Option ℕ
hex_value c =
    if leb b'0' c && leb c b'9'
    then some (c - b'0')
    else if leb b'a' c && leb c b'f'
    then some (c - b'a' + 10)
    else if leb b'A' c && leb c b'F'
    then some (c - b'A' + 10)
    else none

-- hex.DecodeString: an odd length or another character is an error
unfoldable pub hex_decode : Bytes → Option Bytes
unfolding hex_value
hex_decode [] = some []
hex_decode (_ ∷ []) = none
hex_decode (h ∷ l ∷ rest) = elim (hex_value h) [
  | none ↦ none
  | some a ↦ elim (hex_value l) [
    | none ↦ none
    | some b ↦ elim (hex_decode rest) [ none ↦ none | some bs ↦ some ((a * 16 + b) ∷ bs) ]
  ]
]

unfoldable pub pub_key_from_hex : Bytes → Res PubKey
unfolding hex_decode
pub_key_from_hex s = elim (hex_decode s) [
  | none ↦ err (failure 2)
  | some b ↦ if length b == 32 then ok (copy_into 32 b) else err (failure 2)
]
