-- ===== src/Api/Keys.antt =====
-- A key that the API prints is the key that it reads.
use cdml.Common.{ℕ, ◌/◌, ◌%◌, ◌<◌, Bytes, length, copy_into_full, [], ◌∷◌, some, ◌≡◌, refl, arith}
use cdml.Core.Errors.{ok}
use cdml.Crypto.KeyPair.{hex_value, hex_decode, pub_key_from_hex}
use cdml.Api.{hex_digit, hex_encode}

-- every number is a byte
abbrev pub AllBytes : Bytes → Type 0
AllBytes [] = Unit {0}
AllBytes (b ∷ bs) = (b < 256) × AllBytes bs

hex_value-hex_digit : (d : ℕ) → d < 16 → hex_value (hex_digit d) ≡ some d
unfolding hex_value hex_digit
hex_value-hex_digit d h = ground arith

hex_decode-hex_encode : (bs : Bytes) → AllBytes bs → hex_decode (hex_encode bs) ≡ some bs
unfolding hex_decode hex_encode
hex_decode-hex_encode [] h = refl
hex_decode-hex_encode (b ∷ bs) h =
    ground
      (arith, hex_value-hex_digit (b / 16), hex_value-hex_digit (b % 16), hex_decode-hex_encode bs)

-- PubKeyFromHex reads back every 32-byte key that was printed with %x, as Status and Peers print
-- them.
pub pub_key_from_hex-hex_encode :
    (pk : Bytes) → AllBytes pk → length pk ≡ 32 → pub_key_from_hex (hex_encode pk) ≡ ok pk
unfolding pub_key_from_hex
pub_key_from_hex-hex_encode pk bytes size =
    ground (arith, hex_decode-hex_encode pk, copy_into_full 32 pk size)
