-- ===== src/Json.antt =====
-- encoding/json as the program uses it: an encoder and a decoder for each type that is stored or
-- sent. The text of an encoding is not modelled; what is relied on is that decoding undoes encoding.
use cdml.Common.{Bytes, ◌≡◌, ◌≢◌}
use cdml.Core.Errors.{Res, ok, panic}

pub record Json (A : Type 0) : Type 0 where
  pub marshal : A → Res Bytes
  pub unmarshal : Bytes → Res A

module _ {A : Type 0} (json : Json A) where
  open json use {marshal, unmarshal}

  pub record JsonLaws : Type 0 where
    pub unmarshal-marshal : (a : A) (bs : Bytes) → marshal a ≡ ok bs → unmarshal bs ≡ ok a
    pub marshal_calm : (a : A) → marshal a ≢ panic
    pub unmarshal_calm : (bs : Bytes) → unmarshal bs ≢ panic
