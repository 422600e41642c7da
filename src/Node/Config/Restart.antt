-- ===== src/Node/Config/Restart.antt =====
-- A node that starts again has the key that it has created.
use cdml.Common.{Bytes, ◌≡◌, arith, inl, inr}
use cdml.Core.Errors.{ok, Res-cases}
use cdml.Crypto.Primitives.{Primitives, PrimitivesLaws}
use cdml.Crypto.KeyPair.{KeyPair, generate, private_bytes}
use cdml.Crypto.Sign.Tx.{load_from_bytes-private_bytes, generated_pair}
use cdml.Node.Config.{KeyFile, KeyFileLaws, create_key, load_or_create_key}

module _ (p : Primitives) (laws : PrimitivesLaws p) (file : KeyFile) (kept : KeyFileLaws file) where
  open file use {Fs, write_file}

  created :
      (random : Bytes) (kp : KeyPair) (s s' : Fs)
      → create_key file p random s ≡ (ok kp, s')
      → (generate p random ≡ ok kp) × (write_file (private_bytes p kp) s ≡ (ok tt, s'))
  unfolding create_key
  created random kp s s' h = elim (Res-cases (generate p random)) [
    | inl (k, e) ↦ ground arith
    | inr (inl (x, e)) ↦ absurd (ground arith)
    | inr (inr e) ↦ absurd (ground arith)
  ]

  -- A node that has created its key file starts with the same key pair afterwards, whatever random
  -- bytes it would get then, and leaves the file as it is.
  pub load_or_create_key_again :
      (random later : Bytes) (kp : KeyPair) (s s' : Fs)
      → create_key file p random s ≡ (ok kp, s')
      → load_or_create_key file p later s' ≡ (ok kp, s')
  unfolding load_or_create_key private_bytes
  load_or_create_key_again random later kp s s' h =
      let (made, wrote) = created random kp s s' h in
      let stored = kept.read-write (private_bytes p kp) s s' wrote in
      let same = load_from_bytes-private_bytes p laws random kp made in
      let (_, size, _) =
        laws.length_generated random kp.public kp.private (generated_pair p laws random kp made) in
      ground (arith, stored, same, size)
