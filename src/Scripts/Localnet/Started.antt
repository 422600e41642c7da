-- ===== src/Scripts/Localnet/Started.antt =====
-- A node that is started after setup.go has the key that setup.go has named.
use cdml.Common.{
  ℕ, suc, Bytes, length, drop, map, List, [], ◌∷◌, ◌≡◌, refl, sym, ap, subst, ◌∙◌, inl, inr, arith,
}
use cdml.Core.Errors.{ok, Res-cases}
use cdml.Json.{JsonLaws}
use cdml.Crypto.Primitives.{Primitives, PrimitivesLaws}
use cdml.Crypto.KeyPair.{KeyPair}
use cdml.Node.Config.{load_or_create_key}
use cdml.Api.{hex_encode, WitnessRequest}
use cdml.Scripts.Localnet.{Genesis, genesis_of, network, local_address, seeds_from, total_nodes}
use cdml.Scripts.Localnet.Connected.{keys-genesis_from, addrs-genesis_from}
use cdml.Scripts.Localnet.Setup.{
  Files, FilesLaws, Paths, Encoders, encoded, write_json, setup_nodes, setup,
}
use cdml.Scripts.Localnet.KeyFiles.{
  AreDistinct, loads, AllHaveKeys, setup_nodes-HaveKeys, write_json-other, write_json-read,
  length-setup_nodes,
}

module _ (p : Primitives) (laws : PrimitivesLaws p) (files : Files) (kept : FilesLaws files)
    (paths : Paths) (apart : AreDistinct paths) (encoders : Encoders)
    (writable : (path bs : Bytes) (s : files.Fs) → (files.write_file path bs s).0 ≡ ok tt)
    (suffix : (priv : Bytes) → length priv ≡ 64 → p.public_of priv ≡ drop 32 priv) where
  open files use {Fs, read_file, write_file}
  open paths use {key_path, config_path, genesis_path}

  -- a node that starts with its key file, whatever random bytes it would get
  pub Starts : ℕ → Bytes → Fs → Type 0
  Starts i key s =
      (later : Bytes)
      → (kp : KeyPair) × (load_or_create_key
            (record {
              Fs = Fs;
              read_file = read_file (key_path i);
              write_file = write_file (key_path i);
            })
            p later s
          ≡ (ok kp, s))
        × (hex_encode kp.public ≡ key)

  abbrev pub AllStart : ℕ → List Bytes → Fs → Type 0
  AllStart i [] s = Unit {0}
  AllStart i (key ∷ keys) s = Starts i key s × AllStart (suc i) keys s

  AllStart-HaveKeys :
      (i : ℕ) (keys : List Bytes) (genesis : Genesis) (s : Fs)
      → AllHaveKeys p laws files kept paths apart encoders writable suffix i keys s
      → AllStart i keys
          (write_json p files paths encoders encoders.genesis_json genesis_path genesis s)
  unfolding Starts
  AllStart-HaveKeys i [] genesis s all = tt
  AllStart-HaveKeys i (key ∷ keys) genesis s ((bs, stored, size, printed), all) = (
    λ later.
        loads p laws files kept paths apart encoders writable suffix i key later
          (write_json p files paths encoders encoders.genesis_json genesis_path genesis s)
          (
            bs,
            write_json-other p laws files kept paths apart encoders writable suffix
                  encoders.genesis_json genesis_path (key_path i) genesis s (apart.key_genesis i)
                ∙ stored,
            size,
            printed,
          ),
    AllStart-HaveKeys (suc i) keys genesis s all,
  )

  setup-files :
      (random : ℕ → Bytes) (keys : List Bytes) (s s' : Fs)
      → setup p files paths encoders random s ≡ (ok keys, s')
      → (length keys ≡ 5)
        × AllStart 1 keys s'
        × (read_file genesis_path s'
            ≡ ok (encoded p files paths encoders encoders.genesis_json (genesis_of keys)))
  unfolding setup
  setup-files random keys s s' h =
      let (r, mid) = setup_nodes p files paths encoders random total_nodes 1 s in
      elim (Res-cases r) [
        | inl (ks, e) ↦
            let made : setup_nodes p files paths encoders random total_nodes 1 s ≡ (ok ks, mid) =
              λ t. (e t, mid) in
            let all =
              setup_nodes-HaveKeys p laws files kept paths apart encoders writable suffix random
                total_nodes 1 ks s mid made in
            let same : (ks ≡ keys)
                × (write_json p files paths encoders encoders.genesis_json genesis_path
                      (genesis_of keys) mid
                    ≡ s') =
              ground arith in
            (
              ap (λ (x : List Bytes). length x) (sym same.0)
                  ∙ length-setup_nodes p laws files kept paths apart encoders writable suffix random
                      total_nodes 1 ks s mid made,
              subst (AllStart 1 keys) same.1 (
                  AllStart-HaveKeys 1 keys (genesis_of keys) mid (
                    subst
                      (λ x.
                        AllHaveKeys p laws files kept paths apart encoders writable suffix 1 x mid)
                      same.0 all)),
              subst
                  (λ x.
                    read_file genesis_path x
                    ≡ ok (encoded p files paths encoders encoders.genesis_json (genesis_of keys)))
                  same.1
                  (write_json-read p laws files kept paths apart encoders writable suffix
                    encoders.genesis_json genesis_path (genesis_of keys) mid),
            )
        | inr (inl (x, e)) ↦ absurd (ground arith)
        | inr (inr e) ↦ absurd (ground arith)
      ]

  -- the file names these keys, at the addresses where the five nodes listen for peers
  abbrev pub Names : List Bytes → Genesis → Type 0
  Names keys g =
      (g.network_id ≡ network)
      × (map (λ (w : WitnessRequest). w.pub_key) g.witnesses ≡ keys)
      × (map (λ (w : WitnessRequest). w.addr) g.witnesses
          ≡ map local_address (7331 ∷ 7332 ∷ 7333 ∷ 7334 ∷ 7335 ∷ []))

  genesis_of-Names : (keys : List Bytes) → length keys ≡ 5 → Names keys (genesis_of keys)
  unfolding genesis_of seeds_from
  genesis_of-Names keys five =
      (refl, keys-genesis_from 0 keys, addrs-genesis_from 0 keys ∙ ap (seeds_from 1) five)

  -- After a run of setup.go that ends, where genesis.json can be encoded, there are five nodes. What
  -- genesis.json decodes to names their five keys in order, at the addresses with the ports 7331 to
  -- 7335. A node that is then started with its own key file, old or new, has the key that
  -- genesis.json names for it, whatever random bytes it would get, and leaves the files as they are.
  -- (Every write succeeds, the paths differ, and a private key ends with its public key.)
  pub setup_starts :
      (genesis_laws : JsonLaws encoders.genesis_json) (random : ℕ → Bytes) (keys : List Bytes)
      (bs : Bytes) (s s' : Fs)
      → setup p files paths encoders random s ≡ (ok keys, s')
      → encoders.genesis_json.marshal (genesis_of keys) ≡ ok bs
      → (length keys ≡ 5)
        × AllStart 1 keys s'
        × (read_file genesis_path s' ≡ ok bs)
        × (g : Genesis) × (encoders.genesis_json.unmarshal bs ≡ ok g)
        × Names keys g
  setup_starts genesis_laws random keys bs s s' h coded =
      let (five, start, stored) = setup-files random keys s s' h in
      (
        five,
        start,
        stored ∙ ap (λ r. ok (elim r [ ok out ↦ out | _ ↦ [] ])) coded,
        genesis_of keys,
        genesis_laws.unmarshal-marshal (genesis_of keys) bs coded,
        genesis_of-Names keys five,
      )
