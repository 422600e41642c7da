-- ===== src/Scripts/Localnet/KeyFiles.antt =====
-- The key files that setup.go leaves, and what a node loads from them.
use cdml.Common.{
  ℕ, zero, suc, ℕ_discrete, ◌-◌, ◌<◌, Bytes, length, drop, copy_into, copy_into_full, List, [], ◌∷◌,
  ◌≡◌, ◌≢◌, refl, sym, ap, subst, ◌∙◌, inl, inr, arith,
}
use cdml.Core.Errors.{ok, Res-cases}
use cdml.Json.{Json}
use cdml.Crypto.Primitives.{Primitives, PrimitivesLaws}
use cdml.Crypto.KeyPair.{KeyPair, load_from_bytes}
use cdml.Node.Config.{load_or_create_key}
use cdml.Api.{hex_encode}
use cdml.Scripts.Localnet.{node_config}
use cdml.Scripts.Localnet.Setup.{
  Files, FilesLaws, Paths, Encoders, encoded, create, setup_key, write_json, setup_node,
  setup_nodes,
}

length-drop : (n : ℕ) (bs : Bytes) → length (drop n bs) ≡ length bs - n
length-drop zero bs = omega arith
length-drop (suc n) [] = omega arith
length-drop (suc n) (b ∷ bs) = omega (arith, length-drop n bs)

-- no two of the files are the same
pub record AreDistinct (paths : Paths) : Type 0 where
  pub keys_apart : (i j : ℕ) → i ≢ j → paths.key_path i ≢ paths.key_path j
  pub key_config : (i j : ℕ) → paths.key_path i ≢ paths.config_path j
  pub key_genesis : (i : ℕ) → paths.key_path i ≢ paths.genesis_path

module _ (p : Primitives) (laws : PrimitivesLaws p) (files : Files) (kept : FilesLaws files)
    (paths : Paths) (apart : AreDistinct paths) (encoders : Encoders)
    (writable : (path bs : Bytes) (s : files.Fs) → (files.write_file path bs s).0 ≡ ok tt)
    (suffix : (priv : Bytes) → length priv ≡ 64 → p.public_of priv ≡ drop 32 priv) where
  open files use {Fs, read_file, write_file}
  open paths use {key_path, db_path, config_path, genesis_path}

  -- the file of node i holds a private key, whose public key is printed as this
  abbrev pub HasKey : ℕ → Bytes → Fs → Type 0
  HasKey i key s =
      (bs : Bytes) × (read_file (key_path i) s ≡ ok bs)
      × (length bs ≡ 64)
      × (key ≡ hex_encode (drop 32 bs))

  -- a key that was created
  create-HasKey :
      (random pub_key : Bytes) (i : ℕ) (s s' : Fs)
      → create p files paths encoders random (key_path i) s ≡ (ok pub_key, s')
      → HasKey i (hex_encode pub_key) s'
  unfolding create
  create-HasKey random pub_key i s s' h = elim (Res-cases (p.generate_key random)) [
    | inl ((k, priv), e) ↦
        let (_, size, public) = laws.length_generated random k priv e in
        let done = writable (key_path i) priv s in
        let last = (write_file (key_path i) priv s).1 in
        let stored = kept.read-write (key_path i) priv s last (λ j. (done j, last)) in
        let same : (k ≡ pub_key) × (last ≡ s') = ground arith in
        (
          priv,
          subst (λ x. read_file (key_path i) x ≡ ok priv) same.1 stored,
          size,
          ap hex_encode (sym same.0 ∙ sym public ∙ suffix priv size),
        )
    | inr (inl (x, e)) ↦ absurd (ground arith)
    | inr (inr e) ↦ absurd (ground arith)
  ]

  setup_key-HasKey :
      (random pub_key : Bytes) (i : ℕ) (s s' : Fs)
      → setup_key p files paths encoders random (key_path i) s ≡ (ok pub_key, s')
      → HasKey i (hex_encode pub_key) s'
  unfolding setup_key
  setup_key-HasKey random pub_key i s s' h = elim (Res-cases (read_file (key_path i) s)) [
    | inl (bs, e) ↦ elim (ℕ_discrete (length bs) 64) [
      | yes size ↦ (bs, ground arith, size, ground arith)
      | no other ↦ create-HasKey random pub_key i s s' (ground arith)
    ]
    | inr (inl (x, e)) ↦ create-HasKey random pub_key i s s' (ground arith)
    | inr (inr e) ↦ absurd (ground arith)
  ]

  -- a node started on such a file, later
  pub loads :
      (i : ℕ) (key later : Bytes) (s : Fs)
      → HasKey i key s
      → (kp : KeyPair) × (load_or_create_key
            (record {
              Fs = Fs;
              read_file = read_file (key_path i);
              write_file = write_file (key_path i);
            })
            p
            later
            s
          ≡ (ok kp, s))
        × (hex_encode kp.public ≡ key)
  unfolding load_or_create_key load_from_bytes
  loads i key later s (bs, stored, size, printed) =
      let public = suffix bs size in
      let half : length (drop 32 bs) ≡ 32 = omega (arith, length-drop 32 bs) in
      let whole = copy_into_full 32 (p.public_of bs) (ap (λ (x : Bytes). length x) public ∙ half) in
      (
        record { public = copy_into 32 (p.public_of bs); private = bs },
        ground arith,
        ap hex_encode (whole ∙ public) ∙ sym printed,
      )

  -- the calls for one node leave the key files of the others alone
  create-other :
      (random path other : Bytes) (s : Fs)
      → other ≢ path
      → read_file other (create p files paths encoders random path s).1 ≡ read_file other s
  unfolding create
  create-other random path other s ne = elim (Res-cases (p.generate_key random)) [
    | inl ((k, priv), e) ↦ ground (arith, kept.read-write_other path other priv s ne)
    | inr (inl (x, e)) ↦ ground arith
    | inr (inr e) ↦ ground arith
  ]

  setup_key-other :
      (random path other : Bytes) (s : Fs)
      → other ≢ path
      → read_file other (setup_key p files paths encoders random path s).1 ≡ read_file other s
  unfolding setup_key
  setup_key-other random path other s ne = ground (arith, create-other random path other s)

  pub write_json-other :
      {A : Type 0} (json : Json A) (path other : Bytes) (a : A) (s : Fs)
      → other ≢ path
      → read_file other (write_json p files paths encoders json path a s) ≡ read_file other s
  unfolding write_json
  write_json-other json path other a s ne =
      kept.read-write_other path other (encoded p files paths encoders json a) s ne

  pub write_json-read :
      {A : Type 0} (json : Json A) (path : Bytes) (a : A) (s : Fs)
      → read_file path (write_json p files paths encoders json path a s)
        ≡ ok (encoded p files paths encoders json a)
  unfolding write_json
  write_json-read json path a s =
      let bs = encoded p files paths encoders json a in
      let done = writable path bs s in
      let last = (write_file path bs s).1 in kept.read-write path bs s last (λ j. (done j, last))

  setup_node-other :
      (random : ℕ → Bytes) (i j : ℕ) (s : Fs)
      → j ≢ i
      → read_file (key_path j) (setup_node p files paths encoders random i s).1
        ≡ read_file (key_path j) s
  unfolding setup_node
  setup_node-other random i j s ne =
      let (r, s') = setup_key p files paths encoders (random i) (key_path i) s in
      let own = setup_key-other (random i) (key_path i) (key_path j) s (apart.keys_apart j i ne) in
      elim (Res-cases r) [
        | inl (k, e) ↦ ground (
          arith,
          own,
          write_json-other encoders.config_json (config_path i) (key_path j)
              (node_config (key_path i) (db_path i) i) s' (apart.key_config j i),
        )
        | inr (inl (x, e)) ↦ ground (arith, own)
        | inr (inr e) ↦ ground (arith, own)
      ]

  setup_nodes-other :
      (random : ℕ → Bytes) (left i j : ℕ) (s : Fs)
      → j < i
      → read_file (key_path j) (setup_nodes p files paths encoders random left i s).1
        ≡ read_file (key_path j) s
  unfolding setup_nodes
  setup_nodes-other random zero i j s below = refl
  setup_nodes-other random (suc left) i j s below =
      let (r, s1) = setup_node p files paths encoders random i s in
      let first = setup_node-other random i j s (omega arith) in
      let later = setup_nodes-other random left (suc i) j s1 (omega arith) in
      elim (Res-cases r) [
        | inl (k, e) ↦ ground (arith, first, later)
        | inr (inl (x, e)) ↦ ground (arith, first)
        | inr (inr e) ↦ ground (arith, first)
      ]

  setup_node-HasKey :
      (random : ℕ → Bytes) (i : ℕ) (key : Bytes) (s s' : Fs)
      → setup_node p files paths encoders random i s ≡ (ok key, s')
      → HasKey i key s'
  unfolding setup_node
  setup_node-HasKey random i key s s' h =
      let (r, mid) = setup_key p files paths encoders (random i) (key_path i) s in
      elim (Res-cases r) [
        | inl (k, e) ↦
            let (bs, stored, size, printed) =
              setup_key-HasKey (random i) k i s mid (λ t. (e t, mid)) in
            (
              bs,
              ground (
                arith,
                write_json-other encoders.config_json (config_path i) (key_path i)
                    (node_config (key_path i) (db_path i) i) mid (apart.key_config i i),
              ),
              size,
              ground arith,
            )
        | inr (inl (x, e)) ↦ absurd (ground arith)
        | inr (inr e) ↦ absurd (ground arith)
      ]

  -- from node i on, each node has the key of the list
  abbrev pub AllHaveKeys : ℕ → List Bytes → Fs → Type 0
  AllHaveKeys i [] s = Unit {0}
  AllHaveKeys i (key ∷ keys) s = HasKey i key s × AllHaveKeys (suc i) keys s

  pub setup_nodes-HaveKeys :
      (random : ℕ → Bytes) (left i : ℕ) (keys : List Bytes) (s s' : Fs)
      → setup_nodes p files paths encoders random left i s ≡ (ok keys, s')
      → AllHaveKeys i keys s'
  unfolding setup_nodes
  setup_nodes-HaveKeys random zero i [] s s' h = tt
  setup_nodes-HaveKeys random zero i (k ∷ keys) s s' h = absurd (ground arith)
  setup_nodes-HaveKeys random (suc left) i keys s s' h =
      let (r, s1) = setup_node p files paths encoders random i s in
      let (rest, s2) = setup_nodes p files paths encoders random left (suc i) s1 in
      elim (Res-cases r) [
        | inl (key, e) ↦ elim (Res-cases rest) [
          | inl (others, f) ↦
              let (bs, stored, size, printed) =
                setup_node-HasKey random i key s s1 (λ t. (e t, s1)) in
              let later = setup_nodes-HaveKeys random left (suc i) others s1 s2 (λ t. (f t, s2)) in
              let still = setup_nodes-other random left (suc i) i s1 (omega arith) in
              let same : (keys ≡ key ∷ others) × (s' ≡ s2) = ground arith in
              rw (same.0, same.1) ((bs, still ∙ stored, size, printed), later)
          | inr (inl (x, f)) ↦ absurd (ground arith)
          | inr (inr f) ↦ absurd (ground arith)
        ]
        | inr (inl (x, e)) ↦ absurd (ground arith)
        | inr (inr e) ↦ absurd (ground arith)
      ]

  pub length-setup_nodes :
      (random : ℕ → Bytes) (left i : ℕ) (keys : List Bytes) (s s' : Fs)
      → setup_nodes p files paths encoders random left i s ≡ (ok keys, s')
      → length keys ≡ left
  unfolding setup_nodes
  length-setup_nodes random zero i keys s s' h = ground arith
  length-setup_nodes random (suc left) i keys s s' h =
      let (r, s1) = setup_node p files paths encoders random i s in
      let (rest, s2) = setup_nodes p files paths encoders random left (suc i) s1 in
      elim (Res-cases rest) [
        | inl (others, f) ↦
            let more = length-setup_nodes random left (suc i) others s1 s2 (λ t. (f t, s2)) in
            ground arith
        | inr (inl (x, f)) ↦ absurd (ground arith)
        | inr (inr f) ↦ absurd (ground arith)
      ]
