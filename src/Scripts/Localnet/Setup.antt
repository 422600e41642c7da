-- ===== src/Scripts/Localnet/Setup.antt =====
-- scripts/localnet/setup.go: main without the start scripts: the keys, the configurations and genesis.json.
-- The file system, the paths and the encoders are parameters; the errors of writes are dropped, as there.
use cdml.Common.{ℕ, zero, suc, ◌==◌, if◌then◌else◌, Bytes, length, drop, List, [], ◌∷◌, ◌≡◌, ◌≢◌}
use cdml.Core.Errors.{Res, ok, err, panic}
use cdml.Json.{Json}
use cdml.Crypto.Primitives.{Primitives}
use cdml.Api.{hex_encode}
use cdml.Scripts.Localnet.{NodeConfig, Genesis, node_config, genesis_of, total_nodes}

pub record Files : Type 1 where
  pub Fs : Type 0
  pub read_file : Bytes → Fs → Res Bytes
  pub write_file : Bytes → Bytes → Fs → Res (Unit {0}) × Fs

module _ (files : Files) where
  open files use {Fs, read_file, write_file}

  -- what was written without an error is read, and a write changes no other file
  pub record FilesLaws : Type 0 where
    pub read-write :
        (path bs : Bytes) (s s' : Fs)
        → write_file path bs s ≡ (ok tt, s')
        → read_file path s' ≡ ok bs
    pub read-write_other :
        (path other bs : Bytes) (s : Fs)
        → other ≢ path
        → read_file other (write_file path bs s).1 ≡ read_file other s

-- testnet/nodeN/node.key, db and config.json, and testnet/genesis.json
pub record Paths : Type 0 where
  pub key_path : ℕ → Bytes
  pub db_path : ℕ → Bytes
  pub config_path : ℕ → Bytes
  pub genesis_path : Bytes

pub record Encoders : Type 0 where
  pub config_json : Json NodeConfig
  pub genesis_json : Json Genesis

module _ (p : Primitives) (files : Files) (paths : Paths) (encoders : Encoders) where
  open files use {Fs, read_file, write_file}
  open paths use {key_path, db_path, config_path, genesis_path}

  unfoldable pub create : Bytes → Bytes → Fs → Res Bytes × Fs
  create random path s = elim (p.generate_key random) [
    | ok (pub_key, priv) ↦ (ok pub_key, (write_file path priv s).1)
    | _ ↦ (panic, s)
  ]

  -- the public key of a node: a key file of 64 bytes is used again
  unfoldable pub setup_key : Bytes → Bytes → Fs → Res Bytes × Fs
  unfolding create
  setup_key random path s = elim (read_file path s) [
    | ok existing ↦
        if length existing == 64 then (ok (drop 32 existing), s) else create random path s
    | err _ ↦ create random path s
    | panic ↦ (panic, s)
  ]

  -- `data, _ := json.MarshalIndent(...)` and the write
  abbrev pub encoded : {A : Type 0} → Json A → A → Bytes
  encoded json a = elim (json.marshal a) [ ok bs ↦ bs | _ ↦ [] ]

  unfoldable pub write_json : {A : Type 0} → Json A → Bytes → A → Fs → Fs
  write_json json path a s = (write_file path (encoded json a) s).1

  -- a round of the loop; the random bytes are those of the node
  unfoldable pub setup_node : (ℕ → Bytes) → ℕ → Fs → Res Bytes × Fs
  setup_node random i s =
      let (r, s') = setup_key (random i) (key_path i) s in
      elim r [
        | ok pub_key ↦ (
          ok (hex_encode pub_key),
          write_json encoders.config_json (config_path i) (node_config (key_path i) (db_path i) i)
              s',
        )
        | err e ↦ (err e, s')
        | panic ↦ (panic, s')
      ]

  -- the loop, with `left` nodes to go from i on
  unfoldable pub setup_nodes : (ℕ → Bytes) → ℕ → ℕ → Fs → Res (List Bytes) × Fs
  setup_nodes random zero i s = (ok [], s)
  setup_nodes random (suc left) i s =
      let (r, s1) = setup_node random i s in
      let (rest, s2) = setup_nodes random left (suc i) s1 in
      elim r [
        | ok key ↦ (elim rest [ ok keys ↦ ok (key ∷ keys) | err e ↦ err e | panic ↦ panic ], s2)
        | err e ↦ (err e, s1)
        | panic ↦ (panic, s1)
      ]

  unfoldable pub setup : (ℕ → Bytes) → Fs → Res (List Bytes) × Fs
  setup random s =
      let (r, s') = setup_nodes random total_nodes 1 s in
      elim r [
        | ok keys ↦ (ok keys, write_json encoders.genesis_json genesis_path (genesis_of keys) s')
        | err e ↦ (err e, s')
        | panic ↦ (panic, s')
      ]
