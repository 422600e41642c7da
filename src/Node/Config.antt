-- ===== src/Node/Config.antt =====
-- node/config.go: LoadConfig and loadOrCreateKey, over the file system as a parameter.
pub mod Restart
use cdml.Common.{Bytes, List, length, ◌==◌, if◌then◌else◌, ◌≡◌, ap}
use cdml.Core.Errors.{Res, ok, err, panic, wrap, wrapped}
use cdml.Json.{Json, JsonLaws}
use cdml.Crypto.Primitives.{Primitives}
use cdml.Crypto.KeyPair.{KeyPair, generate, load_from_bytes, private_bytes}

pub record Config : Type 0 where
  pub priv_key_path : Bytes
  pub db_path : Bytes
  pub p2p_addr : Bytes
  pub api_addr : Bytes
  pub seed_peers : List Bytes
  pub network_id : Bytes

-- the argument is what os.ReadFile of the path returns
unfoldable pub load_config : Json Config → Res Bytes → Res Config
load_config json (ok bs) = wrapped (json.unmarshal bs)
load_config json (err e) = err (wrap e)
load_config json panic = panic

-- A configuration that was encoded and stored is loaded.
load_config-marshal :
    (json : Json Config) (coded : JsonLaws json) (cfg : Config) (bs : Bytes) (file : Res Bytes)
    → json.marshal cfg ≡ ok bs
    → file ≡ ok bs
    → load_config json file ≡ ok cfg
unfolding load_config
load_config-marshal json coded cfg bs file e stored =
    rw stored (ap wrapped (coded.unmarshal-marshal cfg bs e))

-- os.ReadFile and os.WriteFile of the key's path
pub record KeyFile : Type 1 where
  pub Fs : Type 0
  pub read_file : Fs → Res Bytes
  pub write_file : Bytes → Fs → Res (Unit {0}) × Fs

module _ (file : KeyFile) where
  open file use {Fs, read_file, write_file}

  -- what was written without an error is read
  pub record KeyFileLaws : Type 0 where
    pub read-write : (bs : Bytes) (s s' : Fs) → write_file bs s ≡ (ok tt, s') → read_file s' ≡ ok bs

  module _ (p : Primitives) (random : Bytes) where
    -- the second half of loadOrCreateKey
    unfoldable pub create_key : Fs → Res KeyPair × Fs
    create_key s = elim (generate p random) [
      | ok kp ↦
          let (r, s') = write_file (private_bytes p kp) s in
          (elim r [ ok _ ↦ ok kp | err e ↦ err (wrap e) | panic ↦ panic ], s')
      | err e ↦ (err e, s)
      | panic ↦ (panic, s)
    ]

    unfoldable pub load_or_create_key : Fs → Res KeyPair × Fs
    unfolding create_key
    load_or_create_key s = elim (read_file s) [
      | ok bs ↦ if length bs == 64 then (load_from_bytes p bs, s) else create_key s
      | err e ↦ create_key s
      | panic ↦ (panic, s)
    ]
