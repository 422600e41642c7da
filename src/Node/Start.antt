-- ===== src/Node/Start.antt =====
-- node/node.go: New with its key and its database, and Start. The opening of the database and of the
-- listener are parameters.
use cdml.Common.{Bool, false, Bytes, List, ◌∷◌, map}
use cdml.Core.Errors.{Res, ok, wrapped, ◌>>=◌, ◌>>◌}
use cdml.Crypto.KeyPair.{KeyPair}
use cdml.Node.Config.{Config, KeyFile, load_or_create_key}
use cdml.Storage.Db.{open_db}
use cdml.Node.State.{Node, NodeLibraries, new}

-- the goroutines that Start and main leave running
pub data Goroutine : Type 0 where
  accepting : Goroutine
  connecting_to : Bytes → Goroutine
  serving_api : Bytes → Goroutine

-- `Start`: the listener, and a goroutine for it and for each seed
unfoldable pub start_node : (Bytes → Res (Unit {0})) → Config → Res (List Goroutine)
start_node listen cfg = do
  wrapped (listen cfg.p2p_addr)
  ok (accepting ∷ map connecting_to cfg.seed_peers)

module _ (lib : NodeLibraries) where
  open lib use {libs, packet_json}

  -- `New`
  unfoldable pub new_node :
      (file : KeyFile)
      → Bytes
      → (Bytes → Bool → Res libs.badger.Disk)
      → Config
      → file.Fs
      → Res (KeyPair × Node lib) × file.Fs
  unfolding open_db
  new_node file random badger_open cfg fs =
      let (r, fs') = load_or_create_key file libs.primitives random fs in
      (
        (do
          kp ← r
          disk ← open_db badger_open (record { path = cfg.db_path; in_memory = false })
          ok (kp, new lib disk)),
        fs',
      )
