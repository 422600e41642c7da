-- ===== src/Scripts/Localnet.antt =====
-- scripts/localnet/setup.go: the configurations of the nodes and the witnesses of genesis.json;
-- scripts/localnet/init.go: the witnesses that are registered. The keys are an argument.
pub mod Connected
pub mod Setup
pub mod Init
pub mod KeyFiles
pub mod Started
pub mod Witnesses
use cdml.Common.{ℕ, zero, suc, ◌+◌, ◌-◌, Bytes, List, [], ◌∷◌, ◌++◌, map}
use cdml.Api.{WitnessRequest}
use cdml.Scripts.Cli.{digits}

abbrev pub total_nodes : ℕ
total_nodes = 5

abbrev pub base_peer_port : ℕ
base_peer_port = 7331

abbrev base_api_port : ℕ
base_api_port = 8331

-- "127.0.0.1:"
abbrev host : Bytes
host = b'1' ∷ b'2' ∷ b'7' ∷ b'.' ∷ b'0' ∷ b'.' ∷ b'0' ∷ b'.' ∷ b'1' ∷ b':' ∷ []

-- fmt.Sprintf("127.0.0.1:%d", port)
unfoldable pub local_address : ℕ → Bytes
unfolding digits
local_address port = host ++ digits 20 port []

-- "cdml-local-1"
abbrev pub network : Bytes
network = b'c' ∷ b'd' ∷ b'm' ∷ b'l' ∷ b'-' ∷ b'l' ∷ b'o' ∷ b'c' ∷ b'a' ∷ b'l' ∷ b'-' ∷ b'1' ∷ []

-- Config, the configuration of a node
pub record NodeConfig : Type 0 where
  pub priv_key_path : Bytes
  pub db_path : Bytes
  pub p2p_addr : Bytes
  pub api_addr : Bytes
  pub seed_peers : List Bytes
  pub network_id : Bytes

-- Genesis
pub record Genesis : Type 0 where
  pub network_id : Bytes
  pub witnesses : List WitnessRequest

-- the loop over j, with n numbers left
unfoldable pub seeds_from : ℕ → ℕ → List Bytes
seeds_from j zero = []
seeds_from j (suc n) = local_address (base_peer_port + j - 1) ∷ seeds_from (suc j) n

-- the configuration of node i, whose key file and database are at these paths
unfoldable pub node_config : Bytes → Bytes → ℕ → NodeConfig
node_config key_path db_path i = record {
  priv_key_path = key_path;
  db_path = db_path;
  p2p_addr = local_address (base_peer_port + i - 1);
  api_addr = local_address (base_api_port + i - 1);
  seed_peers = seeds_from 1 (i - 1);
  network_id = network;
}

-- the witnesses of genesis.json, one for each public key, the first at position i
unfoldable pub genesis_from : ℕ → List Bytes → List WitnessRequest
genesis_from i [] = []
genesis_from i (pk ∷ pub_keys) =
    (record { pub_key = pk; addr = local_address (base_peer_port + i) })
    ∷ genesis_from (suc i) pub_keys

-- genesis.json for these public keys
unfoldable pub genesis_of : List Bytes → Genesis
genesis_of pub_keys = record { network_id = network; witnesses = genesis_from 0 pub_keys }

-- the witnesses that init.go registers with every node: the keys the nodes reported, and the P2P
-- addresses of their configurations
unfoldable pub registered_from : List NodeConfig → List Bytes → List WitnessRequest
registered_from (cfg ∷ nodes) (pk ∷ pub_keys) =
    (record { pub_key = pk; addr = cfg.p2p_addr }) ∷ registered_from nodes pub_keys
registered_from _ _ = []
