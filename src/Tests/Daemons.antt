-- ===== src/Tests/Daemons.antt =====
-- Daemons that start, start again, accept a peer and are told to end.
use cdml.Common.{Bytes, copy_into, Option, none, some, [], ◌∷◌, ◌≡◌, refl, arith}
use cdml.Core.Errors.{ok, err, failure, key_not_found}
use cdml.Crypto.KeyPair.{generate}
use cdml.Network.Peer.{new_peer}
use cdml.Node.Config.{Config, KeyFile, KeyFileLaws, load_config, create_key, load_or_create_key}
use cdml.Node.State.{peer_at}
use cdml.Node.Mutex.{stuck}
use cdml.Node.Start.{start_node, new_node}
use cdml.Daemon.{Process, Machine, running, start_all, boot, shut_down}
use cdml.Daemon.Shutdown.{shut_down-any_open}
use cdml.Daemon.Restart.{fresh_process, boot_again}
use cdml.Tests.Accounts.{bob}
use cdml.Tests.Cluster.{keys, lib, laws, node, registered_disk}

-- one file, which may be missing
abbrev one_file : KeyFile
one_file = record {
  Fs = Option Bytes;
  read_file = λ f. elim f [ none ↦ err key_not_found | some bs ↦ ok bs ];
  write_file = λ bs f. (ok tt, some bs);
}

one_file_laws : KeyFileLaws one_file
one_file_laws = record { read-write = λ bs s s' e. ground (arith, e) }

abbrev configuration : Config
configuration = record {
  priv_key_path = [];
  db_path = [];
  p2p_addr = 1 ∷ [];
  api_addr = 2 ∷ [];
  seed_peers = (3 ∷ []) ∷ [];
  network_id = [];
}

abbrev machine : Machine lib
machine = record {
  config_json = record { marshal = λ _. err (failure 9); unmarshal = λ _. ok configuration };
  config_file = ok [];
  badger_open = λ _ _. ok registered_disk;
  listen = λ _. ok tt;
  random = [];
}

abbrev first_process : Process lib
first_process = fresh_process lib one_file configuration keys registered_disk

abbrev left : Option Bytes
left = (boot lib one_file machine none).1

booted : boot lib one_file machine none ≡ (running first_process, left)
unfolding boot start_all start_node new_node load_config load_or_create_key create_key generate
    copy_into
booted = refl

boot_again_example : boot lib one_file machine left ≡ (running first_process, left)
unfolding load_config
boot_again_example =
    boot_again lib one_file laws one_file_laws machine machine first_process none left
      registered_disk booted refl refl refl

-- the process with an open connection to bob
abbrev linked : Process lib
linked = record first_process {
  node = record node { conns = new_peer bob [] ∷ []; peers = (bob, 0) ∷ [] };
}

shut_down-any_open_example : shut_down linked ≡ stuck
unfolding peer_at
shut_down-any_open_example = shut_down-any_open lib linked refl
