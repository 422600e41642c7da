-- ===== src/Daemon.antt =====
-- cmd/cdml/main.go: the daemon, from its configuration to its goroutines, and from a signal to its end.
pub mod Shutdown
pub mod Restart
use cdml.Common.{Bool, true, false, Bytes, List, [], ◌∷◌, ◌++◌}
use cdml.Core.Errors.{Res, ok, err, panic, Error}
use cdml.Json.{Json}
use cdml.Crypto.KeyPair.{KeyPair}
use cdml.Node.Config.{Config, KeyFile, load_config}
use cdml.Node.State.{Node, NodeLibraries}
use cdml.Node.Mutex.{Outcome, returns, ◌then◌, stop}
use cdml.Node.Start.{Goroutine, serving_api, start_node, new_node}

-- the log.Fatalf that ends it
pub data Stage : Type 0 where
  load_config_failed create_node_failed start_node_failed : Stage

-- what runs, and what is open
pub record Process (lib : NodeLibraries) : Type 0 where
  pub cfg : Config
  pub kp : KeyPair
  pub node : Node lib
  pub goroutines : List Goroutine
  pub listening : Bool
  pub api_up : Bool
  pub db_open : Bool

pub data Booted (lib : NodeLibraries) : Type 0 where
  running : Process lib → Booted lib
  exited : Stage → Error → Booted lib
  crashed : Booted lib

-- what a start of the daemon finds: its configuration file, badger.Open and net.Listen, and what
-- crypto/rand gives
pub record Machine (lib : NodeLibraries) : Type 0 where
  pub config_json : Json Config
  pub config_file : Res Bytes
  pub badger_open : Bytes → Bool → Res lib.libs.badger.Disk
  pub listen : Bytes → Res (Unit {0})
  pub random : Bytes

module _ (lib : NodeLibraries) (file : KeyFile) where
  -- `if err != nil { log.Fatalf(...) }`
  abbrev or_exit : {A : Type 0} → Stage → Res A → (A → Booted lib) → Booted lib
  or_exit stage r f = elim r [ ok a ↦ f a | err e ↦ exited stage e | panic ↦ crashed ]

  -- n.Start, and the goroutine of the server behind it
  unfoldable pub start_all : Machine lib → Config → KeyPair → Node lib → Booted lib
  unfolding start_node
  start_all m cfg kp node = or_exit start_node_failed (start_node m.listen cfg) (λ goroutines.
      running (record {
        cfg = cfg;
        kp = kp;
        node = node;
        goroutines = goroutines ++ serving_api cfg.api_addr ∷ [];
        listening = true;
        api_up = true;
        db_open = true;
      }))

  -- main up to the wait for a signal; the key file may have been written
  unfoldable pub boot : Machine lib → file.Fs → Booted lib × file.Fs
  unfolding load_config new_node start_all
  boot m fs = elim (load_config m.config_json m.config_file) [
    | err e ↦ (exited load_config_failed e, fs)
    | panic ↦ (crashed, fs)
    | ok cfg ↦
        let (r, fs') = new_node lib file m.random m.badger_open cfg fs in
        (or_exit create_node_failed r (λ made. start_all m cfg made.0 made.1), fs')
  ]

-- n.Stop: the listener, the peers, and then the database
unfoldable pub stop_node : {lib : NodeLibraries} → Process lib → Outcome (Process lib)
unfolding stop
stop_node {lib} p =
    stop lib p.node then λ n. returns (record p { listening = false; node = n; db_open = false })

-- main after the signal
unfoldable pub shut_down : {lib : NodeLibraries} → Process lib → Outcome (Process lib)
unfolding stop_node
shut_down p = stop_node (record p { api_up = false })
