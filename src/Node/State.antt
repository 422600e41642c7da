-- ===== src/Node/State.antt =====
-- node/node.go: the state of a node, the messages, and how packets leave. The peers that the node
-- has ever had are a list of objects, and a pointer to one is its position there. A handler runs as
-- one step, except where Mutex and Collecting say so.
use Prim.Native.Nat.{bit_xor}
use cdml.Common.{
  ℕ, zero, suc, ◌==◌, Bool, false, if◌then◌else◌, Bytes, List, [], ◌∷◌, map, Option, none, some,
}
use cdml.Common.Maps.{lookup}
use cdml.Core.Errors.{ok}
use cdml.Core.Types.{PubKey, Hash32, Transaction, Snapshot, WitnessSignature}
use cdml.Exec.{Exec}
use cdml.Json.{Json}
use cdml.Network.Framing.{Packet}
use cdml.Network.Gossip.{Gossip, new_gossip, select_peers, fanout}
use cdml.Network.Peer.{Peer, send}
use cdml.Protocol.Dag.{new_dag_manager}
use cdml.Protocol.Processor.World.{Libraries, World}
use cdml.Protocol.Processor.Confirm.{AutoSnapshot}

-- the K of the quorum
abbrev pub quorum_k : ℕ
quorum_k = 3

pub record PendingMeta : Type 0 where
  pub tx : Transaction
  pub sigs : List WitnessSignature
  pub confirmed : Bool

pub record NonceLockMsg : Type 0 where
  pub from : PubKey
  pub nonce : ℕ

-- A pointer that the sender left out is nil.
pub record TxVerifyMsg : Type 0 where
  pub tx : Option Transaction
  pub snapshot : Option Snapshot

pub record WitSigMsg : Type 0 where
  pub tx_hash : Hash32
  pub sig : WitnessSignature

pub record ConfirmedMsg : Type 0 where
  pub tx : Option Transaction

-- a goroutine that was started and has not run yet
pub data Task : Type 0 where
  confirm : Transaction → List WitnessSignature → Task
  take_snapshot : AutoSnapshot → Task

-- what a node is linked with, and the permutation that SelectPeers makes
pub record NodeLibraries : Type 1 where
  pub libs : Libraries
  pub nonce_lock_json : Json NonceLockMsg
  pub tx_verify_json : Json TxVerifyMsg
  pub wit_sig_json : Json WitSigMsg
  pub confirmed_json : Json ConfirmedMsg
  pub packet_json : Json Packet
  pub shuffle : List ℕ → List ℕ

pub record Node (lib : NodeLibraries) : Type 0 where
  pub world : World lib.libs
  pub gossip : Gossip
  pub pending_tx : List (Hash32 × PendingMeta)
  pub peers : List (PubKey × ℕ)
  pub conns : List Peer
  pub tasks : List Task
  pub mu_held : Bool

-- the object that a pointer points to, and a change of it in place
unfoldable pub peer_at : ℕ → List Peer → Option Peer
peer_at i [] = none
peer_at zero (p ∷ ps) = some p
peer_at (suc i) (p ∷ ps) = peer_at i ps

unfoldable pub alter : ℕ → (Peer → Peer) → List Peer → List Peer
alter i f [] = []
alter zero f (p ∷ ps) = f p ∷ ps
alter (suc i) f (p ∷ ps) = p ∷ alter i f ps

-- `p != exclude`
unfoldable pub excluding : Option ℕ → List ℕ → List ℕ
excluding none ids = ids
excluding (some x) [] = []
excluding (some x) (i ∷ ids) =
    let rest = excluding (some x) ids in if i == x then rest else i ∷ rest

-- txHash XOR witness key, byte by byte
unfoldable pub xor_bytes : Bytes → Bytes → Bytes
xor_bytes [] _ = []
xor_bytes (a ∷ as') [] = []
xor_bytes (a ∷ as') (b ∷ bs) = bit_xor a b ∷ xor_bytes as' bs

module _ (lib : NodeLibraries) where
  open lib use {libs, packet_json, shuffle}

  -- the state that New makes over a database
  abbrev pub new : libs.badger.Disk → Node lib
  new disk = record {
    world = record { disk = disk; edges = new_dag_manager };
    gossip = new_gossip;
    pending_tx = [];
    peers = [];
    conns = [];
    tasks = [];
    mu_held = false;
  }

  -- the loop of broadcast over the selected peers: what Send returns is dropped
  unfoldable pub send_all : List ℕ → Packet → List Peer → List Peer
  unfolding alter send
  send_all [] pkt conns = conns
  send_all (i ∷ ids) pkt conns = send_all ids pkt (alter i (λ p. (send packet_json pkt p).1) conns)

  unfoldable pub broadcast : Packet → Option ℕ → Exec (Node lib) (Unit {0})
  unfolding excluding send_all
  broadcast pkt exclude now s = (
    ok tt,
    record s {
      conns =
          send_all (select_peers shuffle (excluding exclude (map (λ e. e.1) s.peers)) fanout) pkt
            s.conns;
    },
  )

  unfoldable pub send_to_peer : ℕ → Packet → Exec (Node lib) (Unit {0})
  unfolding send_all
  send_to_peer i pkt now s = (ok tt, record s { conns = send_all (i ∷ []) pkt s.conns })

  unfoldable pub send_to_originator : PubKey → Packet → Exec (Node lib) (Unit {0})
  unfolding send_to_peer
  send_to_originator from pkt now s = elim (lookup from s.peers) [
    | none ↦ (ok tt, s)
    | some i ↦ send_to_peer i pkt now s
  ]

  -- a step on the stores and the DAG
  abbrev pub on_world : {A : Type 0} → Exec (World libs) A → Exec (Node lib) A
  on_world m now s = let (r, w) = m now s.world in (r, record s { world = w })

  abbrev pub reads : {A : Type 0} → (Node lib → A) → Exec (Node lib) A
  reads f now s = (ok (f s), s)
