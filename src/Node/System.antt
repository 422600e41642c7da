-- ===== src/Node/System.antt =====
-- What a node can do, one step after another: the packets of its peers, the calls of its API, its
-- goroutines, and what changes the stores and the table of peers besides.
pub mod Barren
pub mod Reachable
use cdml.Common.{ℕ, Bytes, List, ◌∷◌, ◌++◌, ◌≡◌}
use cdml.Core.Errors.{Res, ok}
use cdml.Core.Types.{PubKey, Amount, Transaction}
use cdml.Crypto.KeyPair.{KeyPair}
use cdml.Network.Framing.{Packet}
use cdml.Network.Gossip.{cleanup}
use cdml.Network.Peer.{Peer}
use cdml.Node.State.{Node, NodeLibraries, Task, new}
use cdml.Node.Handlers.{handle_packet, run_task, send_tx}

module _ (lib : NodeLibraries) (kp : KeyPair) where
  pub data Step (s s' : Node lib) : Type 0 where
    -- readLoop hands a packet to handlePacket, at an instant
    receive :
        (peer : ℕ) (pkt : Packet) (now : ℕ)
        → s' ≡ (handle_packet lib kp peer pkt now s).1
        → Step s s'
    -- the API calls SendTx, with what rand.Read gives
    submit :
        (to : PubKey) (amount : Amount) (random : Res Bytes) (now : ℕ)
        → s' ≡ (send_tx lib kp to amount random now s).1
        → Step s s'
    -- a goroutine runs, in whatever order
    run :
        (before later : List Task) (task : Task) (now : ℕ)
        → s.tasks ≡ before ++ task ∷ later
        → s' ≡ (run_task lib kp task now (record s { tasks = before ++ later })).1
        → Step s s'
    -- the API, or anything else, writes to the database
    write :
        (disk : lib.libs.badger.Disk)
        → s' ≡ record s { world = record s.world { disk = disk } }
        → Step s s'
    -- peers come and go, and their queues are emptied
    connect :
        (peers : List (PubKey × ℕ)) (conns : List Peer)
        → s' ≡ record s { peers = peers; conns = conns }
        → Step s s'
    -- a round of the gossip cache's cleanup
    clean : (now : ℕ) → s' ≡ record s { gossip = cleanup now s.gossip } → Step s s'

  -- what a node that New made over a database can come to
  pub data Reach (disk : lib.libs.badger.Disk) : Node lib → Type 0 where
    started : Reach disk (new lib disk)
    next : {s s' : Node lib} → Reach disk s → Step s s' → Reach disk s'
