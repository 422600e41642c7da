-- ===== src/Protocol/Processor/World.antt =====
-- What a TxProcessor works on, the libraries that it is given, and the constants of its file.
use cdml.Common.{ℕ, ◌*◌, List}
use cdml.Core.Errors.{Res, ok}
use cdml.Core.Types.{Transaction, Snapshot, Witness, second}
use cdml.Exec.{Exec}
use cdml.Json.{Json, JsonLaws}
use cdml.Crypto.Primitives.{Primitives, PrimitivesLaws}
use cdml.Storage.Badger.{Badger, BadgerLaws}
use cdml.Protocol.Dag.{Edges}

-- snapshotInterval
abbrev pub snapshot_interval : ℕ
snapshot_interval = 1000

-- snapshotTTL, six hours
abbrev pub snapshot_ttl : ℕ
snapshot_ttl = 21_600 * second

-- the third-party and standard libraries that a node is linked with
pub record Libraries : Type 1 where
  pub badger : Badger
  pub primitives : Primitives
  pub tx_json : Json Transaction
  pub snapshot_json : Json Snapshot
  pub witness_json : Json (List Witness)

pub record LibraryLaws (libs : Libraries) : Type 0 where
  pub badger_laws : BadgerLaws libs.badger
  pub primitives_laws : PrimitivesLaws libs.primitives
  pub tx_json_laws : JsonLaws libs.tx_json
  pub snapshot_json_laws : JsonLaws libs.snapshot_json
  pub witness_json_laws : JsonLaws libs.witness_json

-- the database and the edges of the DAG
pub record World (libs : Libraries) : Type 0 where
  pub disk : libs.badger.Disk
  pub edges : Edges

module _ (libs : Libraries) where
  abbrev pub on_disk : {A : Type 0} → Exec libs.badger.Disk A → Exec (World libs) A
  on_disk m now w = let (r, d) = m now w.disk in (r, record w { disk = d })

  abbrev pub on_dag : {A : Type 0} → (Edges → Res A × Edges) → Exec (World libs) A
  on_dag f now w = let (r, e) = f w.edges in (r, record w { edges = e })

  abbrev pub gets : {A : Type 0} → (World libs → A) → Exec (World libs) A
  gets f now w = (ok (f w), w)
