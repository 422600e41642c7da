-- ===== src/Storage/Snapshots.antt =====
-- internal/storage/snapshot.go: SnapshotStore and WitnessStore.
pub mod Stored
use cdml.Common.{
  ℕ, Bytes, Bytes-discrete, List, [], ◌∷◌, Option, none, some, contains, if◌then◌else◌,
}
use cdml.Core.Errors.{Res, ok}
use cdml.Core.Types.{PubKey, Snapshot, Witness}
use cdml.Exec.{Exec, pure, lift, wrapped, ◌>>=◌}
use cdml.Json.{Json}
use cdml.Storage.Badger.{Badger}
use cdml.Storage.Keys.{snap_key, active_witnesses_key}
use cdml.Storage.Chain.{decode}
use cdml.Storage.Db

-- `set[pk] = struct{}{}` on the keys of a Go map
unfoldable pub add_key : PubKey → List PubKey → List PubKey
unfolding Bytes-discrete
add_key pk keys = if contains Bytes-discrete pk keys then keys else pk ∷ keys

-- the loop of GetActiveSet over the witnesses
unfoldable pub key_set : List Witness → List PubKey → List PubKey
unfolding add_key
key_set [] keys = keys
key_set (w ∷ ws) keys = key_set ws (add_key w.pub_key keys)

-- the nil slice of GetActiveWitnesses is empty
abbrev pub or_empty : Option (List Witness) → List Witness
or_empty none = []
or_empty (some ws) = ws

module _ (b : Badger) where
  open b use {Disk}

  unfoldable pub save_snapshot : Json Snapshot → Snapshot → Exec Disk (Unit {0})
  save_snapshot json snap = do
    encoded ← wrapped (lift (json.marshal snap))
    Db.set b (snap_key snap.pub_key) encoded

  unfoldable pub get_latest : Json Snapshot → PubKey → Exec Disk (Option Snapshot)
  get_latest json pk = do val ← Db.get b (snap_key pk); lift (decode json val)

  unfoldable pub save_active_witnesses : Json (List Witness) → List Witness → Exec Disk (Unit {0})
  save_active_witnesses json witnesses = do
    encoded ← wrapped (lift (json.marshal witnesses))
    Db.set b active_witnesses_key encoded

  unfoldable pub get_active_witnesses : Json (List Witness) → Exec Disk (List Witness)
  get_active_witnesses json = do
    val ← Db.get b active_witnesses_key
    found ← lift (decode json val)
    pure (or_empty found)

  unfoldable pub get_active_set : Json (List Witness) → Exec Disk (List PubKey)
  unfolding get_active_witnesses key_set
  get_active_set json = do witnesses ← get_active_witnesses json; pure (key_set witnesses [])
