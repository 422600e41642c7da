-- ===== src/Api/Server/Safe.antt =====
-- Requests that change nothing.
use cdml.Common.{ℕ, Bytes, ◌≡◌, ◌≢◌, refl, inl, inr, arith}
use cdml.Core.Errors.{Res, Res-cases}
use cdml.Crypto.KeyPair.{KeyPair, pub_key_from_hex}
use cdml.Storage.Db
use cdml.Storage.Chain.{get_tx}
use cdml.Storage.Chain.Reads.{get_balance-disk, get_latest_seq-disk}
use cdml.Storage.Snapshots.{get_active_witnesses}
use cdml.Api.{handle_status, handle_peers, handle_balance, handle_get_tx, handle_active_witnesses}
use cdml.Node.State.{Node, NodeLibraries}
use cdml.Api.Server.{Method, Bodies, Request, Resource, segments, resource, on_get, mux, serve}

module _ (lib : NodeLibraries) (kp : KeyPair) where
  open lib use {libs}
  open libs use {badger, tx_json, witness_json}

  handle_balance-state :
      (pk_hex : Bytes) (now : ℕ) (s : Node lib) → (handle_balance lib kp pk_hex now s).1 ≡ s
  unfolding handle_balance
  handle_balance-state pk_hex now s = elim (Res-cases (pub_key_from_hex pk_hex)) [
    | inl (pk, e) ↦ ground (
      arith,
      get_balance-disk badger pk now s.world.disk,
      get_latest_seq-disk badger pk now s.world.disk,
    )
    | inr (inl (x, e)) ↦ ground arith
    | inr (inr e) ↦ ground arith
  ]

  handle_get_tx-state :
      (pk_hex seq_str : Bytes) (now : ℕ) (s : Node lib)
      → (handle_get_tx lib kp pk_hex seq_str now s).1 ≡ s
  unfolding handle_get_tx get_tx Db.get
  handle_get_tx-state pk_hex seq_str now s = ground arith

  handle_active_witnesses-state :
      (now : ℕ) (s : Node lib) → (handle_active_witnesses lib kp now s).1 ≡ s
  unfolding handle_active_witnesses get_active_witnesses Db.get
  handle_active_witnesses-state now s = ground arith

  module _ (bodies : Bodies) where
    on_get-state : (r : Resource) (now : ℕ) (s : Node lib) → (on_get lib kp bodies r now s).1 ≡ s
    unfolding on_get handle_status handle_peers
    on_get-state (Resource.balance pk) now s = ground (arith, handle_balance-state pk now s)
    on_get-state (Resource.get_tx pk seq) now s = ground (arith, handle_get_tx-state pk seq now s)
    on_get-state Resource.active_witnesses now s =
        ground (arith, handle_active_witnesses-state now s)
    on_get-state Resource.healthz now s = refl
    on_get-state Resource.status now s = refl
    on_get-state Resource.peers now s = refl
    on_get-state Resource.send_tx now s = refl
    on_get-state Resource.create_snapshot now s = refl
    on_get-state Resource.faucet now s = refl
    on_get-state Resource.register_witnesses now s = refl
    on_get-state Resource.unknown now s = refl

    -- Only a POST changes the node: a request with any other method, whatever its path and body,
    -- leaves the node as it was.
    pub serve_safe :
        (random : Res Bytes) (req : Request) (now : ℕ) (s : Node lib)
        → req.method ≢ Method.post
        → (serve lib kp bodies random req now s).1 ≡ s
    unfolding serve mux
    serve_safe random req now s safe =
        ground (arith, on_get-state (resource (segments req.path)) now s)
