-- ===== src/Node/Effects.antt =====
-- What each handler leaves alone.
use cdml.Common.{
  false, Bytes, Option-cases, ℕ, List, ◌∷◌, ◌++◌, [], some, ◌≡◌, ◌⊎◌, inl, inr, arith,
}
use cdml.Common.Maps.{lookup, insert}
use cdml.Core.Errors.{Res, ok, Res-cases}
use cdml.Core.Types.{PubKey, Hash32, Amount, Transaction, WitnessSignature}
use cdml.Crypto.KeyPair.{KeyPair}
use cdml.Network.Framing.{Packet}
use cdml.Protocol.Processor.Edgeless.{
  verify_packet-edges, apply_confirmed-edges, build_tx-edges, confirm_tx-edges,
}
use cdml.Protocol.Processor.Build.{build_tx, acquire_nonce_lock}
use cdml.Protocol.Processor.Confirm.{AutoSnapshot, confirm_tx}
use cdml.Storage.Snapshots.{get_active_set}
use cdml.Crypto.Sign.{verify_quorum}
use cdml.Node.State.{
  Node, NodeLibraries, PendingMeta, quorum_k, Task, broadcast, send_to_peer, send_to_originator,
}
use cdml.Node.Handlers.{
  handle_nonce_lock, judge, answer, handle_tx_verify, handle_witness_sig, collect,
  handle_tx_confirmed, confirm, send_tx, with_sigs,
}

module _ (lib : NodeLibraries) (kp : KeyPair) where
  -- The DAG, the pending table and the goroutines are as before.
  pub record Quiet (s s' : Node lib) : Type 0 where
    pub edges : s'.world.edges ≡ s.world.edges
    pub pending : s'.pending_tx ≡ s.pending_tx
    pub tasks : s'.tasks ≡ s.tasks

  pub handle_nonce_lock-Quiet :
      (pkt : Packet) (now : ℕ) (s : Node lib) → Quiet s (handle_nonce_lock lib kp pkt now s).1
  unfolding handle_nonce_lock broadcast
  handle_nonce_lock-Quiet pkt now s = ground arith

  pub handle_tx_verify-Quiet :
      (pkt : Packet) (now : ℕ) (s : Node lib) → Quiet s (handle_tx_verify lib kp pkt now s).1
  unfolding handle_tx_verify judge answer broadcast send_to_originator
  handle_tx_verify-Quiet pkt now s = grind (arith, verify_packet-edges lib.libs)

  pub handle_tx_confirmed-Quiet :
      (pkt : Packet) (now : ℕ) (s : Node lib) → Quiet s (handle_tx_confirmed lib kp pkt now s).1
  unfolding handle_tx_confirmed broadcast
  handle_tx_confirmed-Quiet pkt now s = grind (arith, apply_confirmed-edges lib.libs)

  pub send_to_peer-Quiet :
      (i : ℕ) (pkt : Packet) (now : ℕ) (s : Node lib) → Quiet s (send_to_peer lib i pkt now s).1
  unfolding send_to_peer
  send_to_peer-Quiet i pkt now s = ground arith

  -- handleWitnessSig leaves everything alone, or collects the signature for a pending transaction.
  pub handle_witness_sig_cases :
      (pkt : Packet) (now : ℕ) (s : Node lib)
      → Quiet s (handle_witness_sig lib kp pkt now s).1
        ⊎ ((hash : Hash32) × (sig : WitnessSignature) × (meta : PendingMeta) × (lookup hash
                s.pending_tx
              ≡ some meta)
            × ((handle_witness_sig lib kp pkt now s).1 ≡ collect lib kp hash sig meta s))
  unfolding handle_witness_sig broadcast
  handle_witness_sig_cases pkt now s = elim (Res-cases (lib.wit_sig_json.unmarshal pkt.payload)) [
    | inl (msg, e) ↦ elim (Option-cases (lookup msg.tx_hash s.pending_tx)) [
      | inl missing ↦ inl (ground arith)
      | inr (meta, found) ↦ inr (msg.tx_hash, msg.sig, meta, found, ground arith)
    ]
    | inr (inl (x, e)) ↦ inl (ground arith)
    | inr (inr e) ↦ inl (ground arith)
  ]

  -- Node.confirmTx of a transaction without parents may start one goroutine, for a snapshot.
  pub confirm_effects :
      (tx : Transaction) (sigs : List WitnessSignature) (now : ℕ) (s : Node lib)
      → tx.parent_hashes ≡ []
      → let s' = (confirm lib kp tx sigs now s).1 in
        (s'.world.edges ≡ s.world.edges)
        × (s'.pending_tx ≡ s.pending_tx)
        × ((s'.tasks ≡ s.tasks)
            ⊎ ((job : AutoSnapshot) × (s'.tasks ≡ s.tasks ++ Task.take_snapshot job ∷ [])))
  unfolding confirm broadcast
  confirm_effects tx sigs now s none_there =
      let active = get_active_set lib.libs.badger lib.libs.witness_json now s.world.disk in
      let w = record s.world { disk = active.1 } in
      let result = confirm_tx lib.libs (with_sigs tx sigs) now w in
      let same = confirm_tx-edges lib.libs (with_sigs tx sigs) now w none_there in
      elim (Res-cases active.0) [
        | inl (valid_set, a) ↦
            elim (Res-cases (verify_quorum lib.libs.primitives sigs tx.hash valid_set quorum_k)) [
              | inl (_, q) ↦ elim (Res-cases result.0) [
                | inl (job, r) ↦ elim (Option-cases job) [
                  | inl none_started ↦ ground (arith, same)
                  | inr (started, j) ↦
                      (ground (arith, same), ground arith, inr (started, ground arith))
                ]
                | inr (inl (x, r)) ↦ ground (arith, same)
                | inr (inr r) ↦ ground (arith, same)
              ]
              | inr (inl (x, q)) ↦ ground arith
              | inr (inr q) ↦ ground arith
            ]
        | inr (inl (x, a)) ↦ ground arith
        | inr (inr a) ↦ ground arith
      ]

  -- SendTx leaves the DAG and the goroutines alone; it fails without an entry, or adds one for a
  -- transaction whose parents are the tips.
  pub send_tx_effects :
      (to : PubKey) (amount : Amount) (random : Res Bytes) (now : ℕ) (s : Node lib)
      → let s' = (send_tx lib kp to amount random now s).1 in
        (s'.world.edges ≡ s.world.edges)
        × (s'.tasks ≡ s.tasks)
        × ((s'.pending_tx ≡ s.pending_tx)
            ⊎ ((tx : Transaction) × ((build_tx lib.libs kp to amount random now s.world).0 ≡ ok tx)
                × (s'.pending_tx
                    ≡ insert tx.hash
                        (record { tx = tx; sigs = []; confirmed = false })
                        s.pending_tx)))
  unfolding send_tx broadcast acquire_nonce_lock
  send_tx_effects to amount random now s =
      let built = build_tx lib.libs kp to amount random now s.world in
      let same = build_tx-edges lib.libs kp to amount random now s.world in
      elim (Res-cases built.0) [
        | inl (tx, e) ↦ elim (Res-cases (acquire_nonce_lock lib.libs tx now built.1).0) [
          | inl (_, l) ↦ (ground (arith, same), ground arith, inr (tx, e, ground arith))
          | inr (inl (x, l)) ↦ (ground (arith, same), ground arith, inl (ground arith))
          | inr (inr l) ↦ (ground (arith, same), ground arith, inl (ground arith))
        ]
        | inr (inl (x, e)) ↦ (ground (arith, same), ground arith, inl (ground arith))
        | inr (inr e) ↦ (ground (arith, same), ground arith, inl (ground arith))
      ]
