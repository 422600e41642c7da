-- ===== src/Node/Quorum.antt =====
-- From the third signature to the confirmation.
use mathlib.Core.List.{Memᴰ}
use cdml.Common.{
  ℕ, ◌≤◌, false, length, length-append, List, ◌∷◌, ◌++◌, [], none, some, ◌≡◌, ◌≢◌, ◌⊎◌, inl, inr,
  ap, subst, sym, ◌∙◌, refl, Bytes-discrete, if_pos, arith,
}
use cdml.Common.Maps.{lookup, delete, lookup-delete}
use cdml.Core.Errors.{Res, ok, panic, Res-cases}
use cdml.Core.Types.{PubKey, Transaction, WitnessSignature, PacketType}
use cdml.Crypto.KeyPair.{KeyPair}
use cdml.Crypto.Sign.{verify_quorum}
use cdml.Crypto.Sign.Quorum.{Distinct, SignedBy, verify_quorum_iff}
use cdml.Network.Framing.{Packet}
use cdml.Network.Gossip.{should_forward, find}
use cdml.Protocol.Processor.Confirm.{confirm_tx}
use cdml.Protocol.Processor.World.{World}
use cdml.Storage.Db
use cdml.Storage.NonceLock
use cdml.Storage.Snapshots.{get_active_set}
use cdml.Node.State.{
  Node, NodeLibraries, PendingMeta, WitSigMsg, ConfirmedMsg, Task, quorum_k, broadcast,
}
use cdml.Node.Handlers.{
  handle_witness_sig, handle_tx_confirmed, handle_packet, dispatch, confirm, with_sigs,
}

module _ (lib : NodeLibraries) (kp : KeyPair) where
  open lib use {libs}
  open libs use {badger, primitives, witness_json}

  pub get_active_set-disk :
      (now : ℕ) (d : badger.Disk) → (get_active_set badger witness_json now d).1 ≡ d
  unfolding get_active_set Db.get
  get_active_set-disk now d = ground arith

  -- the set of witnesses that a node reads
  abbrev pub active : ℕ → Node lib → Res (List PubKey)
  active now s = (get_active_set badger witness_json now s.world.disk).0

  -- without a quorum, or a set of witnesses
  confirm_refused :
      (tx : Transaction) (sigs : List WitnessSignature) (now : ℕ) (s : Node lib)
      → ((valid_set : List PubKey)
          → active now s ≡ ok valid_set
          → verify_quorum primitives sigs tx.hash valid_set quorum_k ≢ ok tt)
      → (confirm lib kp tx sigs now s).1 ≡ s
  unfolding confirm
  confirm_refused tx sigs now s refused =
      let same = get_active_set-disk now s.world.disk in
      elim (Res-cases (active now s)) [
        | inl (valid_set, a) ↦ ground (arith, same, refused valid_set)
        | inr (inl (x, a)) ↦ ground (arith, same)
        | inr (inr a) ↦ ground (arith, same)
      ]

  -- A node confirms nothing without a quorum. Node.confirmTx leaves the whole node as it was, or the
  -- set of registered witnesses could be read and at least three different ones of them have a
  -- qualified signature over the transaction's hash among the collected ones.
  pub confirm_needs_quorum :
      (tx : Transaction) (sigs : List WitnessSignature) (now : ℕ) (s : Node lib)
      → ((confirm lib kp tx sigs now s).1 ≡ s)
        ⊎ ((valid_set : List PubKey) × (active now s ≡ ok valid_set)
            × (keys : List PubKey) × Distinct keys
            × ((q : PubKey) → Memᴰ q keys → SignedBy primitives tx.hash valid_set q sigs)
            × (quorum_k ≤ length keys))
  confirm_needs_quorum tx sigs now s = elim (Res-cases (active now s)) [
    | inl (valid_set, a) ↦
        let (keys, distinct, signed, _, enough) =
          verify_quorum_iff primitives tx.hash valid_set sigs quorum_k in
        elim (Res-cases (verify_quorum primitives sigs tx.hash valid_set quorum_k)) [
          | inl (_, q) ↦ inr (valid_set, a, keys, distinct, λ k m. (signed k).0 m, enough.0 q)
          | inr (inl (x, q)) ↦ inl (confirm_refused tx sigs now s (λ v e. ground arith))
          | inr (inr q) ↦ inl (confirm_refused tx sigs now s (λ v e. ground arith))
        ]
    | inr (inl (x, a)) ↦ inl (confirm_refused tx sigs now s (λ v e. cc))
    | inr (inr a) ↦ inl (confirm_refused tx sigs now s (λ v e. cc))
  ]

  -- With a quorum, Node.confirmTx does to the stores and the DAG what ConfirmTx of the transaction
  -- with its signatures does.
  pub confirm_runs :
      (tx : Transaction) (sigs : List WitnessSignature) (now : ℕ) (s : Node lib)
      (valid_set : List PubKey)
      → active now s ≡ ok valid_set
      → verify_quorum primitives sigs tx.hash valid_set quorum_k ≡ ok tt
      → (confirm lib kp tx sigs now s).1.world ≡ (confirm_tx libs (with_sigs tx sigs) now s.world).1
  unfolding confirm broadcast
  confirm_runs tx sigs now s valid_set a q =
      let w : World libs = record s.world {
        disk = (get_active_set badger witness_json now s.world.disk).1;
      } in
      let same : w ≡ s.world =
        λ i. record s.world { disk = get_active_set-disk now s.world.disk i } in
      let ran = ap (λ (u : World libs). (confirm_tx libs (with_sigs tx sigs) now u).1) same in
      elim (Res-cases (confirm_tx libs (with_sigs tx sigs) now w).0) [
        | inl (none, r) ↦ ground (arith, ran)
        | inl (some job, r) ↦ ground (arith, ran)
        | inr (inl (x, r)) ↦ ground (arith, ran)
        | inr (inr r) ↦ ground (arith, ran)
      ]

  -- the third signature starts a confirmation and removes the entry, and does nothing else
  third_removes :
      (pkt : Packet) (msg : WitSigMsg) (meta : PendingMeta) (now : ℕ) (s : Node lib)
      → lib.wit_sig_json.unmarshal pkt.payload ≡ ok msg
      → lookup msg.tx_hash s.pending_tx ≡ some meta
      → length meta.sigs ≡ 2
      → meta.confirmed ≡ false
      → let s' = (handle_witness_sig lib kp pkt now s).1 in
        (s'.tasks ≡ s.tasks ++ Task.confirm meta.tx (meta.sigs ++ msg.sig ∷ []) ∷ [])
        × (record s' { tasks = s.tasks }
            ≡ record s { pending_tx = delete msg.tx_hash s.pending_tx })
  unfolding handle_witness_sig
  third_removes pkt msg meta now s decoded found two fresh = (
    ground (arith, length-append meta.sigs (msg.sig ∷ [])),
    ground (arith, length-append meta.sigs (msg.sig ∷ [])),
  )

  -- The node does not look at a signature before it counts it. Where a transaction waits with two
  -- signatures, the next packet that names it removes it from the pending table, whoever sent it and
  -- whatever it holds; and if the three are no quorum of the registered witnesses at the time at which
  -- the confirmation that is started for it runs, the node is then as it was before the packet but
  -- for the missing entry: the payment is lost, and the nonce lock of its sender is held exactly
  -- where it was held before.
  pub third_signature_loses :
      (pkt : Packet) (msg : WitSigMsg) (meta : PendingMeta) (now later : ℕ) (s : Node lib)
      → lib.wit_sig_json.unmarshal pkt.payload ≡ ok msg
      → lookup msg.tx_hash s.pending_tx ≡ some meta
      → length meta.sigs ≡ 2
      → meta.confirmed ≡ false
      → ((valid_set : List PubKey)
          → active later s ≡ ok valid_set
          → verify_quorum primitives (meta.sigs ++ msg.sig ∷ []) meta.tx.hash valid_set quorum_k
            ≢ ok tt)
      → let s' = (handle_witness_sig lib kp pkt now s).1 in
        let t =
          (confirm lib kp meta.tx
            (meta.sigs ++ msg.sig ∷ [])
            later
            (record s' { tasks = s.tasks })).1 in
        (s'.tasks ≡ s.tasks ++ Task.confirm meta.tx (meta.sigs ++ msg.sig ∷ []) ∷ [])
        × (t ≡ record s { pending_tx = delete msg.tx_hash s.pending_tx })
        × (lookup msg.tx_hash t.pending_tx ≡ none)
        × ((τ : ℕ)
            → (NonceLock.is_locked badger meta.tx.from meta.tx.nonce τ t.world.disk).0
              ≡ (NonceLock.is_locked badger meta.tx.from meta.tx.nonce τ s.world.disk).0)
  third_signature_loses pkt msg meta now later s decoded found two fresh refused =
      let (started, taken) = third_removes pkt msg meta now s decoded found two fresh in
      let sigs = meta.sigs ++ msg.sig ∷ [] in
      let gone : Node lib = record s { pending_tx = delete msg.tx_hash s.pending_tx } in
      let same =
        ap (λ (u : Node lib). (confirm lib kp meta.tx sigs later u).1) taken
        ∙ confirm_refused meta.tx sigs later gone refused in
      (
        started,
        same,
        ap (λ (u : Node lib). lookup msg.tx_hash u.pending_tx) same
            ∙ lookup-delete msg.tx_hash msg.tx_hash s.pending_tx
            ∙ if_pos (Bytes-discrete msg.tx_hash msg.tx_hash) refl none
                (lookup msg.tx_hash s.pending_tx),
        λ τ.
            ap
              (λ (u : Node lib).
                (NonceLock.is_locked badger meta.tx.from meta.tx.nonce τ u.world.disk).0)
              same,
      )

  -- A peer can stop the node with one packet: a confirmation message that names no transaction,
  -- under an id that the node has not seen, makes handlePacket follow a nil pointer, in whatever state
  -- the node is; the panic ends the program.
  pub handle_packet-panic :
      (peer : ℕ) (pkt : Packet) (msg : ConfirmedMsg) (now : ℕ) (s : Node lib)
      → pkt.packet_type ≡ PacketType.tx_confirmed
      → find pkt.msg_id s.gossip ≡ none
      → lib.confirmed_json.unmarshal pkt.payload ≡ ok msg
      → msg.tx ≡ none
      → (handle_packet lib kp peer pkt now s).0 ≡ panic
  unfolding handle_packet handle_tx_confirmed should_forward
  handle_packet-panic peer pkt msg now s kind fresh decoded missing =
      subst (λ k. (dispatch lib kp k peer pkt now s).0 ≡ panic) (sym kind) (ground arith)
