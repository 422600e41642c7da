-- ===== src/Node/Handlers.antt =====
-- node/node.go: the handlers of packets, the confirmation, and SendTx. An early return of a handler
-- is an error that nobody sees, `or_else tt`; a nil pointer that is followed is a panic.
use cdml.Common.{
  ℕ, ◌+◌, ◌==◌, ◌&&◌, Bool, true, false, not, if◌then◌else◌, Bytes, Bytes-discrete, contains,
  length, List, [], ◌∷◌, ◌++◌, Option, none, some,
}
use cdml.Common.Maps.{lookup, insert, delete}
use cdml.Core.Errors.{Res, ok, err, panic, fail_if, failure}
use cdml.Core.Types.{
  PubKey, Hash32, Amount, Transaction, Snapshot, WitnessSignature, zero_hash, PacketType,
}
use cdml.Exec.{Exec, pure, lift, or_else, ◌>>=◌, ◌>>◌}
use cdml.Crypto.KeyPair.{KeyPair}
use cdml.Crypto.Sign.{sign_as_witness, verify_quorum}
use cdml.Network.Framing.{Packet}
use cdml.Network.Gossip.{should_forward}
use cdml.Protocol.Dag.{current_tips}
use cdml.Protocol.Processor.World.{on_disk, snapshot_ttl}
use cdml.Protocol.Processor.Build.{build_tx, acquire_nonce_lock}
use cdml.Protocol.Processor.Verify.{has_expired, verify_packet}
use cdml.Protocol.Processor.Confirm.{
  AutoSnapshot, confirm_tx, as_confirmed, apply_confirmed_tx_balance, auto_snapshot,
}
use cdml.Storage.Chain.{get_balance, get_latest_seq}
use cdml.Storage.NonceLock
use cdml.Storage.Snapshots.{get_active_set, get_active_witnesses}
use cdml.Node.State.{
  Node, NodeLibraries, PendingMeta, TxVerifyMsg, Task, quorum_k, xor_bytes, broadcast, send_to_peer,
  send_to_originator, on_world, reads,
}

-- following a pointer
abbrev pub deref : {A : Type 0} → Option A → Res A
deref none = panic
deref (some a) = ok a

-- `tips[0]`, or the zero hash
abbrev pub first_tip : List Hash32 → Hash32
first_tip [] = zero_hash
first_tip (tip ∷ _) = tip

abbrev pub is_empty : List PubKey → Bool
is_empty [] = true
is_empty (_ ∷ _) = false

abbrev pub new_packet : PacketType → Hash32 → Bytes → Packet
new_packet packet_type msg_id payload = record {
  packet_type = packet_type;
  msg_id = msg_id;
  payload = payload;
}

-- the transaction with its signatures, as confirmTx sets them
abbrev pub with_sigs : Transaction → List WitnessSignature → Transaction
with_sigs tx sigs = record tx { witness_sigs = sigs }

module _ (lib : NodeLibraries) (kp : KeyPair) where
  open lib use {libs, nonce_lock_json, tx_verify_json, wit_sig_json, confirmed_json}
  open libs use {badger, primitives, witness_json}

  -- `should, _ := n.gossip.ShouldForward(id)`, and the return where it is false
  unfoldable pub forwarding : Hash32 → Exec (Node lib) (Unit {0})
  forwarding id now s =
      let (answer, _, g) = should_forward id now s.gossip in
      (fail_if (not answer) (failure 30), record s { gossip = g })

  unfoldable pub handle_nonce_lock : Packet → Exec (Node lib) (Unit {0})
  unfolding forwarding
  handle_nonce_lock pkt = or_else tt (do
    forwarding pkt.msg_id
    msg ← lift (nonce_lock_json.unmarshal pkt.payload)
    or_else tt (on_world lib (on_disk libs (NonceLock.lock badger msg.from msg.nonce)))
    broadcast lib pkt none)

  -- the packet that carries a witness's signature
  unfoldable pub wit_pkt : Transaction → WitnessSignature → Res Packet
  unfolding xor_bytes
  wit_pkt tx sig = elim (wit_sig_json.marshal (record { tx_hash = tx.hash; sig = sig })) [
    | ok payload ↦
        ok (new_packet PacketType.tx_witness_sig (xor_bytes tx.hash sig.witness_pub_key) payload)
    | err _ ↦ ok (new_packet PacketType.tx_witness_sig (xor_bytes tx.hash sig.witness_pub_key) [])
    | panic ↦ panic
  ]

  -- the last part of handleTxVerify: the answer goes to the originator if there is a connection
  unfoldable pub answer : PubKey → Packet → Packet → Exec (Node lib) (Unit {0})
  unfolding broadcast send_to_originator
  answer from reply pkt = do
    direct ← reads lib (λ s. lookup from s.peers)
    elim direct [ none ↦ broadcast lib reply none | some _ ↦ send_to_originator lib from reply ]
    broadcast lib pkt none

  -- the second part of handleTxVerify: the check and the signature of a witness
  unfoldable pub judge : TxVerifyMsg → Exec (Node lib) (Transaction × WitnessSignature)
  judge msg = do
    tips ← reads lib (λ s. current_tips s.world.edges)
    (λ now. lift (fail_if (has_expired now msg.snapshot) (failure 31)) now)
    tx ← lift (deref msg.tx)
    on_world lib (verify_packet libs (record { tx = tx; snapshot = msg.snapshot; known_tips = [] }))
    nonce_lock_seen ← on_world lib (on_disk libs (NonceLock.is_locked badger tx.from tx.nonce))
    sig ← lift (sign_as_witness primitives kp tx.hash (first_tip tips) nonce_lock_seen)
    pure (tx, sig)

  unfoldable pub handle_tx_verify : Packet → Exec (Node lib) (Unit {0})
  unfolding forwarding wit_pkt answer
  handle_tx_verify pkt = or_else tt (do
    forwarding pkt.msg_id
    msg ← lift (tx_verify_json.unmarshal pkt.payload)
    valid_set ← on_world lib (on_disk libs (get_active_set badger witness_json))
    lift (fail_if (is_empty valid_set) (failure 32))
    lift (fail_if (not (contains Bytes-discrete kp.public valid_set)) (failure 33))
    signed ← judge msg
    reply ← lift (wit_pkt signed.0 signed.1)
    answer signed.0.from reply pkt)

  -- What handleWitnessSig does to the pending entry of the transaction, in one step. At the third
  -- signature the entry is marked as confirmed, appended to and then deleted, so nothing in the table
  -- shows the mark; the object with it, which other handlers may share, is that of Node.Collecting.
  unfoldable pub collect : Hash32 → WitnessSignature → PendingMeta → Node lib → Node lib
  collect tx_hash sig meta s =
      let sigs = meta.sigs ++ sig ∷ [] in
      if (length sigs == quorum_k) && not meta.confirmed
      then record s {
        pending_tx = delete tx_hash s.pending_tx;
        tasks = s.tasks ++ Task.confirm meta.tx sigs ∷ [];
      }
      else record s { pending_tx = insert tx_hash (record meta { sigs = sigs }) s.pending_tx }

  unfoldable pub handle_witness_sig : Packet → Exec (Node lib) (Unit {0})
  unfolding forwarding collect
  handle_witness_sig pkt = or_else tt (do
    msg ← lift (wit_sig_json.unmarshal pkt.payload)
    found ← reads lib (λ s. lookup msg.tx_hash s.pending_tx)
    elim found [
      | none ↦ do forwarding pkt.msg_id; broadcast lib pkt none
      | some meta ↦ λ now s. (ok tt, collect msg.tx_hash msg.sig meta s)
    ])

  unfoldable pub handle_tx_confirmed : Packet → Exec (Node lib) (Unit {0})
  unfolding forwarding
  handle_tx_confirmed pkt = or_else tt (do
    forwarding pkt.msg_id
    msg ← lift (confirmed_json.unmarshal pkt.payload)
    tx ← lift (deref msg.tx)
    or_else tt (on_world lib (apply_confirmed_tx_balance libs tx))
    broadcast lib pkt none)

  -- the switch of handlePacket
  unfoldable pub dispatch : PacketType → ℕ → Packet → Exec (Node lib) (Unit {0})
  dispatch PacketType.nonce_lock peer pkt = handle_nonce_lock pkt
  dispatch PacketType.tx_verify peer pkt = handle_tx_verify pkt
  dispatch PacketType.tx_witness_sig peer pkt = handle_witness_sig pkt
  dispatch PacketType.tx_confirmed peer pkt = handle_tx_confirmed pkt
  dispatch PacketType.ping peer pkt =
      send_to_peer lib peer (new_packet PacketType.pong zero_hash [])
  dispatch _ peer pkt = pure tt

  unfoldable pub handle_packet : ℕ → Packet → Exec (Node lib) (Unit {0})
  unfolding dispatch
  handle_packet peer pkt = dispatch pkt.packet_type peer pkt

  -- `go tp.autoSnapshot(...)`, where ConfirmTx starts it
  abbrev pub start : Option AutoSnapshot → Exec (Node lib) (Unit {0})
  start none now s = (ok tt, s)
  start (some job) now s = (ok tt, record s { tasks = s.tasks ++ Task.take_snapshot job ∷ [] })

  -- Node.confirmTx
  unfoldable pub confirm : Transaction → List WitnessSignature → Exec (Node lib) (Unit {0})
  confirm tx sigs = or_else tt (do
    valid_set ← on_world lib (on_disk libs (get_active_set badger witness_json))
    lift (verify_quorum primitives sigs tx.hash valid_set quorum_k)
    job ← on_world lib (confirm_tx libs (with_sigs tx sigs))
    start job
    payload ←
        or_else []
          (lift (confirmed_json.marshal (record { tx = some (as_confirmed (with_sigs tx sigs)) })))
    broadcast lib (new_packet PacketType.tx_confirmed tx.hash payload) none)

  unfoldable pub run_task : Task → Exec (Node lib) (Unit {0})
  unfolding confirm
  run_task (Task.confirm tx sigs) = confirm tx sigs
  run_task (Task.take_snapshot job) = on_world lib (auto_snapshot libs job)

  -- the snapshot of its own account that SendTx sends along
  unfoldable pub own_snapshot : Exec (Node lib) Snapshot
  own_snapshot = do
    bal ← or_else 0 (on_world lib (on_disk libs (get_balance badger kp.public)))
    tips ← reads lib (λ s. current_tips s.world.edges)
    seq ← or_else 0 (on_world lib (on_disk libs (get_latest_seq badger kp.public)))
    λ now.
        pure
          (record {
            pub_key = kp.public;
            sequence = seq;
            balance = bal;
            dag_tips = tips;
            created_at = now;
            expires_at = now + snapshot_ttl;
          })
          now

  unfoldable pub send_tx : PubKey → Amount → Res Bytes → Exec (Node lib) Transaction
  unfolding own_snapshot
  send_tx to amount random = do
    tx ← on_world lib (build_tx libs kp to amount random)
    on_world lib (acquire_nonce_lock libs tx)
    (λ now s. (
      ok tt,
      record s {
        pending_tx = insert tx.hash (record { tx = tx; sigs = []; confirmed = false }) s.pending_tx;
      },
    ))
    lock_payload ←
        or_else [] (lift (nonce_lock_json.marshal (record { from = tx.from; nonce = tx.nonce })))
    broadcast lib (new_packet PacketType.nonce_lock tx.hash lock_payload) none
    snap ← own_snapshot
    verify_payload ←
        or_else [] (lift (tx_verify_json.marshal (record { tx = some tx; snapshot = some snap })))
    broadcast lib (new_packet PacketType.tx_verify tx.hash verify_payload) none
    _ ← or_else [] (on_world lib (on_disk libs (get_active_witnesses badger witness_json)))
    pure tx
