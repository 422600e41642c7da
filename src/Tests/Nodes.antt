-- ===== src/Tests/Nodes.antt =====
-- A payment of alice's node, from SendTx to the confirmation, and messages that do harm.
use mathlib.Core.List.{Memᴰ}
use cdml.Common.{
  ℕ, ◌≤◌, false, Bytes-discrete, put_uint64, uint64, copy_into, replicate, length, List, [], ◌∷◌,
  ◌++◌, none, some, ◌≡◌, ◌≢◌, ◌⊎◌, refl, subst, arith,
}
use cdml.Common.Maps.{lookup, delete}
use cdml.Core.Errors.{ok, err, panic}
use cdml.Core.Types.{PubKey, Hash32, Transaction, WitnessSignature}
use cdml.Core.Amount.{safe_add, safe_sub, bond_amount, validate_amount}
use cdml.Crypto.Hash.{hash_tx}
use cdml.Crypto.KeyPair.{generate, sign, verify}
use cdml.Crypto.Sign.{verify_tx, verify_quorum, sign_as_witness}
use cdml.Crypto.Sign.Quorum.{Distinct, SignedBy}
use cdml.Network.Gossip.{find}
use cdml.Protocol.Dag.{advance_tip, add_edge, current_tips}
use cdml.Protocol.Processor.Confirm.{confirm_tx}
use cdml.Protocol.Processor.Verify.{verify_packet, effective_balance}
use cdml.Storage.Db
use cdml.Storage.Chain
use cdml.Storage.Keys.{
  bal_key, seq_key, tx_key, reward_pool_key, active_witnesses_key, nonce_lock_key,
}
use cdml.Storage.NonceLock
use cdml.Storage.Snapshots.{get_active_set}
use cdml.Node.State.{Node, new, NodeLibraries, WitSigMsg, PendingMeta, Task, quorum_k, broadcast}
use cdml.Node.Handlers.{
  handle_witness_sig, handle_packet, confirm, send_tx, judge, run_task, with_sigs,
}
use cdml.Node.System.{Reach, started, next, submit}
use cdml.Node.System.Reachable.{dag_stays_empty}
use cdml.Node.Quorum.{active, confirm_needs_quorum, third_signature_loses, handle_packet-panic}
use cdml.Node.Payment.{payment_completes}
use cdml.Protocol.Processor.Transfer.{Transferred}
use cdml.Node.Witness.{Vouches, judge-Vouches}
use cdml.Tests.Instances.{
  in_memory-IsHealthy, primitives, Witnesses-discrete, Transaction-discrete, in_memory,
}
use cdml.Tests.Accounts.{alice, bob}
use cdml.Tests.Cluster.{
  always, erin, keys, carol, dave, signed_by, three_sigs, plain, pkt, verify_msg, forged, lib, laws,
  registered_disk, node,
}

confirm_needs_quorum_example :
    ((confirm lib keys plain three_sigs 5 node).1 ≡ node)
    ⊎ ((valid_set : List PubKey) × (active lib keys 5 node ≡ ok valid_set)
        × (qs : List PubKey) × Distinct qs
        × ((q : PubKey) → Memᴰ q qs → SignedBy primitives plain.hash valid_set q three_sigs)
        × (quorum_k ≤ length qs))
confirm_needs_quorum_example = confirm_needs_quorum lib keys plain three_sigs 5 node

-- with the three signatures the payment is made
confirmed_run :
    (Chain.get_balance in_memory bob 9 (confirm lib keys plain three_sigs 5 node).1.world.disk).0
    ≡ ok 2500
unfolding confirm get_active_set Db.get Db.read Chain.decode verify_quorum Witnesses-discrete
    confirm_tx safe_add safe_sub bond_amount Chain.get_balance Chain.confirm_tx_batch
    Chain.batch_writes Chain.accumulate_bond Chain.get_reward_pool Db.atomic_write Db.set bal_key
    put_uint64 uint64 Bytes-discrete Transaction-discrete advance_tip add_edge reward_pool_key
    tx_key seq_key active_witnesses_key broadcast
confirmed_run = refl

abbrev sent : Node lib
sent = (send_tx lib keys bob 2000 (ok (replicate 8 1)) 5 node).1

sent-Reach : Reach lib keys registered_disk sent
sent-Reach = next started (submit bob 2000 (ok (replicate 8 1)) 5 refl)

dag_stays_empty_example :
    (sent.world.edges ≡ [])
    × ((h : Hash32) (meta : PendingMeta)
        → lookup h sent.pending_tx ≡ some meta
        → meta.tx.parent_hashes ≡ [])
    × ((tx : Transaction) (sigs : List WitnessSignature)
        → Memᴰ (Task.confirm tx sigs) sent.tasks
        → tx.parent_hashes ≡ [])
dag_stays_empty_example = dag_stays_empty lib keys registered_disk sent sent-Reach

-- the payment waits with two good signatures; the third is bob's, who is no witness
abbrev waiting : PendingMeta
waiting = record { tx = plain; sigs = signed_by carol ∷ signed_by dave ∷ []; confirmed = false }

abbrev collecting : Node lib
collecting = record node { pending_tx = (plain.hash, waiting) ∷ [] }

refused :
    (valid_set : List PubKey)
    → active lib keys 6 collecting ≡ ok valid_set
    → verify_quorum primitives (waiting.sigs ++ forged.sig ∷ []) plain.hash valid_set 3 ≢ ok tt
unfolding get_active_set Db.get Db.read Chain.decode verify_quorum Witnesses-discrete Bytes-discrete
    active_witnesses_key
refused valid_set e =
    subst (λ vs. verify_quorum primitives (waiting.sigs ++ forged.sig ∷ []) plain.hash vs 3 ≢ ok tt)
      (λ i. elim (e i) [ ok vs ↦ vs | err _ ↦ [] | panic ↦ [] ]) (λ h. ground (arith, h))

third_signature_loses_example :
    let s' = (handle_witness_sig lib keys pkt 5 collecting).1 in
    let t =
      (confirm lib keys plain (waiting.sigs ++ forged.sig ∷ []) 6 (record s' { tasks = [] })).1 in
    (s'.tasks ≡ [] ++ Task.confirm plain (waiting.sigs ++ forged.sig ∷ []) ∷ [])
    × (t ≡ record collecting { pending_tx = delete plain.hash collecting.pending_tx })
    × (lookup plain.hash t.pending_tx ≡ none)
    × ((τ : ℕ)
        → (NonceLock.is_locked lib.libs.badger plain.from plain.nonce τ t.world.disk).0
          ≡ (NonceLock.is_locked lib.libs.badger plain.from plain.nonce τ collecting.world.disk).0)
unfolding lookup Bytes-discrete
third_signature_loses_example =
    third_signature_loses lib keys pkt forged waiting 5 6 collecting refl refl refl refl refused

handle_packet-panic_example : (handle_packet lib keys 0 pkt 5 node).0 ≡ panic
unfolding find
handle_packet-panic_example =
    handle_packet-panic lib keys 0 pkt (record { tx = none }) 5 node refl refl refl refl

abbrev own_sig : WitnessSignature
own_sig = record (signed_by alice) { nonce_lock_seen = false }

judged : (judge lib keys verify_msg 5 node).0 ≡ ok (plain, own_sig)
unfolding judge verify_packet effective_balance Chain.get_balance Chain.get_latest_seq
    Chain.has_balance Db.get Db.read safe_add bond_amount validate_amount hash_tx sign verify_tx
    verify copy_into bal_key seq_key put_uint64 uint64 Bytes-discrete current_tips sign_as_witness
    NonceLock.is_locked active_witnesses_key nonce_lock_key
judged = refl

keys_generated : generate primitives [] ≡ ok keys
unfolding generate copy_into
keys_generated = refl

judge-Vouches_example : Vouches lib keys verify_msg 5 node plain own_sig
judge-Vouches_example =
    judge-Vouches lib keys laws [] keys_generated verify_msg 5 node plain own_sig judged

-- the same node, where the third message carries erin's signature
abbrev good : WitSigMsg
good = record { tx_hash = replicate 32 7; sig = signed_by erin }

abbrev honest : NodeLibraries
honest = record lib { wit_sig_json = always good }

abbrev ready : Node honest
ready = record (new honest registered_disk) { pending_tx = (plain.hash, waiting) ∷ [] }

abbrev completed : Node honest
completed =
    (run_task honest keys (Task.confirm plain three_sigs) 6
      (record (handle_witness_sig honest keys pkt 5 ready).1 { tasks = [] })).1

payment_completes_example :
    ((handle_witness_sig honest keys pkt 5 ready).1.tasks
      ≡ [] ++ Task.confirm plain three_sigs ∷ [])
    × Transferred honest.libs laws
        (with_sigs plain three_sigs)
        10_000
        500
        ready.world
        completed.world
        9
unfolding lookup get_active_set Db.get Db.read Chain.decode verify_quorum Witnesses-discrete
    bond_amount Chain.get_balance Chain.get_reward_pool bal_key put_uint64 uint64 Bytes-discrete
    Transaction-discrete advance_tip add_edge reward_pool_key active_witnesses_key
payment_completes_example =
    payment_completes honest keys in_memory-IsHealthy laws pkt good waiting 5 6 9 10_000 500 0 ready
      (erin ∷ dave ∷ carol ∷ []) (5 ∷ []) refl refl refl refl refl refl (omega arith) (omega arith)
      (λ e. ground (arith, e)) refl refl refl (omega arith) (omega arith) (omega arith) refl refl
