-- ===== src/Node/Payment.antt =====
-- A payment from its third signature to the balances.
use cdml.Common.{
  ℕ, ◌+◌, ◌-◌, ◌^◌, ◌≤◌, ◌<◌, false, Bytes, length, length-append, List, [], ◌∷◌, ◌++◌, some, ◌≡◌,
  ◌≢◌, ap, sym, ◌∙◌, subst, arith,
}
use cdml.Common.Maps.{lookup, delete}
use cdml.Core.Errors.{ok}
use cdml.Core.Types.{PubKey, max_amount}
use cdml.Core.Amount.{bond_amount}
use cdml.Crypto.KeyPair.{KeyPair}
use cdml.Crypto.Sign.{verify_quorum}
use cdml.Network.Framing.{Packet}
use cdml.Protocol.Dag.{advance_tip}
use cdml.Protocol.Processor.World.{LibraryLaws, World}
use cdml.Protocol.Processor.Confirm.{confirm_tx, as_confirmed}
use cdml.Protocol.Processor.Transfer.{Transferred, confirm_tx-Transferred}
use cdml.Protocol.Processor.Success.{IsHealthy, job_of, confirm_tx_succeeds}
use cdml.Storage.Chain.{get_balance, get_reward_pool}
use cdml.Node.State.{Node, NodeLibraries, PendingMeta, WitSigMsg, Task, quorum_k}
use cdml.Node.Handlers.{handle_witness_sig, run_task, with_sigs}
use cdml.Node.Quorum.{active, confirm_runs}

module _ (lib : NodeLibraries) (kp : KeyPair) where
  open lib use {libs}
  open libs use {badger, primitives, tx_json}

  -- what the third signature makes of the state
  abbrev complete : WitSigMsg → PendingMeta → Node lib → Node lib
  complete msg meta s = record s {
    pending_tx = delete msg.tx_hash s.pending_tx;
    tasks = s.tasks ++ Task.confirm meta.tx (meta.sigs ++ msg.sig ∷ []) ∷ [];
  }

  third_completes :
      (pkt : Packet) (msg : WitSigMsg) (meta : PendingMeta) (now : ℕ) (s : Node lib)
      → lib.wit_sig_json.unmarshal pkt.payload ≡ ok msg
      → lookup msg.tx_hash s.pending_tx ≡ some meta
      → length meta.sigs ≡ 2
      → meta.confirmed ≡ false
      → (handle_witness_sig lib kp pkt now s).1 ≡ complete msg meta s
  unfolding handle_witness_sig
  third_completes pkt msg meta now s decoded found two fresh =
      ground (arith, length-append meta.sigs (msg.sig ∷ []))

  -- A payment whose witnesses answer is made. Where a transaction between two accounts waits with
  -- two signatures, the message with a third arrives, and the three are a quorum of the registered
  -- witnesses when the confirmation runs, then handleWitnessSig starts the confirmation; and on a
  -- database that accepts its writes, with a balance that covers amount and bond, sums within the
  -- maximum and a DAG that accepts the parents, running it moves the amount and takes the bond, for
  -- every later instant.
  pub payment_completes :
      (healthy : IsHealthy libs.badger) (laws : LibraryLaws libs) (pkt : Packet) (msg : WitSigMsg)
      (meta : PendingMeta) (now later τ bal recv pool : ℕ) (s : Node lib) (valid_set : List PubKey)
      (bs : Bytes)
      → lib.wit_sig_json.unmarshal pkt.payload ≡ ok msg
      → lookup msg.tx_hash s.pending_tx ≡ some meta
      → length meta.sigs ≡ 2
      → meta.confirmed ≡ false
      → active lib kp later s ≡ ok valid_set
      → verify_quorum primitives (meta.sigs ++ msg.sig ∷ []) meta.tx.hash valid_set quorum_k ≡ ok tt
      → meta.tx.sequence < 2 ^ 64
      → bal < 2 ^ 64
      → meta.tx.from ≢ meta.tx.to
      → (get_balance badger meta.tx.from later s.world.disk).0 ≡ ok bal
      → (get_balance badger meta.tx.to later s.world.disk).0 ≡ ok recv
      → (get_reward_pool badger later s.world.disk).0 ≡ ok pool
      → meta.tx.amount + bond_amount meta.tx.amount ≤ max_amount
      → meta.tx.amount + bond_amount meta.tx.amount ≤ bal
      → recv + meta.tx.amount ≤ max_amount
      → (advance_tip meta.tx.hash meta.tx.parent_hashes s.world.edges).0 ≡ ok tt
      → tx_json.marshal (as_confirmed (with_sigs meta.tx (meta.sigs ++ msg.sig ∷ []))) ≡ ok bs
      → let task = Task.confirm meta.tx (meta.sigs ++ msg.sig ∷ []) in
        let s' = (handle_witness_sig lib kp pkt now s).1 in
        let t = (run_task lib kp task later (record s' { tasks = s.tasks })).1 in
        (s'.tasks ≡ s.tasks ++ task ∷ [])
        × Transferred libs laws
            (with_sigs meta.tx (meta.sigs ++ msg.sig ∷ []))
            bal
            recv
            s.world
            t.world
            τ
  unfolding run_task
  payment_completes healthy laws pkt msg meta now later τ bal recv pool s valid_set bs decoded found
        two fresh a q seq_fits bal_fits apart hb hr hp total covered within dag coded =
      let sigs = meta.sigs ++ msg.sig ∷ [] in
      let tx = with_sigs meta.tx sigs in
      let task = Task.confirm meta.tx sigs in
      let handled = third_completes pkt msg meta now s decoded found two fresh in
      let u : Node lib = record (complete msg meta s) { tasks = s.tasks } in
      let runs = confirm_runs lib kp meta.tx sigs later u valid_set a q in
      let (r, w) = confirm_tx libs tx later s.world in
      let succeeds =
        confirm_tx_succeeds libs healthy laws tx later bal recv pool s.world bs seq_fits bal_fits hb
          hr hp total covered within dag coded in
      let moved =
        confirm_tx-Transferred libs laws tx later bal recv s.world w
          (job_of tx (bal - (tx.amount + bond_amount tx.amount))) seq_fits bal_fits apart hb hr
          (λ i. (succeeds i, w)) τ in
      let same =
        ap (λ (n : Node lib). (run_task lib kp task later (record n { tasks = s.tasks })).1.world)
          handled
        ∙ runs in
      (
        ap (λ (n : Node lib). n.tasks) handled,
        subst (λ (v : World libs). Transferred libs laws tx bal recv s.world v τ) (sym same) moved,
      )
