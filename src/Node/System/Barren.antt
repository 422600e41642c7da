-- ===== src/Node/System/Barren.antt =====
-- What every handler keeps, run as one step: an empty DAG, and pending transactions without parents.
use mathlib.Core.List.{Memᴰ}
use mathlib.Core.Logic.{⊎_elim}
use cdml.Common.{
  Bytes, ℕ, ◌<◌, ◌==◌, false, length, List, ◌∷◌, ◌++◌, [], some, ◌≡◌, inl, inr, refl, sym, ◌∙◌,
  subst, ap, arith, Memᴰ-concat, length-append, Bool-cases,
}
use cdml.Common.Maps.{lookup, insert, delete, lookup-insert, lookup-delete}
use cdml.Core.Errors.{Res}
use cdml.Core.Types.{PubKey, Hash32, Amount, Transaction, WitnessSignature, PacketType, zero_hash}
use cdml.Crypto.KeyPair.{KeyPair}
use cdml.Network.Framing.{Packet}
use cdml.Protocol.Dag.{current_tips}
use cdml.Protocol.Processor.Edgeless.{build_tx-parents, auto_snapshot-edges}
use cdml.Node.State.{Node, send_to_peer, NodeLibraries, PendingMeta, Task, quorum_k}
use cdml.Node.Handlers.{
  dispatch, handle_nonce_lock, handle_tx_verify, handle_witness_sig, handle_tx_confirmed,
  new_packet, collect, run_task, send_tx,
}
use cdml.Node.Effects.{
  Quiet, handle_nonce_lock-Quiet, handle_tx_verify-Quiet, handle_tx_confirmed-Quiet,
  send_to_peer-Quiet, handle_witness_sig_cases, confirm_effects, send_tx_effects,
}

module _ (lib : NodeLibraries) (kp : KeyPair) where
  -- No edge, no parent, and no pending transaction with a quorum of signatures.
  pub record Barren (s : Node lib) : Type 0 where
    pub edges : s.world.edges ≡ []
    pub pending :
        (h : Hash32) (meta : PendingMeta)
        → lookup h s.pending_tx ≡ some meta
        → (meta.tx.parent_hashes ≡ []) × (length meta.sigs < quorum_k) × (meta.confirmed ≡ false)
    pub tasks :
        (tx : Transaction) (sigs : List WitnessSignature)
        → Memᴰ (Task.confirm tx sigs) s.tasks
        → (tx.parent_hashes ≡ []) × (length sigs ≡ quorum_k)

  Quiet-Barren : (s s' : Node lib) → Quiet lib kp s s' → Barren s → Barren s'
  Quiet-Barren s s' q b = record {
    edges = q.edges ∙ b.edges;
    pending = λ h meta e. b.pending h meta (rw q.pending at e);
    tasks = λ tx sigs m. b.tasks tx sigs (subst (Memᴰ (Task.confirm tx sigs)) q.tasks m);
  }

  collect-Barren :
      (hash : Hash32) (sig : WitnessSignature) (meta : PendingMeta) (s : Node lib)
      → lookup hash s.pending_tx ≡ some meta
      → Barren s
      → Barren (collect lib kp hash sig meta s)
  unfolding collect
  collect-Barren hash sig meta s found b =
      let (parents, few, new_entry) = b.pending hash meta found in
      elim (Bool-cases (length (meta.sigs ++ sig ∷ []) == quorum_k)) [
        | inl full ↦
            let left : Node lib = record s {
              pending_tx = delete hash s.pending_tx;
              tasks = s.tasks ++ Task.confirm meta.tx (meta.sigs ++ sig ∷ []) ∷ [];
            } in
            let same : collect lib kp hash sig meta s ≡ left = ground arith in
            subst Barren (sym same) (record {
              edges = b.edges;
              pending = λ h m e.
                  let old : lookup h s.pending_tx ≡ some m =
                    ground (arith, lookup-delete hash h s.pending_tx) in
                  b.pending h m old;
              tasks = λ tx sigs m.
                  ⊎_elim (b.tasks tx sigs) (λ last. ground arith)
                    ((Memᴰ-concat (Task.confirm tx sigs)
                        (Task.confirm meta.tx (meta.sigs ++ sig ∷ [])) s.tasks).0
                      m);
            })
        | inr more ↦
            let kept : PendingMeta = record meta { sigs = meta.sigs ++ sig ∷ [] } in
            let left : Node lib = record s { pending_tx = insert hash kept s.pending_tx } in
            let same : collect lib kp hash sig meta s ≡ left = ground arith in
            subst Barren (sym same) (record {
              edges = b.edges;
              pending = λ h m e. ground (
                arith,
                lookup-insert hash h kept s.pending_tx,
                b.pending h m,
                length-append meta.sigs (sig ∷ []),
              );
              tasks = b.tasks;
            })
      ]

  witness_sig-Barren :
      (pkt : Packet) (now : ℕ) (s : Node lib)
      → Barren s
      → Barren (handle_witness_sig lib kp pkt now s).1
  witness_sig-Barren pkt now s b =
      ⊎_elim (λ q. Quiet-Barren s (handle_witness_sig lib kp pkt now s).1 q b)
        (λ (hash, sig, meta, found, same).
          subst Barren (sym same) (collect-Barren hash sig meta s found b))
        (handle_witness_sig_cases lib kp pkt now s)

  pub dispatch-Barren :
      (t : PacketType) (peer : ℕ) (pkt : Packet) (now : ℕ) (s : Node lib)
      → Barren s
      → Barren (dispatch lib kp t peer pkt now s).1
  unfolding dispatch
  dispatch-Barren PacketType.nonce_lock peer pkt now s b =
      Quiet-Barren s (handle_nonce_lock lib kp pkt now s).1
        (handle_nonce_lock-Quiet lib kp pkt now s) b
  dispatch-Barren PacketType.tx_verify peer pkt now s b =
      Quiet-Barren s (handle_tx_verify lib kp pkt now s).1 (handle_tx_verify-Quiet lib kp pkt now s)
        b
  dispatch-Barren PacketType.tx_witness_sig peer pkt now s b = witness_sig-Barren pkt now s b
  dispatch-Barren PacketType.tx_confirmed peer pkt now s b =
      Quiet-Barren s (handle_tx_confirmed lib kp pkt now s).1
        (handle_tx_confirmed-Quiet lib kp pkt now s) b
  dispatch-Barren PacketType.ping peer pkt now s b =
      let reply = new_packet PacketType.pong zero_hash [] in
      Quiet-Barren s (send_to_peer lib peer reply now s).1
        (send_to_peer-Quiet lib kp peer reply now s) b
  dispatch-Barren PacketType.pong peer pkt now s b = b
  dispatch-Barren PacketType.handshake peer pkt now s b = b

  pub run_task-Barren :
      (task : Task) (now : ℕ) (s : Node lib)
      → Barren s
      → ((tx : Transaction) (sigs : List WitnessSignature)
          → task ≡ Task.confirm tx sigs
          → tx.parent_hashes ≡ [])
      → Barren (run_task lib kp task now s).1
  unfolding run_task
  run_task-Barren (Task.confirm tx sigs) now s b none_there =
      let (edges, pending, tasks) =
        confirm_effects lib kp tx sigs now s (none_there tx sigs refl) in
      record {
        edges = edges ∙ b.edges;
        pending = λ h m e. b.pending h m (rw pending at e);
        tasks = λ t g m.
            ⊎_elim (λ same. b.tasks t g (subst (Memᴰ (Task.confirm t g)) same m))
              (λ (job, same).
                ⊎_elim (b.tasks t g) (λ last. cc)
                  ((Memᴰ-concat (Task.confirm t g) (Task.take_snapshot job) s.tasks).0
                    (subst (Memᴰ (Task.confirm t g)) same m)))
              tasks;
      }
  run_task-Barren (Task.take_snapshot job) now s b none_there = record {
    edges = auto_snapshot-edges lib.libs job now s.world ∙ b.edges;
    pending = b.pending;
    tasks = b.tasks;
  }

  pub send_tx-Barren :
      (to : PubKey) (amount : Amount) (random : Res Bytes) (now : ℕ) (s : Node lib)
      → Barren s
      → Barren (send_tx lib kp to amount random now s).1
  unfolding current_tips
  send_tx-Barren to amount random now s b =
      let (edges, tasks, pending) = send_tx_effects lib kp to amount random now s in
      let s' = (send_tx lib kp to amount random now s).1 in
      record {
        edges = edges ∙ b.edges;
        pending = λ h m e.
            ⊎_elim (λ same. b.pending h m (rw same at e))
              (λ (tx, built, same).
                let parents : tx.parent_hashes ≡ [] =
                  build_tx-parents lib.libs kp to amount random now s.world tx built
                  ∙ ap current_tips b.edges in
                let found : lookup h (
                      insert tx.hash (record { tx = tx; sigs = []; confirmed = false })
                        s.pending_tx)
                    ≡ some m =
                  rw same at e in
                ground (
                  arith,
                  b.pending h m,
                  lookup-insert tx.hash h (record { tx = tx; sigs = []; confirmed = false })
                      s.pending_tx,
                ))
              pending;
        tasks = λ t g m. b.tasks t g (subst (Memᴰ (Task.confirm t g)) tasks m);
      }
