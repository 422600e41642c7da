-- ===== src/Node/System/Reachable.antt =====
-- The DAG of a node stays empty.
use mathlib.Core.List.{Memᴰ}
use mathlib.Core.List.Memᴰ
use mathlib.Core.Logic.{⊎_elim}
use cdml.Common.{List, ◌∷◌, ◌++◌, [], some, ◌≡◌, refl, sym, subst, arith}
use cdml.Common.Maps.{lookup}
use cdml.Core.Types.{Hash32, Transaction, WitnessSignature}
use cdml.Crypto.KeyPair.{KeyPair}
use cdml.Node.State.{Node, NodeLibraries, PendingMeta, Task}
use cdml.Node.Handlers.{handle_packet}
use cdml.Node.System.{Step, receive, submit, run, write, connect, clean, Reach, started, next}
use cdml.Node.System.Barren.{Barren, dispatch-Barren, run_task-Barren, send_tx-Barren}

module _ (lib : NodeLibraries) (kp : KeyPair) where
  Step-Barren : {s s' : Node lib} → Step lib kp s s' → Barren lib kp s → Barren lib kp s'
  Step-Barren {s} (receive peer pkt now e) b =
      subst (Barren lib kp) (sym e)
        (unfold handle_packet in dispatch-Barren lib kp pkt.packet_type peer pkt now s b)
  Step-Barren {s} (submit to amount random now e) b =
      subst (Barren lib kp) (sym e) (send_tx-Barren lib kp to amount random now s b)
  Step-Barren {s} (run before later task now there e) b =
      let rest : Node lib = record s { tasks = before ++ later } in
      let member =
        λ (t : Task) (m : Memᴰ t (before ++ task ∷ later)). subst (Memᴰ t) (sym there) m in
      let b' : Barren lib kp rest = record {
        edges = b.edges;
        pending = b.pending;
        tasks = λ tx sigs m. b.tasks tx sigs (
            member (Task.confirm tx sigs) (
              ⊎_elim (Memᴰ.append_left (task ∷ later)) (λ k. Memᴰ.append_right before (Memᴰ.tail k))
                (Memᴰ.append_cases before m)));
      } in
      subst (Barren lib kp) (sym e) (
        run_task-Barren lib kp task now rest b' (λ tx sigs is.
          (b.tasks tx sigs
            (member (Task.confirm tx sigs) (Memᴰ.append_right before (Memᴰ.head (sym is))))).0))
  Step-Barren (write disk e) b =
      subst (Barren lib kp) (sym e)
        (record { edges = b.edges; pending = b.pending; tasks = b.tasks })
  Step-Barren (connect peers conns e) b =
      subst (Barren lib kp) (sym e)
        (record { edges = b.edges; pending = b.pending; tasks = b.tasks })
  Step-Barren (clean now e) b =
      subst (Barren lib kp) (sym e)
        (record { edges = b.edges; pending = b.pending; tasks = b.tasks })

  Reach-Barren :
      {disk : lib.libs.badger.Disk} {s : Node lib} → Reach lib kp disk s → Barren lib kp s
  unfolding lookup
  Reach-Barren started = record {
    edges = refl;
    pending = λ h meta e. absurd (ground arith);
    tasks = λ tx sigs m. absurd (Memᴰ.not-nil m);
  }
  Reach-Barren (next r st) = Step-Barren st (Reach-Barren r)

  -- A node whose DAG starts empty, as every node's does, has no edge in it for ever, whatever packets
  -- it receives, whatever its API is asked and in whatever order its goroutines run: the tips are
  -- always none, and every transaction that it waits for or confirms has no parents.
  pub dag_stays_empty :
      (disk : lib.libs.badger.Disk) (s : Node lib)
      → Reach lib kp disk s
      → (s.world.edges ≡ [])
        × ((h : Hash32) (meta : PendingMeta)
            → lookup h s.pending_tx ≡ some meta
            → meta.tx.parent_hashes ≡ [])
        × ((tx : Transaction) (sigs : List WitnessSignature)
            → Memᴰ (Task.confirm tx sigs) s.tasks
            → tx.parent_hashes ≡ [])
  dag_stays_empty disk s r =
      let b = Reach-Barren r in
      (b.edges, λ h meta e. (b.pending h meta e).0, λ tx sigs m. (b.tasks tx sigs m).0)
