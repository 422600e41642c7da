-- ===== src/Protocol/Dag/Tip.antt =====
-- AdvanceTip: a confirmed transaction is recorded above all its parents, without a cycle, and may be
-- recorded again.
use mathlib.Core.List.{Memᴰ}
use mathlib.Core.List.Memᴰ
use mathlib.Core.Logic.{⊎_elim}
use cdml.Common.{
  suc, ◌≤◌, Bytes-discrete, contains_iff, length, take, List, [], ◌∷◌, ◌≡◌, ◌≢◌, ◌↔◌, ◌⊎◌, inl, inr,
  refl, sym, ◌∙◌, ap, subst, arith, Memᴰ-cons,
}
use cdml.Core.Errors.{Error, ok, err, panic, dag_cycle, dag_edge_duplicate, wrap}
use cdml.Core.Types.{Hash32}
use cdml.Protocol.Dag.{
  Edges, nodes, parents_of, append_edge, add_edge, advance_tip, dag_cycle_check_depth,
}
use cdml.Protocol.Dag.Walk.{Edge, one, Acyclic, step_then}
use cdml.Protocol.Dag.Cycles.{add_edge-eq-ok, add_edge-cases, add_edge-edges, add_edge-Acyclic}

-- the map has room for an entry of this node within the depth limit
abbrev pub HasRoom : Hash32 → Edges → Type 0
HasRoom h edges =
    (length edges ≤ dag_cycle_check_depth)
    ⊎ (Memᴰ h (nodes edges) × (length edges ≤ suc dag_cycle_check_depth))

length-append_edge :
    (edges : Edges) (h to : Hash32)
    → Memᴰ h (nodes (append_edge edges h to))
      × (length (append_edge edges h to) ≤ suc (length edges))
      × (Memᴰ h (nodes edges) → length (append_edge edges h to) ≡ length edges)
unfolding append_edge
length-append_edge [] h to = (Memᴰ.head refl, omega arith, λ m. absurd (Memᴰ.not-nil m))
length-append_edge ((n, ps) ∷ edges) h to = ground (
  arith,
  length-append_edge edges h to,
  Memᴰ-cons h n (nodes edges),
  Memᴰ-cons h n (nodes (append_edge edges h to)),
)

HasRoom-add_edge :
    (h p : Hash32) (edges edges' : Edges)
    → HasRoom h edges
    → add_edge h p edges ≡ ok edges'
    → HasRoom h edges'
HasRoom-add_edge h p edges edges' room e =
    let (_, _, _, same) = add_edge-eq-ok h p edges edges' e in
    let (key, longer, kept) = length-append_edge edges h p in
    rw same (inr (key, ⊎_elim (λ few. omega arith) (λ (old, few). omega (arith, kept old)) room))

-- what AddEdge of one parent leads to in the loop
data Added (h p : Hash32) (ps : List Hash32) (edges : Edges) : Type 0 where
  added :
      (edges' : Edges)
      → add_edge h p edges ≡ ok edges'
      → advance_tip h (p ∷ ps) edges ≡ advance_tip h ps edges'
      → Added h p ps edges
  there :
      Edge edges h p → advance_tip h (p ∷ ps) edges ≡ advance_tip h ps edges → Added h p ps edges
  refused : (e : Error) → advance_tip h (p ∷ ps) edges ≡ (err (wrap e), edges) → Added h p ps edges

advance_tip-Added : (h p : Hash32) (ps : List Hash32) (edges : Edges) → Added h p ps edges
unfolding advance_tip
advance_tip-Added h p ps edges = elim (add_edge-cases h p edges) [
  | inl (edges', e) ↦ added edges' e (rw (e, advance_tip))
  | inr (inl (e, old)) ↦ there old (rw (e, advance_tip))
  | inr (inr (e, _)) ↦ refused (dag_cycle (take 4 h) (take 4 p)) (rw (e, advance_tip))
]

-- Whatever AdvanceTip returns, it leaves the DAG without a cycle, if there was none and the map had
-- at most 200 entries (or 201 with the transaction's among them).
pub advance_tip-Acyclic :
    (h : Hash32) (ps : List Hash32) (edges : Edges)
    → HasRoom h edges
    → Acyclic edges
    → Acyclic (advance_tip h ps edges).1
unfolding advance_tip
advance_tip-Acyclic h [] edges room acyclic = acyclic
advance_tip-Acyclic h (p ∷ ps) edges room acyclic = elim (advance_tip-Added h p ps edges) [
  | added edges' e step ↦
      let small : length edges ≤ suc dag_cycle_check_depth = omega arith in
      rw step (
        advance_tip-Acyclic h ps edges' (HasRoom-add_edge h p edges edges' room e)
          (add_edge-Acyclic h p edges edges' small acyclic e))
  | there old step ↦ rw step (advance_tip-Acyclic h ps edges room acyclic)
  | refused x step ↦ rw step acyclic
]

-- no edge is lost
pub advance_tip-kept :
    (h : Hash32) (ps : List Hash32) (edges : Edges) (x p : Hash32)
    → Edge edges x p
    → Edge (advance_tip h ps edges).1 x p
unfolding advance_tip
advance_tip-kept h [] edges x p e = e
advance_tip-kept h (q ∷ ps) edges x p e = elim (advance_tip-Added h q ps edges) [
  | added edges' r step ↦
      rw step (advance_tip-kept h ps edges' x p ((add_edge-edges h q edges edges' r x p).1 (inl e)))
  | there old step ↦ rw step (advance_tip-kept h ps edges x p e)
  | refused y step ↦ rw step e
]

-- an edge afterwards is an old one, or one from the transaction to one of the parents
pub advance_tip-new :
    (h : Hash32) (ps : List Hash32) (edges : Edges) (x p : Hash32)
    → Edge (advance_tip h ps edges).1 x p
    → Edge edges x p ⊎ ((x ≡ h) × Memᴰ p ps)
unfolding advance_tip
advance_tip-new h [] edges x p e = inl e
advance_tip-new h (q ∷ ps) edges x p e = elim (advance_tip-Added h q ps edges) [
  | added edges' r step ↦
      ⊎_elim
        (λ old.
          ⊎_elim inl (λ (s, t). inr (s, Memᴰ.head t))
            ((add_edge-edges h q edges edges' r x p).0 old))
        (λ (s, m). inr (s, Memᴰ.tail m)) (advance_tip-new h ps edges' x p (rw step at e))
  | there old step ↦
      ⊎_elim inl (λ (s, m). inr (s, Memᴰ.tail m)) (advance_tip-new h ps edges x p (rw step at e))
  | refused y step ↦ inl (rw step at e)
]

advance_tip_all :
    (h : Hash32) (ps : List Hash32) (edges edges' : Edges)
    → advance_tip h ps edges ≡ (ok tt, edges')
    → (p : Hash32) → Memᴰ p ps
    → Edge edges' h p
advance_tip_all h [] edges edges' done p m = absurd (Memᴰ.not-nil m)
advance_tip_all h (q ∷ ps) edges edges' done p m = elim (advance_tip-Added h q ps edges) [
  | added next r step ↦
      let rest = sym step ∙ done in
      ⊎_elim
        (λ e.
          subst (λ (d : Edges). Edge d h p) (ap (λ z. z.1) rest)
            (advance_tip-kept h ps next h p
              ((add_edge-edges h q edges next r h p).1 (inr (refl, e)))))
        (advance_tip_all h ps next edges' rest p) (Memᴰ.cases_cons m)
  | there old step ↦
      let rest = sym step ∙ done in
      ⊎_elim
        (λ e.
          subst (λ (d : Edges). Edge d h p) (ap (λ z. z.1) rest)
            (advance_tip-kept h ps edges h p (subst (Edge edges h) (sym e) old)))
        (advance_tip_all h ps edges edges' rest p) (Memᴰ.cases_cons m)
  | refused x step ↦ cc (sym step ∙ done)
]

-- When AdvanceTip succeeds, the edges are exactly the old ones and those from the transaction to each
-- of its parents.
pub advance_tip-edges :
    (h : Hash32) (ps : List Hash32) (edges edges' : Edges)
    → advance_tip h ps edges ≡ (ok tt, edges')
    → (x p : Hash32) → Edge edges' x p ↔ (Edge edges x p ⊎ ((x ≡ h) × Memᴰ p ps))
advance_tip-edges h ps edges edges' done x p =
    let same : (advance_tip h ps edges).1 ≡ edges' = ap (λ r. r.1) done in
    (
      λ e. advance_tip-new h ps edges x p (subst (λ (d : Edges). Edge d x p) (sym same) e),
      ⊎_elim (λ old. subst (λ (d : Edges). Edge d x p) same (advance_tip-kept h ps edges x p old))
          (λ (s, m).
            subst (λ y. Edge edges' y p) (sym s) (advance_tip_all h ps edges edges' done p m)),
    )

add_edge_again :
    (h p : Hash32) (edges : Edges)
    → Acyclic edges
    → Edge edges h p
    → add_edge h p edges ≡ err dag_edge_duplicate
add_edge_again h p edges acyclic e = elim (add_edge-cases h p edges) [
  | inl (edges', r) ↦
      let (_, _, new, _) = add_edge-eq-ok h p edges edges' r in
      absurd (cc (sym new ∙ (contains_iff Bytes-discrete p (parents_of edges h)).1 e))
  | inr (inl (r, _)) ↦ r
  | inr (inr (_, back)) ↦ absurd (
      ⊎_elim (λ s. acyclic h (one (subst (Edge edges h) (sym s) e)))
        (λ w. acyclic h (step_then edges e w)) back)
]

-- Recording a transaction again, as a retry after a failed write of the ledger does, succeeds and
-- changes nothing, if the DAG has no cycle and has an edge to each of the parents.
pub advance_tip_again :
    (h : Hash32) (ps : List Hash32) (edges : Edges)
    → Acyclic edges
    → ((p : Hash32) → Memᴰ p ps → Edge edges h p)
    → advance_tip h ps edges ≡ (ok tt, edges)
unfolding advance_tip
advance_tip_again h [] edges acyclic all = refl
advance_tip_again h (p ∷ ps) edges acyclic all =
    rw (add_edge_again h p edges acyclic (all p (Memᴰ.head refl)), advance_tip)
      (advance_tip_again h ps edges acyclic (λ q m. all q (Memᴰ.tail m)))

pub advance_tip-ne-panic :
    (h : Hash32) (ps : List Hash32) (edges : Edges) → (advance_tip h ps edges).0 ≢ panic
unfolding advance_tip
advance_tip-ne-panic h [] edges e = cc
advance_tip-ne-panic h (p ∷ ps) edges e = elim (advance_tip-Added h p ps edges) [
  | added edges' r step ↦ advance_tip-ne-panic h ps edges' (rw step at e)
  | there old step ↦ advance_tip-ne-panic h ps edges (rw step at e)
  | refused x step ↦ cc
]
