-- ===== src/Protocol/Dag/Walk.antt =====
-- Walks along the edges of the DAG, and how appending an edge changes them.
use mathlib.Core.List.{Memᴰ}
use mathlib.Core.Logic.{⊎_elim}
use cdml.Common.{
  Bytes-discrete, [], ◌∷◌, ◌++◌, ite, ◌≡◌, ◌≢◌, ◌⊎◌, inl, inr, sym, ◌∙◌, subst, arith, Memᴰ-concat,
}
use cdml.Core.Types.{Hash32}
use cdml.Protocol.Dag.{Edges, parents_of, append_edge}

abbrev pub Edge : Edges → Hash32 → Hash32 → Type 0
Edge edges a p = Memᴰ p (parents_of edges a)

-- a walk of one edge or more, from a node to an ancestor of it
pub data Walk (edges : Edges) (a : Hash32) : Hash32 → Type 0 where
  one : {c : Hash32} → Edge edges a c → Walk edges a c
  more : {c d : Hash32} → Walk edges a c → Edge edges c d → Walk edges a d

-- no node is an ancestor of itself
abbrev pub Acyclic : Edges → Type 0
Acyclic edges = (x : Hash32) → ¬ Walk edges x x

pub step_then : (edges : Edges) {a c d : Hash32} → Edge edges a c → Walk edges c d → Walk edges a d
step_then edges e (one f) = more (one e) f
step_then edges e (more w f) = more (step_then edges e w) f

pub Walk-append :
    (edges : Edges) {a c d : Hash32} → Walk edges a c → Walk edges c d → Walk edges a d
Walk-append edges w (one f) = more w f
Walk-append edges w (more v f) = more (Walk-append edges w v) f

-- the parents of every node after an edge is appended
pub parents_of-append_edge :
    (edges : Edges) (from to x : Hash32)
    → parents_of (append_edge edges from to) x
      ≡ ite (Bytes-discrete from x) (parents_of edges x ++ to ∷ []) (parents_of edges x)
unfolding parents_of append_edge
parents_of-append_edge [] from to x = ground arith
parents_of-append_edge ((n, ps) ∷ edges) from to x =
    ground (arith, parents_of-append_edge edges from to x)

-- an edge of the extended graph is an old one or the new one
pub Edge-cases :
    (edges : Edges) (from to x p : Hash32)
    → Edge (append_edge edges from to) x p
    → Edge edges x p ⊎ ((x ≡ from) × (p ≡ to))
Edge-cases edges from to x p m = ground (
  arith,
  subst (Memᴰ p) (parents_of-append_edge edges from to x) m,
  Memᴰ-concat p to (parents_of edges x),
)

module _ (edges : Edges) (from to : Hash32) where
  -- by way of the new edge: from a to its start, and from its end to d
  abbrev Detour : Hash32 → Hash32 → Type 0
  Detour a d = ((a ≡ from) ⊎ Walk edges a from) × ((to ≡ d) ⊎ Walk edges to d)

  Detour-more : (a c d : Hash32) → Detour a c → Edge edges c d → Detour a d
  Detour-more a c d (start, inl here) e = (start, inr (one (rw here e)))
  Detour-more a c d (start, inr w) e = (start, inr (more w e))

  Walk-cases : {a d : Hash32} → Walk (append_edge edges from to) a d → Walk edges a d ⊎ Detour a d
  Walk-cases {a} {d} (one e) =
      ⊎_elim (λ old. inl (one old)) (λ (s, t). inr (inl s, inl (sym t)))
        (Edge-cases edges from to a d e)
  Walk-cases {a} {d} (more {c} w e) = elim (Edge-cases edges from to c d e) [
    | inl old ↦ ⊎_elim (λ v. inl (more v old)) (λ v. inr (Detour-more a c d v old)) (Walk-cases w)
    | inr (s, t) ↦
        ⊎_elim (λ v. inr (inr (subst (Walk edges a) s v), inl (sym t)))
          (λ v. inr (v.0, inl (sym t))) (Walk-cases w)
  ]

  -- An edge whose end is not its start, and from whose end no walk leads back to its start, closes
  -- no cycle.
  pub append_edge-Acyclic :
      from ≢ to → ¬ Walk edges to from → Acyclic edges → Acyclic (append_edge edges from to)
  append_edge-Acyclic apart none_back acyclic x w =
      ⊎_elim (acyclic x)
        (λ (start, end).
          ⊎_elim
            (λ s.
              ⊎_elim (λ t. apart (sym (t ∙ s))) (λ v. none_back (subst (Walk edges to) s v)) end)
            (λ u.
              ⊎_elim (λ t. none_back (subst (λ y. Walk edges y from) (sym t) u))
                (λ v. none_back (Walk-append edges v u)) end)
            start)
        (Walk-cases w)

  pub Edge-kept : (x p : Hash32) → Edge edges x p → Edge (append_edge edges from to) x p
  Edge-kept x p m =
      subst (Memᴰ p) (sym (parents_of-append_edge edges from to x))
        (ground (arith, Memᴰ-concat p to (parents_of edges x)))

  pub Edge-new : Edge (append_edge edges from to) from to
  Edge-new =
      subst (Memᴰ to) (sym (parents_of-append_edge edges from to from))
        (ground (arith, Memᴰ-concat to to (parents_of edges from)))

  pub Walk-kept : {a d : Hash32} → Walk edges a d → Walk (append_edge edges from to) a d
  Walk-kept {a} {d} (one e) = one (Edge-kept a d e)
  Walk-kept {a} {d} (more {c} w e) = more (Walk-kept w) (Edge-kept c d e)
