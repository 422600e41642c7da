-- ===== src/Protocol/Dag/Search.antt =====
-- The search of isAncestorLocked: what it finds is a walk.
use mathlib.Core.List.{Memᴰ}
use mathlib.Core.Logic.{⊎_elim}
use cdml.Common.{
  ℕ, zero, suc, Bool, true, Bytes-discrete, contains, List, [], ◌∷◌, ◌≡◌, ◌⊎◌, inl, inr, refl,
  subst, arith, Bool-cases,
}
use cdml.Core.Types.{Hash32}
use cdml.Protocol.Dag.{Edges, parents_of, any_ancestor, is_ancestor}
use cdml.Protocol.Dag.Walk.{Edge, Walk, one, step_then}

any_ancestor_sound :
    (P : Hash32 → Type 0) (visit : Hash32 → List Hash32 → Bool × List Hash32) (target : Hash32)
    → ((p : Hash32) (seen : List Hash32) → (visit p seen).0 ≡ true → P p)
    → (ps visited : List Hash32) → (any_ancestor visit target ps visited).0 ≡ true
    → (p : Hash32) × Memᴰ p ps × ((p ≡ target) ⊎ P p)
unfolding any_ancestor
any_ancestor_sound P visit target good [] visited h = cc
any_ancestor_sound P visit target good (p ∷ ps) visited h = elim (Bytes-discrete p target) [
  | yes e ↦ (p, Memᴰ.head refl, inl e)
  | no apart ↦ elim (Bool-cases (visit p visited).0) [
    | inl found ↦ (p, Memᴰ.head refl, inr (good p visited found))
    | inr missed ↦
        let rest : (any_ancestor visit target ps (visit p visited).1).0 ≡ true = ground arith in
        let (q, m, e) = any_ancestor_sound P visit target good ps (visit p visited).1 rest in
        (q, Memᴰ.tail m, e)
  ]
]

module _ (edges : Edges) (target : Hash32) where
  -- Where the search answers true, the target is an ancestor.
  pub is_ancestor-Walk :
      (levels : ℕ) (cur : Hash32) (visited : List Hash32)
      → (is_ancestor edges levels cur target visited).0 ≡ true
      → Walk edges cur target
  unfolding is_ancestor
  is_ancestor-Walk zero cur visited h = cc
  is_ancestor-Walk (suc levels) cur visited h =
      elim (Bool-cases (contains Bytes-discrete cur visited)) [
        | inl old ↦ cc (rw (old, is_ancestor) at h)
        | inr new ↦
            let (p, m, e) =
              any_ancestor_sound (λ q. Walk edges q target)
                (λ q seen. is_ancestor edges levels q target seen) target
                (λ q seen found. is_ancestor-Walk levels q seen found) (parents_of edges cur)
                (cur ∷ visited) (rw (new, is_ancestor) at h) in
            ⊎_elim (λ here. one (subst (Edge edges cur) here m)) (step_then edges m) e
      ]
