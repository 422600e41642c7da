-- ===== src/Protocol/Dag/Missed.antt =====
-- The search of isAncestorLocked: with enough levels it finds every walk.
use mathlib.Core.List.{Memᴰ}
use mathlib.Core.List.Memᴰ
use mathlib.Core.Logic.{⊎_elim}
use cdml.Common.{
  ℕ, zero, suc, ◌≤◌, Bool, false, Bytes-discrete, contains, contains_iff, length, List, [], ◌∷◌,
  ◌≡◌, ◌≢◌, ◌⊎◌, inl, inr, refl, sym, ◌∙◌, subst, ap, arith, Bool-cases, List-cases,
}
use cdml.Core.Types.{Hash32}
use cdml.Protocol.Dag.{Edges, parents_of, any_ancestor, is_ancestor}
use cdml.Protocol.Dag.Unseen.{unseen, unseen_grows, unseen_visit, unseen_none, unseen_le_length}
use cdml.Protocol.Dag.Walk.{Edge, Walk, one, more}

any_ancestor_none :
    (visit : Hash32 → List Hash32 → Bool × List Hash32) (target : Hash32) (v w : List Hash32)
    → any_ancestor visit target [] v ≡ (false, w)
    → v ≡ w
unfolding any_ancestor
any_ancestor_none visit target v w h = ap (λ r. r.1) h

any_ancestor_missed :
    (visit : Hash32 → List Hash32 → Bool × List Hash32) (target q : Hash32) (ps v w : List Hash32)
    → any_ancestor visit target (q ∷ ps) v ≡ (false, w)
    → (q ≢ target)
      × (visit q v ≡ (false, (visit q v).1))
      × (any_ancestor visit target ps (visit q v).1 ≡ (false, w))
unfolding any_ancestor
any_ancestor_missed visit target q ps v w h = ground arith

module _ (edges : Edges) (target : Hash32) where
  -- a node that is visited, or that has no parents
  abbrev Known : List Hash32 → Hash32 → Type 0
  Known visited x = Memᴰ x visited ⊎ (parents_of edges x ≡ [])

  -- What a search that answers false has done: it kept what was visited, and of each node that it
  -- visited no parent is the target and every parent is known.
  record Explored (visited visited' : List Hash32) : Type 0 where
    grows : (x : Hash32) → Memᴰ x visited → Memᴰ x visited'
    closed :
        (x : Hash32)
        → Memᴰ x visited'
        → Memᴰ x visited ⊎ ((p : Hash32) → Edge edges x p → (p ≢ target) × Known visited' p)

  Known-grows :
      (v w : List Hash32)
      → ((x : Hash32) → Memᴰ x v → Memᴰ x w)
      → (x : Hash32) → Known v x
      → Known w x
  Known-grows v w grows x (inl m) = inl (grows x m)
  Known-grows v w grows x (inr e) = inr e

  Explored-refl : (v : List Hash32) → Explored v v
  Explored-refl v = record { grows = λ x m. m; closed = λ x m. inl m }

  Explored-trans : (u v w : List Hash32) → Explored u v → Explored v w → Explored u w
  Explored-trans u v w h k = record {
    grows = λ x m. k.grows x (h.grows x m);
    closed = λ x m.
        ⊎_elim
          (λ old.
            ⊎_elim inl (λ all. inr (λ p e. ((all p e).0, Known-grows v w k.grows p (all p e).1)))
              (h.closed x old))
          inr (k.closed x m);
  }

  -- the loop over the parents, where each call of the search explores from its parent
  any_ancestor_explores :
      (n : ℕ) (visit : Hash32 → List Hash32 → Bool × List Hash32)
      → ((p : Hash32) (v w : List Hash32)
          → unseen edges v ≤ n
          → visit p v ≡ (false, w)
          → Explored v w × Known w p)
      → (ps v w : List Hash32) → unseen edges v ≤ n
      → any_ancestor visit target ps v ≡ (false, w)
      → Explored v w × ((p : Hash32) → Memᴰ p ps → (p ≢ target) × Known w p)
  unfolding any_ancestor
  any_ancestor_explores n visit explores [] v w few h =
      let same : v ≡ w = ap (λ r. r.1) h in
      (subst (Explored v) same (Explored-refl v), λ p m. absurd (Memᴰ.not-nil m))
  any_ancestor_explores n visit explores (q ∷ ps) v w few h =
      let (apart, missed, rest) = any_ancestor_missed visit target q ps v w h in
      let v1 = (visit q v).1 in
      let (first, known) = explores q v v1 few missed in
      let fewer = unseen_grows edges v v1 first.grows in
      let (others, all) = any_ancestor_explores n visit explores ps v1 w (omega arith) rest in
      (
        Explored-trans v v1 w first others,
        λ p m.
            ⊎_elim
              (λ e. (
                λ t. apart (sym e ∙ t),
                subst (Known w) (sym e) (Known-grows v1 w others.grows q known),
              ))
              (all p) (Memᴰ.cases_cons m),
      )

  Explored-visited :
      (cur : Hash32) (v w : List Hash32)
      → Explored (cur ∷ v) w
      → ((p : Hash32) → Edge edges cur p → (p ≢ target) × Known w p)
      → Explored v w
  Explored-visited cur v w h all = record {
    grows = λ x m. h.grows x (Memᴰ.tail m);
    closed = λ x m.
        ⊎_elim
          (λ old.
            ⊎_elim (λ e. inr (λ p edge. all p (subst (λ y. Edge edges y p) e edge))) inl
              (Memᴰ.cases_cons old))
          inr (h.closed x m);
  }

  is_ancestor_missed :
      (levels : ℕ) (cur : Hash32) (v w : List Hash32)
      → contains Bytes-discrete cur v ≡ false
      → is_ancestor edges (suc levels) cur target v ≡ (false, w)
      → any_ancestor
          (λ p seen. is_ancestor edges levels p target seen)
          target
          (parents_of edges cur)
          (cur ∷ v)
        ≡ (false, w)
  unfolding is_ancestor
  is_ancestor_missed levels cur v w new h = rw (new, is_ancestor) at h

  is_ancestor_explores :
      (levels : ℕ) (cur : Hash32) (v w : List Hash32)
      → unseen edges v ≤ levels
      → is_ancestor edges levels cur target v ≡ (false, w)
      → Explored v w × Known w cur
  unfolding is_ancestor
  is_ancestor_explores zero cur v w few h =
      let same : v ≡ w = ap (λ r. r.1) h in
      (
        subst (Explored v) same (Explored-refl v),
        subst (λ u. Known u cur) same (unseen_none edges v cur few),
      )
  is_ancestor_explores (suc levels) cur v w few h =
      elim (Bool-cases (contains Bytes-discrete cur v)) [
        | inl old ↦
            let same : v ≡ w = ap (λ r. r.1) (rw (old, is_ancestor) at h) in
            (
              subst (Explored v) same (Explored-refl v),
              subst (λ u. Known u cur) same (inl ((contains_iff Bytes-discrete cur v).0 old)),
            )
        | inr new ↦
            let visit =
              λ (p : Hash32) (seen : List Hash32). is_ancestor edges levels p target seen in
            let missed = is_ancestor_missed levels cur v w new h in
            elim (List-cases (parents_of edges cur)) [
              | inl empty ↦
                  let same : cur ∷ v ≡ w =
                    any_ancestor_none visit target (cur ∷ v) w (rw empty at missed) in
                  (
                    Explored-visited cur v w
                        (subst (Explored (cur ∷ v)) same (Explored-refl (cur ∷ v)))
                        (λ p m. absurd (Memᴰ.not-nil (subst (Memᴰ p) empty m))),
                    inr empty,
                  )
              | inr (x, rest, e) ↦
                  let nonempty : parents_of edges cur ≢ [] = λ z. cc in
                  let fewer = unseen_visit edges cur v new nonempty in
                  let (explored, all) =
                    any_ancestor_explores levels visit
                      (λ p a c few' h'. is_ancestor_explores levels p a c few' h')
                      (parents_of edges cur) (cur ∷ v) w (omega arith) missed in
                  (Explored-visited cur v w explored all, inl (explored.grows cur (Memᴰ.head refl)))
            ]
      ]

  -- all that a walk reaches is known and is not the target
  Explored-Walk :
      (cur : Hash32) (w : List Hash32)
      → Explored [] w
      → Known w cur
      → {d : Hash32} → Walk edges cur d
      → (d ≢ target) × Known w d
  Explored-Walk cur w h known {d} (one e) =
      ⊎_elim (λ m. ⊎_elim (λ none. absurd (Memᴰ.not-nil none)) (λ all. all d e) (h.closed cur m))
        (λ empty. absurd (Memᴰ.not-nil (subst (Memᴰ d) empty e))) known
  Explored-Walk cur w h known {d} (more {c} v e) =
      let (_, there) = Explored-Walk cur w h known v in
      ⊎_elim (λ m. ⊎_elim (λ none. absurd (Memᴰ.not-nil none)) (λ all. all d e) (h.closed c m))
        (λ empty. absurd (Memᴰ.not-nil (subst (Memᴰ d) empty e))) there

  -- With at least as many levels as there are entries in the map, the search misses no walk: where it
  -- answers false, the target is no ancestor.
  pub not-Walk_of_missed :
      (levels : ℕ) (cur : Hash32)
      → length edges ≤ levels
      → (is_ancestor edges levels cur target []).0 ≡ false
      → ¬ Walk edges cur target
  not-Walk_of_missed levels cur enough missed walk =
      let w = (is_ancestor edges levels cur target []).1 in
      let few = unseen_le_length edges in
      let (explored, known) =
        is_ancestor_explores levels cur [] w (omega arith) (λ i. (missed i, w)) in
      (Explored-Walk cur w explored known walk).0 refl
