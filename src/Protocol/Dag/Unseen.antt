-- ===== src/Protocol/Dag/Unseen.antt =====
-- The nodes that a search has still to visit.
use mathlib.Core.List.{Memᴰ}
use cdml.Common.{
  ℕ, suc, ◌≤◌, ◌<◌, false, Bytes-discrete, contains, contains_iff, length, List, [], ◌∷◌,
  if◌then◌else◌, ◌≡◌, ◌≢◌, ◌⊎◌, inl, inr, refl, subst, arith,
}
use cdml.Core.Types.{Hash32}
use cdml.Protocol.Dag.{Edges, parents_of}

-- the nodes with parents that are not yet visited
unfoldable pub unseen : Edges → List Hash32 → ℕ
unseen [] visited = 0
unseen ((n, _) ∷ rest) visited =
    let others = unseen rest visited in
    if contains Bytes-discrete n visited then others else suc others

pub unseen_grows :
    (es : Edges) (v w : List Hash32)
    → ((x : Hash32) → Memᴰ x v → Memᴰ x w)
    → unseen es w ≤ unseen es v
unfolding unseen
unseen_grows [] v w grows = omega arith
unseen_grows ((n, ps) ∷ es) v w grows = ground (
  arith,
  unseen_grows es v w grows,
  grows n,
  contains_iff Bytes-discrete n v,
  contains_iff Bytes-discrete n w,
)

-- a new node with parents is one fewer to visit
pub unseen_visit :
    (es : Edges) (cur : Hash32) (v : List Hash32)
    → contains Bytes-discrete cur v ≡ false
    → parents_of es cur ≢ []
    → unseen es (cur ∷ v) < unseen es v
unfolding unseen parents_of
unseen_visit [] cur v new some_parents = absurd (some_parents refl)
unseen_visit ((n, ps) ∷ es) cur v new some_parents =
    ground (arith, unseen_visit es cur v new, unseen_grows es v (cur ∷ v) (λ x m. Memᴰ.tail m))

pub unseen_none :
    (es : Edges) (v : List Hash32) (x : Hash32)
    → unseen es v ≤ 0
    → Memᴰ x v ⊎ (parents_of es x ≡ [])
unfolding unseen parents_of
unseen_none [] v x h = inr refl
unseen_none ((n, ps) ∷ es) v x h = elim (Bytes-discrete n x) [
  | yes e ↦ inl (subst (λ y. Memᴰ y v) e ((contains_iff Bytes-discrete n v).0 (ground arith)))
  | no apart ↦ ground (arith, unseen_none es v x)
]

pub unseen_le_length : (es : Edges) → unseen es [] ≤ length es
unfolding unseen
unseen_le_length [] = omega arith
unseen_le_length (_ ∷ es) = omega (arith, unseen_le_length es)
