-- ===== src/Protocol/Dag/Tips.antt =====
-- What CurrentTips returns: the nodes without a child, in the order of their bytes.
use mathlib.Core.List.{Memᴰ}
use mathlib.Core.List.Memᴰ
use mathlib.Core.Logic.{⊎_elim}
use cdml.Common.{
  true, false, Bytes-discrete, contains_iff, Memᴰ-cons, Memᴰ-append, subst, List, [], ◌∷◌, ◌≡◌, ◌↔◌,
  ◌⊎◌, inl, inr, refl, arith, Bool-cases,
}
use cdml.Core.Types.{Hash32}
use cdml.Protocol.Dag.{
  Edges, nodes, has_child, before, insert_sorted, sort, childless, current_tips,
}

pub before_trans : (a b c : Hash32) → before a b ≡ true → before b c ≡ true → before a c ≡ true
unfolding before
before_trans [] b c h k = absurd (ground arith)
before_trans (x ∷ a) [] c h k = absurd (ground arith)
before_trans (x ∷ a) (y ∷ b) [] h k = absurd (ground arith)
before_trans (x ∷ a) (y ∷ b) (z ∷ c) h k = ground (arith, before_trans a b c)

pub before-asym : (a b : Hash32) → before a b ≡ true → before b a ≡ false
unfolding before
before-asym [] b h = absurd (ground arith)
before-asym (x ∷ a) [] h = refl
before-asym (x ∷ a) (y ∷ b) h = ground (arith, before-asym a b)

-- no hash is before one that stands in front of it
pub data Ordered : List Hash32 → Type 0 where
  empty : Ordered []
  front :
      {h : Hash32} {hs : List Hash32}
      → ((k : Hash32) → Memᴰ k hs → before k h ≡ false)
      → Ordered hs
      → Ordered (h ∷ hs)

mem-insert_sorted :
    (h : Hash32) (hs : List Hash32) (k : Hash32)
    → Memᴰ k (insert_sorted h hs) ↔ ((k ≡ h) ⊎ Memᴰ k hs)
unfolding insert_sorted
mem-insert_sorted h [] k = Memᴰ-cons k h []
mem-insert_sorted h (x ∷ xs) k = ground (
  arith,
  mem-insert_sorted h xs k,
  Memᴰ-cons k h (x ∷ xs),
  Memᴰ-cons k x xs,
  Memᴰ-cons k x (insert_sorted h xs),
)

Ordered-insert_sorted : (h : Hash32) (hs : List Hash32) → Ordered hs → Ordered (insert_sorted h hs)
unfolding insert_sorted
Ordered-insert_sorted h [] empty = front (λ k m. absurd (Memᴰ.not-nil m)) empty
Ordered-insert_sorted h (x ∷ xs) (front least rest) = elim (Bool-cases (before h x)) [
  | inl first ↦ rw (first) (
      front
        (λ k m.
          ground (arith, Memᴰ-cons k x xs, before-asym h x first, least k, before_trans k h x))
        (front least rest))
  | inr later ↦ rw (later) (
      front (λ k m. ground (arith, mem-insert_sorted h xs k, least k))
        (Ordered-insert_sorted h xs rest))
]

Ordered-sort : (hs : List Hash32) → Ordered (sort hs)
unfolding sort
Ordered-sort [] = empty
Ordered-sort (h ∷ hs) = Ordered-insert_sorted h (sort hs) (Ordered-sort hs)

mem-sort : (hs : List Hash32) (k : Hash32) → Memᴰ k (sort hs) ↔ Memᴰ k hs
unfolding sort
mem-sort [] k = (λ m. m, λ m. m)
mem-sort (h ∷ hs) k =
    ground (arith, mem-insert_sorted h (sort hs) k, mem-sort hs k, Memᴰ-cons k h hs)

mem-childless :
    (children ns : List Hash32) (k : Hash32)
    → Memᴰ k (childless children ns) ↔ (Memᴰ k ns × ¬ Memᴰ k children)
unfolding childless
mem-childless children [] k = (λ m. absurd (Memᴰ.not-nil m), λ (m, _). absurd (Memᴰ.not-nil m))
mem-childless children (n ∷ ns) k = ground (
  arith,
  contains_iff Bytes-discrete n children,
  mem-childless children ns k,
  Memᴰ-cons k n ns,
  Memᴰ-cons k n (childless children ns),
  λ (e : k ≡ n) (m : Memᴰ n children). Memᴰ.cast e m,
  λ (e : n ≡ k) (m : Memᴰ k children). Memᴰ.cast e m,
)

pub mem-has_child :
    (edges : Edges) (k : Hash32)
    → Memᴰ k (has_child edges) ↔ ((e : Hash32 × List Hash32) × Memᴰ e edges × Memᴰ k e.1)
unfolding has_child
mem-has_child [] k = (λ m. absurd (Memᴰ.not-nil m), λ (_, m, _). absurd (Memᴰ.not-nil m))
mem-has_child ((n, ps) ∷ edges) k =
    let (forth, back) = mem-has_child edges k in
    let (split, join) = Memᴰ-append k ps (has_child edges) in
    (
      λ m.
          ⊎_elim (λ own. ((n, ps), Memᴰ.head refl, own))
            (λ later. let (e, there, child) = forth later in (e, Memᴰ.tail there, child)) (split m),
      λ (e, there, child).
          ⊎_elim (λ same. join (inl (subst (λ x. Memᴰ k x.1) same child)))
            (λ later. join (inr (back (e, later, child)))) (Memᴰ.cases_cons there),
    )

-- CurrentTips returns exactly the nodes that are a parent of no node, each before none that stands
-- in front of it in the order of their bytes.
pub current_tips_exact :
    (edges : Edges)
    → Ordered (current_tips edges)
      × ((h : Hash32)
          → Memᴰ h (current_tips edges)
            ↔ (Memᴰ h (nodes edges) × ¬ ((e : Hash32 × List Hash32) × Memᴰ e edges × Memᴰ h e.1)))
unfolding current_tips
current_tips_exact edges = (
  Ordered-sort (childless (has_child edges) (nodes edges)),
  λ h.
      let (a, b) = mem-sort (childless (has_child edges) (nodes edges)) h in
      let (c, d) = mem-childless (has_child edges) (nodes edges) h in
      let (f, g) = mem-has_child edges h in
      (λ m. ((c (a m)).0, λ e. (c (a m)).1 (g e)), λ (m, lone). b (d (m, λ e. lone (f e)))),
)
