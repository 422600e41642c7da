-- ===== src/Protocol/Dag/Order.antt =====
-- CurrentTips does not depend on the order in which Go ranges over the map.
use mathlib.Core.List.{Memᴰ, Permᴰ}
use mathlib.Core.List.Memᴰ
use mathlib.Core.List.Permᴰ
use mathlib.Core.Logic.{⊎_elim}
use cdml.Common.{
  false, Bytes-discrete, contains_iff, length, List, [], ◌∷◌, ◌≡◌, ◌↔◌, refl, ap, sym, ◌∙◌, arith,
}
use cdml.Core.Types.{Hash32}
use cdml.Protocol.Dag.{
  Edges, nodes, has_child, before, insert_sorted, sort, childless, current_tips,
}
use cdml.Protocol.Dag.Tips.{before_trans, before-asym, mem-has_child}

before_total :
    (a b : Hash32) → length a ≡ length b → before a b ≡ false → before b a ≡ false → a ≡ b
unfolding before
before_total [] [] size h k = refl
before_total [] (y ∷ b) size h k = absurd (omega (arith, size))
before_total (x ∷ a) [] size h k = absurd (omega (arith, size))
before_total (x ∷ a) (y ∷ b) size h k = ground (arith, before_total a b)

-- two hashes of one length can be inserted in either order
insert_comm :
    (a b : Hash32) (hs : List Hash32)
    → length a ≡ length b
    → insert_sorted a (insert_sorted b hs) ≡ insert_sorted b (insert_sorted a hs)
unfolding insert_sorted
insert_comm a b [] size = ground (arith, before_total a b size, before-asym a b, before-asym b a)
insert_comm a b (x ∷ hs) size = ground (
  arith,
  insert_comm a b hs size,
  before_total a b size,
  before-asym a b,
  before-asym b a,
  before_trans a b x,
  before_trans b a x,
)

mem_moved : {A : Type 0} {a : A} {xs ys : List A} → Permᴰ xs ys → Memᴰ a xs → Memᴰ a ys
mem_moved Permᴰ.nil m = m
mem_moved (Permᴰ.cons e p) m =
    ⊎_elim (λ h. Memᴰ.head (h ∙ e)) (λ t. Memᴰ.tail (mem_moved p t)) (Memᴰ.cases_cons m)
mem_moved (Permᴰ.swap e f) m =
    ⊎_elim (λ h. Memᴰ.tail (Memᴰ.head (h ∙ e)))
      (λ t. ⊎_elim (λ h. Memᴰ.head (h ∙ f)) (λ u. Memᴰ.tail (Memᴰ.tail u)) (Memᴰ.cases_cons t))
      (Memᴰ.cases_cons m)
mem_moved (Permᴰ.trans p q) m = mem_moved q (mem_moved p m)

-- every node is a hash of 32 bytes
abbrev pub AllHashes : Edges → Type 0
AllHashes edges = (e : Hash32 × List Hash32) → Memᴰ e edges → length e.0 ≡ 32

childless_tips :
    {edges edges' : Edges} (children : List Hash32)
    → Permᴰ edges edges'
    → AllHashes edges
    → sort (childless children (nodes edges)) ≡ sort (childless children (nodes edges'))
unfolding childless sort
childless_tips children Permᴰ.nil sized = refl
childless_tips children (Permᴰ.cons {a = a} {b = b} {l₁ = es} {l₂ = es'} e p) sized =
    let same : a.0 ≡ b.0 = ap (λ (x : Hash32 × List Hash32). x.0) e in
    let rest = childless_tips children p (λ x m. sized x (Memᴰ.tail m)) in
    ground (arith, rest, same)
childless_tips children (Permᴰ.swap {a = a} {b = b} {a' = a'} {b' = b'} {l = es} e f) sized =
    let first : a.0 ≡ b'.0 = ap (λ (x : Hash32 × List Hash32). x.0) e in
    let second : b.0 ≡ a'.0 = ap (λ (x : Hash32 × List Hash32). x.0) f in
    let size : length a.0 ≡ length b.0 =
      sized a (Memᴰ.head refl) ∙ sym (sized b (Memᴰ.tail (Memᴰ.head refl))) in
    ground (arith, insert_comm a.0 b.0 (sort (childless children (nodes es))) size)
childless_tips children (Permᴰ.trans p q) sized =
    childless_tips children p sized
    ∙ childless_tips children q (λ x m. sized x (mem_moved (Permᴰ.symm p) m))

childless_same :
    (children children' ns : List Hash32)
    → ((x : Hash32) → Memᴰ x children ↔ Memᴰ x children')
    → childless children ns ≡ childless children' ns
unfolding childless
childless_same children children' [] same = refl
childless_same children children' (n ∷ ns) same = ground (
  arith,
  childless_same children children' ns same,
  same n,
  contains_iff Bytes-discrete n children,
  contains_iff Bytes-discrete n children',
)

has_child_moved :
    {edges edges' : Edges}
    → Permᴰ edges edges'
    → (x : Hash32) → Memᴰ x (has_child edges)
    → Memᴰ x (has_child edges')
has_child_moved {edges} {edges'} p x m =
    let (e, there, child) = (mem-has_child edges x).0 m in
    (mem-has_child edges' x).1 (e, mem_moved p there, child)

-- CurrentTips has one result: in whatever order Go ranges over the entries of the map, the tips are
-- the same, in the same order (nodes of 32 bytes).
pub current_tips-eq :
    (edges edges' : Edges)
    → Permᴰ edges edges'
    → AllHashes edges
    → current_tips edges ≡ current_tips edges'
unfolding current_tips
current_tips-eq edges edges' p sized =
    childless_tips (has_child edges) p sized
    ∙ ap sort (
        childless_same (has_child edges) (has_child edges') (nodes edges')
          (λ x. (has_child_moved p x, has_child_moved (Permᴰ.symm p) x)))
