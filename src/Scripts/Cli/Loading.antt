-- ===== src/Scripts/Cli/Loading.antt =====
-- The nodes that the client finds.
use cdml.Common.{
  ℕ, zero, suc, ◌+◌, ◌≤◌, length, List, [], ◌∷◌, map, Option, none, some, ◌≡◌, ◌⊎◌, inl, inr, refl,
  ap, arith, Option-cases, sym, subst,
}
use cdml.Scripts.Cli.{load_nodes, load_all_nodes}

-- the numbers from i on
abbrev pub count_from : ℕ → ℕ → List ℕ
count_from i zero = []
count_from i (suc n) = i ∷ count_from (suc i) n

-- which list the loop makes, and why it ended
pub record Found {A : Type 0} (load : ℕ → Option A) (left i : ℕ) (nodes : List (ℕ × A))
    : Type 0 where
  pub in_order : map (λ e. some e.1) nodes ≡ map load (count_from i (length nodes))
  pub numbered : map (λ e. e.0) nodes ≡ count_from i (length nodes)
  pub at_most : length nodes ≤ left
  pub ended : (length nodes ≡ left) ⊎ (load (i + length nodes) ≡ none)

load_nodes-Found :
    {A : Type 0} (load : ℕ → Option A) (left i : ℕ) → Found load left i (load_nodes load left i)
unfolding load_nodes
load_nodes-Found load zero i = record {
  in_order = refl;
  numbered = refl;
  at_most = omega arith;
  ended = inl refl;
}
load_nodes-Found load (suc left) i =
    let rest = load_nodes-Found load left (suc i) in
    elim (Option-cases (load i)) [
      | inl stop ↦
          let same : load_nodes load (suc left) i ≡ [] = ground arith in
          subst (Found load (suc left) i) (sym same) (record {
            in_order = refl;
            numbered = refl;
            at_most = omega arith;
            ended = inr (subst (λ k. load k ≡ none) (omega arith) stop);
          })
      | inr (cfg, there) ↦
          let others = load_nodes load left (suc i) in
          let n = length others in
          let shift : suc i + n ≡ i + suc n = omega arith in
          let same : load_nodes load (suc left) i ≡ (i, cfg) ∷ others = ground arith in
          subst (Found load (suc left) i) (sym same) (record {
            in_order = ground (arith, rest.in_order);
            numbered = ap (λ ns. i ∷ ns) rest.numbered;
            at_most = omega (arith, rest.at_most);
            ended = ground (arith, rest.ended, shift);
          })
    ]

-- The client finds the nodes 1, 2, 3 and so on, in order and with their own configurations, at most
-- 20 of them; and it stops before 20 only at the first number that has no configuration.
pub load_all_nodes-Found :
    {A : Type 0} (load : ℕ → Option A) → Found load 20 1 (load_all_nodes load)
unfolding load_all_nodes
load_all_nodes-Found load = load_nodes-Found load 20 1
