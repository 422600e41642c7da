-- ===== src/Scripts/Localnet/Connected.antt =====
-- The nodes of the local network find each other.
use mathlib.Core.List.{Memᴰ}
use mathlib.Core.List.Memᴰ
use mathlib.Core.Logic.{⊎_elim}
use cdml.Common.{
  ℕ, ℕ_discrete, zero, suc, ◌+◌, ◌-◌, ◌≤◌, ◌<◌, Bytes, length, map, List, [], ◌∷◌, Memᴰ-cons, ◌≡◌,
  ◌↔◌, refl, ap, ◌∙◌, arith,
}
use cdml.Api.{WitnessRequest}
use cdml.Scripts.Localnet.{
  base_peer_port, local_address, seeds_from, NodeConfig, node_config, genesis_from, registered_from,
}

-- an address that the loop writes, and which one
mem-seeds_from :
    (n j : ℕ) (a : Bytes)
    → 0 < j
    → Memᴰ a (seeds_from j n)
      ↔ ((i : ℕ) × (j ≤ i) × (i < j + n) × (a ≡ local_address (base_peer_port + i - 1)))
unfolding seeds_from
mem-seeds_from zero j a h =
    (λ m. absurd (Memᴰ.not-nil m), λ (i, low, high, e). absurd (omega arith))
mem-seeds_from (suc n) j a h =
    let (forth, back) = mem-seeds_from n (suc j) a (omega arith) in
    let own = local_address (base_peer_port + j - 1) in
    (
      λ m.
          ⊎_elim (λ e. (j, omega arith, omega arith, e))
            (λ later. let (i, low, high, e) = forth later in (i, omega arith, omega arith, e))
            ((Memᴰ-cons a own (seeds_from (suc j) n)).0 m),
      λ (i, low, high, e). elim (ℕ_discrete i j) [
        | yes same ↦ Memᴰ.head (e ∙ ap (λ x. local_address (base_peer_port + x - 1)) same)
        | no apart ↦ Memᴰ.tail (back (i, ground arith, omega arith, e))
      ],
    )

-- A node of the local network dials exactly the addresses at which the nodes before it listen, wherever
-- their keys and databases are. So of any two nodes the later one dials the other.
pub seeds_exact :
    (key_path db_path : ℕ → Bytes) (k : ℕ) (a : Bytes)
    → 0 < k
    → Memᴰ a (node_config (key_path k) (db_path k) k).seed_peers
      ↔ ((i : ℕ) × (1 ≤ i) × (i < k) × (a ≡ (node_config (key_path i) (db_path i) i).p2p_addr))
unfolding node_config
seeds_exact key_path db_path k a h =
    let (forth, back) = mem-seeds_from (k - 1) 1 a (omega arith) in
    (
      λ m. let (i, low, high, e) = forth m in (i, low, omega arith, e),
      λ (i, low, high, e). back (i, low, omega arith, e),
    )

-- the configurations of n nodes, the first with number i
abbrev pub configs_from : (ℕ → Bytes) → (ℕ → Bytes) → ℕ → ℕ → List NodeConfig
configs_from key_path db_path i zero = []
configs_from key_path db_path i (suc n) =
    node_config (key_path i) (db_path i) i ∷ configs_from key_path db_path (suc i) n

-- The witnesses of genesis.json are those that the initialisation registers, where the nodes report
-- the keys that were set up.
pub genesis-registered :
    (key_path db_path : ℕ → Bytes) (i : ℕ) (pub_keys : List Bytes)
    → genesis_from i pub_keys
      ≡ registered_from (configs_from key_path db_path (suc i) (length pub_keys)) pub_keys
unfolding genesis_from registered_from node_config
genesis-registered key_path db_path i [] = refl
genesis-registered key_path db_path i (pk ∷ pub_keys) =
    let port : base_peer_port + i ≡ base_peer_port + suc i - 1 = omega arith in
    let rest = genesis-registered key_path db_path (suc i) pub_keys in
    λ t. (record { pub_key = pk; addr = local_address (port t) }) ∷ rest t

-- the keys and the addresses of genesis.json
pub keys-genesis_from :
    (i : ℕ) (pub_keys : List Bytes)
    → map (λ (w : WitnessRequest). w.pub_key) (genesis_from i pub_keys) ≡ pub_keys
unfolding genesis_from
keys-genesis_from i [] = refl
keys-genesis_from i (pk ∷ pub_keys) = ap (λ ks. pk ∷ ks) (keys-genesis_from (suc i) pub_keys)

pub addrs-genesis_from :
    (i : ℕ) (pub_keys : List Bytes)
    → map (λ (w : WitnessRequest). w.addr) (genesis_from i pub_keys)
      ≡ seeds_from (suc i) (length pub_keys)
unfolding genesis_from seeds_from
addrs-genesis_from i [] = refl
addrs-genesis_from i (pk ∷ pub_keys) =
    let port : base_peer_port + i ≡ base_peer_port + suc i - 1 = omega arith in
    let rest = addrs-genesis_from (suc i) pub_keys in λ t. local_address (port t) ∷ rest t
