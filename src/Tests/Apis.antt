-- ===== src/Tests/Apis.antt =====
-- Calls of the HTTP interface, and a payment that is looked up by it.
use cdml.Common.{
  ℕ, zero, suc, ◌<◌, Bytes-discrete, put_uint64, uint64, replicate, [], ◌∷◌, none, ◌≡◌, refl, arith,
}
use cdml.Core.Errors.{ok}
use cdml.Core.Types.{Transaction}
use cdml.Core.Amount.{safe_add, safe_sub, bond_amount}
use cdml.Crypto.KeyPair.{pub_key_from_hex}
use cdml.Storage.Db
use cdml.Storage.Chain
use cdml.Storage.Chain.{get_balance, get_latest_seq}
use cdml.Storage.Keys.{bal_key, seq_key, tx_key, reward_pool_key, active_witnesses_key}
use cdml.Protocol.Dag.{advance_tip, add_edge}
use cdml.Protocol.Processor.World.{World}
use cdml.Protocol.Processor.Confirm.{confirm_tx, as_confirmed}
use cdml.Protocol.Processor.Success.{confirm_tx_succeeds}
use cdml.Node.Handlers.{with_sigs}
use cdml.Api.{hex_encode, parse_uint, transaction, handle_get_tx}
use cdml.Api.Keys.{AllBytes, pub_key_from_hex-hex_encode}
use cdml.Api.Accounts.{get_tx-confirm_tx}
use cdml.Tests.Instances.{in_memory-IsHealthy, Transaction-discrete}
use cdml.Tests.Accounts.{alice, bob}
use cdml.Tests.Cluster.{keys, lib, laws, node, plain, three_sigs}

pub replicate-AllBytes : (n b : ℕ) → b < 256 → AllBytes (replicate n b)
replicate-AllBytes zero b h = tt
replicate-AllBytes (suc n) b h = (h, replicate-AllBytes n b h)

pub hex_of_bob : pub_key_from_hex (hex_encode bob) ≡ ok bob
hex_of_bob = pub_key_from_hex-hex_encode bob (replicate-AllBytes 32 4 (omega arith)) refl

abbrev signed : Transaction
signed = with_sigs plain three_sigs

abbrev confirmed_world : World lib.libs
confirmed_world = (confirm_tx lib.libs signed 5 node.world).1

confirmed_run : confirm_tx lib.libs signed 5 node.world ≡ (ok none, confirmed_world)
unfolding confirm_tx safe_add safe_sub bond_amount Db.get Db.read Chain.get_balance
    Chain.confirm_tx_batch Chain.batch_writes Chain.accumulate_bond Chain.get_reward_pool
    Db.atomic_write Db.set bal_key put_uint64 uint64 Bytes-discrete Transaction-discrete advance_tip
    add_edge reward_pool_key tx_key seq_key active_witnesses_key
confirmed_run = refl

get_tx-confirm_tx_example :
    (handle_get_tx lib keys
      (hex_encode alice)
      (b'1' ∷ [])
      9
      (record node { world = confirmed_world })).0
    ≡ ok (transaction (as_confirmed signed))
unfolding confirm_tx safe_add safe_sub bond_amount Db.get Db.read Chain.get_balance
    Chain.confirm_tx_batch Chain.batch_writes Chain.accumulate_bond Chain.get_reward_pool
    Db.atomic_write Db.set bal_key put_uint64 uint64 Bytes-discrete Transaction-discrete advance_tip
    add_edge reward_pool_key tx_key seq_key active_witnesses_key parse_uint
get_tx-confirm_tx_example =
    get_tx-confirm_tx lib keys laws signed 5 9 10_000 node.world confirmed_world none
      (record node { world = confirmed_world }) (hex_encode alice) (b'1' ∷ []) (omega arith)
      (omega arith) refl confirmed_run refl
      (pub_key_from_hex-hex_encode alice (replicate-AllBytes 32 1 (omega arith)) refl) refl

confirm_tx_succeeds_example : (confirm_tx lib.libs signed 5 node.world).0 ≡ ok none
unfolding bond_amount Db.get Db.read Chain.get_balance Chain.get_reward_pool bal_key put_uint64
    uint64 Bytes-discrete Transaction-discrete advance_tip add_edge reward_pool_key
    active_witnesses_key
confirm_tx_succeeds_example =
    confirm_tx_succeeds lib.libs in_memory-IsHealthy laws signed 5 10_000 500 0 node.world (5 ∷ [])
      (omega arith) (omega arith) refl refl refl (omega arith) (omega arith) (omega arith) refl refl
