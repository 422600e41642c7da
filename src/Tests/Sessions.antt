-- ===== src/Tests/Sessions.antt =====
-- Requests to the server, commands of the client, and a network that is set up.
use mathlib.Core.List.{Memᴰ}
use cdml.Common.{
  ℕ, Bytes, Bytes-discrete, ℕ_discrete, put_uint64, uint64, copy_into, replicate, map, true, List,
  [], ◌∷◌, none, some, ◌≡◌, refl, arith,
}
use cdml.Core.Errors.{Res, err, failure}
use cdml.Core.Types.{PubKey, Witness}
use cdml.Storage.Snapshots.{save_active_witnesses}
use cdml.Crypto.KeyPair.{hex_decode, hex_value, pub_key_from_hex}
use cdml.Storage.Db
use cdml.Storage.Chain
use cdml.Storage.Keys.{bal_key, seq_key, active_witnesses_key}
use cdml.Node.State.{Node}
use cdml.Node.Collecting.{Handling, interleave, fresh}
use cdml.Node.Collecting.Pending.{Stages, interleave-Stages}
use cdml.Api.{
  hex_encode, hex_digit, FaucetRequest, SendTxRequest, WitnessRequest, faucet_amount, handle_faucet,
  handle_status, handle_balance, handle_register_witnesses, read_witnesses,
}
use cdml.Api.Server.{Bodies, Served, serve, mux, on_get, on_post, segments, resource, is_clean}
use cdml.Scripts.Cli.Session.{
  Shown, cmd_faucet, cmd_balance, show_faucet, faucet_request, fields, balance_request,
  status_request,
}
use cdml.Scripts.Cli.Reach.{IsHex, Reached, commands_reach}
use cdml.Scripts.Localnet.Init.{
  Site, Finished, init, keys_of, key_of, reported, give_all, witnesses_of, register_all,
  register_request, balances_of, balance_of,
}
use cdml.Scripts.Localnet.Witnesses.{IsQuorum, publics, init_registers}
use cdml.Scripts.Cli.Answers.{cmd_balance-cmd_faucet}
use cdml.Tests.Instances.{codec, codec_laws, Witnesses-discrete}
use cdml.Tests.Accounts.{bob}
use cdml.Tests.Apis.{hex_of_bob, replicate-AllBytes}
use cdml.Tests.Cluster.{keys, lib, laws, node, plain, signed_by, carol, dave, erin, three}

interleave-Stages_example : Stages (
    interleave (0 ∷ 1 ∷ 2 ∷ 3 ∷ 0 ∷ 1 ∷ 2 ∷ 3 ∷ 2 ∷ []) (
      Handling.arrived (signed_by carol)
          ∷ Handling.arrived (signed_by dave)
          ∷ Handling.arrived (signed_by erin)
          ∷ Handling.arrived (signed_by bob)
          ∷ [],
      fresh plain,
    ))
interleave-Stages_example =
    interleave-Stages plain (signed_by carol ∷ signed_by dave ∷ signed_by erin ∷ signed_by bob ∷ [])
      (0 ∷ 1 ∷ 2 ∷ 3 ∷ 0 ∷ 1 ∷ 2 ∷ 3 ∷ 2 ∷ [])

abbrev faucet_body : FaucetRequest
faucet_body = record { pub_key = hex_encode bob; amount = 7 }

abbrev send_body : SendTxRequest
send_body = record { to = hex_encode bob; amount = 7 }

unfoldable FaucetRequest-discrete : Discrete FaucetRequest
unfolding ℕ_discrete
FaucetRequest-discrete = hlevel ℕ_discrete

unfoldable SendTxRequest-discrete : Discrete SendTxRequest
unfolding ℕ_discrete
SendTxRequest-discrete = hlevel ℕ_discrete

unfoldable WitnessRequests-discrete : Discrete (List WitnessRequest)
unfolding ℕ_discrete
WitnessRequests-discrete = hlevel ℕ_discrete

-- the list of witnesses of the network below
abbrev registering : List WitnessRequest
registering = map (λ (w : Witness). record { pub_key = hex_encode w.pub_key; addr = [] }) three

abbrev bodies : Bodies
bodies = record {
  send_tx_json = codec SendTxRequest-discrete send_body;
  faucet_json = codec FaucetRequest-discrete faucet_body;
  witnesses_json = codec WitnessRequests-discrete registering;
}

abbrev no_random : Res Bytes
no_random = err (failure 3)

bob-IsHex : IsHex (hex_encode bob)
unfolding hex_encode hex_digit
bob-IsHex = record { filled = λ e. cc; digits = refl }

one-IsHex : IsHex (b'1' ∷ [])
one-IsHex = record { filled = λ e. cc; digits = refl }

commands_reach_example :
    Reached lib keys bodies no_random (hex_encode bob) (b'1' ∷ []) send_body faucet_body 5 node
unfolding SendTxRequest-discrete FaucetRequest-discrete Bytes-discrete hex_encode
commands_reach_example =
    commands_reach lib keys bodies no_random (hex_encode bob) (b'1' ∷ []) send_body faucet_body
      (5 ∷ []) (5 ∷ []) 5 node bob-IsHex one-IsHex (codec_laws SendTxRequest-discrete send_body)
      (codec_laws FaucetRequest-discrete faucet_body) refl refl

abbrev filled : Node lib
filled = (cmd_faucet bodies lib keys no_random faucet_body 5 node).1

cmd_balance-cmd_faucet_example :
    (7 ≡ faucet_amount 7)
    × (◌≡◌ {A = ℕ} 7 7)
    × ((cmd_balance bodies lib keys no_random (hex_encode bob) 9 filled).0
        ≡ Shown.balance_line (hex_encode bob) 7 0)
unfolding cmd_faucet show_faucet fields faucet_request serve mux on_post segments resource is_clean
    handle_faucet pub_key_from_hex hex_decode hex_encode hex_digit hex_value copy_into
    Chain.save_balance Chain.get_balance Chain.get_latest_seq Db.get Db.read Db.set bal_key seq_key
    put_uint64 uint64 Bytes-discrete active_witnesses_key FaucetRequest-discrete
cmd_balance-cmd_faucet_example =
    cmd_balance-cmd_faucet lib keys bodies no_random (codec_laws FaucetRequest-discrete faucet_body)
      laws faucet_body (5 ∷ []) bob 5 9 7 7 0 node filled hex_of_bob bob-IsHex (omega arith) refl
      refl (omega arith) refl

-- a network of three nodes, to which every connection holds
abbrev site : PubKey → Site lib
site pk = record {
  kp = record { public = pk; private = replicate 64 2 };
  p2p_addr = [];
  line = record { attempt = λ i. true; faucet = true; register = true; balance = true };
  state = node;
}

abbrev sites : List (Site lib)
sites = site carol ∷ site dave ∷ site erin ∷ []

abbrev finished : Finished lib bodies
finished = elim (init lib bodies 1 2 0 4 sites) [
  | none ↦ record { answers = []; balances = [] }
  | some fin ↦ fin
]

abbrev first_answer : List (Res Served × Site lib) → Site lib
first_answer [] = site carol
first_answer ((_, s) ∷ _) = s

init_registers_example :
    (◌≡◌ {A = ℕ} 3 3)
    × ((τ : ℕ) → IsQuorum lib bodies (publics lib bodies sites) (first_answer finished.answers) τ)
unfolding init keys_of key_of reported give_all witnesses_of register_all register_request
    balances_of balance_of serve mux on_get on_post segments resource is_clean handle_status
    handle_faucet handle_register_witnesses read_witnesses pub_key_from_hex hex_decode hex_encode
    hex_digit hex_value copy_into faucet_request balance_request status_request fields
    save_active_witnesses Chain.save_balance Chain.get_balance Chain.get_latest_seq Db.get Db.read
    Db.set bal_key seq_key put_uint64 uint64 Bytes-discrete active_witnesses_key
    FaucetRequest-discrete WitnessRequests-discrete Witnesses-discrete handle_balance
init_registers_example =
    init_registers lib bodies laws (codec_laws WitnessRequests-discrete registering) 1 2 0 4 3 sites
      (5 ∷ []) finished (first_answer finished.answers)
      (
        replicate-AllBytes 32 11 (omega arith),
        refl,
        (
          replicate-AllBytes 32 12 (omega arith),
          refl,
          (replicate-AllBytes 32 13 (omega arith), refl, tt),
        ),
      )
      refl refl (Memᴰ.head refl)
