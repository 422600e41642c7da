-- ===== src/Tests/Terminals.antt =====
-- The client on two configured nodes, of which one runs.
use cdml.Common.{
  Bytes, Bytes-discrete, ite, take, length, List, [], ◌∷◌, ◌++◌, some, ◌≡◌, inr, refl, arith,
}
use cdml.Common.Maps.{lookup}
use cdml.Core.Errors.{ok, err, failure, key_not_found}
use cdml.Api.{hex_encode}
use cdml.Api.Server.{Bodies}
use cdml.Scripts.Cli.Word
use cdml.Scripts.Cli.{digits}
use cdml.Scripts.Cli.Terminal.{Testnet, Row, Output, Running, config_path, load_api_addr, main}
use cdml.Scripts.Cli.Rows.{main-status}
use cdml.Tests.Cluster.{keys, lib, node, always}

-- the text of a configuration is the address in it
abbrev testnet : Testnet
testnet = record {
  config_json = record {
    marshal = λ c. ok c.api_addr;
    unmarshal = λ bs. ok (record { api_addr = bs });
  };
  read_file = λ path.
      ite (Bytes-discrete path (config_path [] 1)) (ok (11 ∷ []))
        (ite (Bytes-discrete path (config_path [] 2)) (ok (12 ∷ [])) (err key_not_found));
  dir = [];
}

abbrev bodies : Bodies
bodies = record {
  send_tx_json = always (record { to = []; amount = 7 });
  faucet_json = always (record { pub_key = []; amount = 7 });
  witnesses_json = always [];
}

abbrev servers : List (Bytes × Running lib)
servers = (12 ∷ [], record { kp = keys; state = node }) ∷ []

have_keys :
    (addr : Bytes) (srv : Running lib) → lookup addr servers ≡ some srv → length srv.kp.public ≡ 32
unfolding lookup Bytes-discrete
have_keys addr srv h = ground arith

main-status_example : main lib bodies (err (failure 3)) testnet 1 (Word.status ∷ []) 5 servers ≡ (
  Output.rows (
      Row.offline 1 (11 ∷ [])
      ∷ Row.online 2 (12 ∷ []) (take 16 (hex_encode keys.public) ++ b'.' ∷ b'.' ∷ b'.' ∷ []) 0
      ∷ []),
  servers,
)
unfolding load_api_addr lookup Bytes-discrete digits
main-status_example =
    main-status lib bodies (err (failure 3)) testnet 1 (11 ∷ []) ((11 ∷ []) ∷ (12 ∷ []) ∷ []) [] 5
      servers refl have_keys (omega arith, refl, (omega arith, refl, inr (λ a e. cc)))
