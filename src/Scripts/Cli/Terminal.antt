-- ===== src/Scripts/Cli/Terminal.antt =====
-- scripts/cli/main.go: main from the arguments to what is shown, loadAPIAddr, and `status` over all the
-- nodes. The files and the servers that listen are arguments; a number of a node is not negative.
use cdml.Common.{
  ℕ, ltb, if◌then◌else◌, Bool, true, false, Bytes, Bytes-discrete, ite, take, length, List, [], ◌∷◌,
  ◌++◌, Option, none, some,
}
use cdml.Core.Errors.{Res, ok, err, failure, fail_if, wrapped, ◌>>=◌, ◌>>◌}
use cdml.Json.{Json}
use cdml.Crypto.KeyPair.{KeyPair}
use cdml.Node.State.{Node, NodeLibraries}
use cdml.Api.{status}
use cdml.Api.Server.{Bodies, Served, answered, serve}
use cdml.Scripts.Cli.Word
use cdml.Scripts.Cli.{Call, decimal, dispatch_call, load_all_nodes}
use cdml.Scripts.Cli.Session.{
  Shown, ended, cmd_balance, cmd_send, cmd_get_tx, cmd_peers, cmd_faucet, status_request,
}

-- the field that loadAPIAddr decodes
pub record ApiConfig : Type 0 where
  pub api_addr : Bytes

-- fmt.Sprintf("%s/node%d/config.json", testnetDir, nodeNum)
abbrev pub config_path : Bytes → ℕ → Bytes
config_path dir num = dir ++ Word.slash_node ++ decimal num ++ Word.slash_config

-- what os.ReadFile gives for a path, and the decoder
pub record Testnet : Type 0 where
  pub config_json : Json ApiConfig
  pub read_file : Bytes → Res Bytes
  pub dir : Bytes

abbrev is_empty : Bytes → Bool
is_empty [] = true
is_empty (_ ∷ _) = false

unfoldable pub load_api_addr : Testnet → ℕ → Res Bytes
load_api_addr net num = do
  data_read ← wrapped (net.read_file (config_path net.dir num))
  cfg ← wrapped (net.config_json.unmarshal data_read)
  fail_if (is_empty cfg.api_addr) (failure 50)
  ok cfg.api_addr

-- `addr, err := loadAPIAddr(...); if err != nil { break }`
abbrev pub found_addr : Testnet → ℕ → Option Bytes
found_addr net num = elim (load_api_addr net num) [ ok addr ↦ some addr | _ ↦ none ]

-- a line of `status`
pub data Row : Type 0 where
  offline : ℕ → Bytes → Row
  online : ℕ → Bytes → Bytes → ℕ → Row

-- a key of more than 16 characters is cut
unfoldable pub short_key : Bytes → Bytes
short_key pub_key =
    if ltb 16 (length pub_key) then take 16 pub_key ++ b'.' ∷ b'.' ∷ b'.' ∷ [] else pub_key

-- the fields of the status; zero values where the answer has none
unfoldable pub row_of : ℕ → Bytes → Res Served → Row
unfolding short_key
row_of num addr (ok (answered (status pub_key peers))) = online num addr (short_key pub_key) peers
row_of num addr (ok _) = online num addr [] 0
row_of num addr _ = offline num addr

pub data Output : Type 0 where
  help fatal : Output
  rows : List Row → Output
  shown : Shown → Output

-- a node that runs, with the key pair it has
pub record Running (lib : NodeLibraries) : Type 0 where
  pub kp : KeyPair
  pub state : Node lib

module _ (lib : NodeLibraries) (bodies : Bodies) (random : Res Bytes) where
  -- what listens, by address
  abbrev pub Servers : Type 0
  Servers = List (Bytes × Running lib)

  -- a conversation with the server at an address; the other ones keep their states
  unfoldable pub at_server :
      {A : Type 0} → A → (KeyPair → Node lib → A × Node lib) → Bytes → Servers → A × Servers
  unfolding Bytes-discrete
  at_server refused talk addr [] = (refused, [])
  at_server refused talk addr ((here, srv) ∷ more) =
      let (a, s') = talk srv.kp srv.state in
      let (b, more') = at_server refused talk addr more in
      ite (Bytes-discrete here addr) (a, (here, record srv { state = s' }) ∷ more)
        (b, (here, srv) ∷ more')

  abbrev pub get_status : ℕ → KeyPair → Node lib → Res Served × Node lib
  get_status now kp = serve lib kp bodies random (status_request bodies) now

  -- the loop of cmdStatus
  unfoldable pub status_rows : List (ℕ × Bytes) → ℕ → Servers → List Row × Servers
  unfolding at_server row_of
  status_rows [] now servers = ([], servers)
  status_rows ((num, addr) ∷ nodes) now servers =
      let (r, servers1) = at_server (err (failure 51)) (get_status now) addr servers in
      let (more, servers') = status_rows nodes now servers1 in (row_of num addr r ∷ more, servers')

  unfoldable pub cmd_status : List (ℕ × Bytes) → ℕ → Servers → Output × Servers
  unfolding status_rows
  cmd_status [] now servers = (fatal, servers)
  cmd_status (n ∷ nodes) now servers =
      let (lines, servers') = status_rows (n ∷ nodes) now servers in (rows lines, servers')

  -- a command that talks to the node of the -node flag
  unfoldable pub talks :
      (KeyPair → ℕ → Node lib → Shown × Node lib) → Bytes → ℕ → Servers → Output × Servers
  unfolding at_server
  talks cmd addr now servers =
      let (a, servers') = at_server ended (λ kp. cmd kp now) addr servers in (shown a, servers')

  -- main, once the address is loaded
  unfoldable pub run_call : Testnet → Bytes → Call → ℕ → Servers → Output × Servers
  unfolding talks cmd_status
  run_call net addr Call.show_status now servers =
      cmd_status (load_all_nodes (found_addr net)) now servers
  run_call net addr Call.print_help now servers = (help, servers)
  run_call net addr Call.fatal now servers = (fatal, servers)
  run_call net addr Call.show_peers now servers =
      talks (λ kp. cmd_peers bodies lib kp random) addr now servers
  run_call net addr (Call.show_balance pk) now servers =
      talks (λ kp. cmd_balance bodies lib kp random pk) addr now servers
  run_call net addr (Call.post_tx req) now servers =
      talks (λ kp. cmd_send bodies lib kp random req) addr now servers
  run_call net addr (Call.show_tx pk seq) now servers =
      talks (λ kp. cmd_get_tx bodies lib kp random pk seq) addr now servers
  run_call net addr (Call.post_faucet req) now servers =
      talks (λ kp. cmd_faucet bodies lib kp random req) addr now servers

  unfoldable pub main : Testnet → ℕ → List Bytes → ℕ → Servers → Output × Servers
  unfolding run_call
  main net num [] now servers = (help, servers)
  main net num (command ∷ args) now servers = elim (load_api_addr net num) [
    | ok addr ↦ run_call net addr (dispatch_call (command ∷ args)) now servers
    | _ ↦ (fatal, servers)
  ]
