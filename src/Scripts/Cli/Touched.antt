-- ===== src/Scripts/Cli/Touched.antt =====
-- The node that a command of the client changes.
use cdml.Common.{ℕ, Bool, true, false, Bytes, List, [], ◌∷◌, ◌≡◌, ◌≢◌, refl, ap, arith, inl, inr}
use cdml.Common.Maps.{lookup}
use cdml.Core.Errors.{Res, ok, Res-cases}
use cdml.Crypto.KeyPair.{KeyPair}
use cdml.Node.State.{Node, NodeLibraries}
use cdml.Api.Server.{Bodies}
use cdml.Api.Server.Safe.{serve_safe}
use cdml.Scripts.Cli.Word
use cdml.Scripts.Cli.{Call, dispatch_call, load_all_nodes}
use cdml.Scripts.Cli.Session.{
  Shown, ended, balance_request, tx_request, peers_request, cmd_balance, cmd_get_tx, cmd_peers,
  cmd_send, cmd_faucet,
}
use cdml.Scripts.Cli.Terminal.{
  Testnet, Servers, found_addr, load_api_addr, at_server, talks, cmd_status, run_call, main,
}
use cdml.Scripts.Cli.Rows.{status_rows-servers, at_server-other}

abbrev is_read : Call → Bool
is_read (Call.post_tx _) = false
is_read (Call.post_faucet _) = false
is_read _ = true

dispatch_call-is_read :
    (command : Bytes) (args : List Bytes)
    → command ≢ Word.send
    → command ≢ Word.faucet
    → is_read (dispatch_call (command ∷ args)) ≡ true
unfolding dispatch_call
dispatch_call-is_read command args not_send not_faucet = ground arith

module _ (lib : NodeLibraries) (bodies : Bodies) (random : Res Bytes) where
  cmd_status-servers :
      (nodes : List (ℕ × Bytes)) (now : ℕ) (servers : Servers lib bodies random)
      → (cmd_status lib bodies random nodes now servers).1 ≡ servers
  unfolding cmd_status
  cmd_status-servers [] now servers = refl
  cmd_status-servers (n ∷ nodes) now servers =
      status_rows-servers lib bodies random (n ∷ nodes) now servers

  talks-other :
      (cmd : KeyPair → ℕ → Node lib → Shown × Node lib) (addr other : Bytes) (now : ℕ)
      (servers : Servers lib bodies random)
      → other ≢ addr
      → lookup other (talks lib bodies random cmd addr now servers).1 ≡ lookup other servers
  unfolding talks
  talks-other cmd addr other now servers ne =
      at_server-other lib bodies random ended (λ kp. cmd kp now) addr other servers ne

  run_call-other :
      (net : Testnet) (addr other : Bytes) (call : Call) (now : ℕ)
      (servers : Servers lib bodies random)
      → other ≢ addr
      → lookup other (run_call lib bodies random net addr call now servers).1 ≡ lookup other servers
  unfolding run_call
  run_call-other net addr other Call.show_status now servers ne =
      ap (lookup other) (cmd_status-servers (load_all_nodes (found_addr net)) now servers)
  run_call-other net addr other Call.print_help now servers ne = refl
  run_call-other net addr other Call.fatal now servers ne = refl
  run_call-other net addr other Call.show_peers now servers ne =
      talks-other (λ kp. cmd_peers bodies lib kp random) addr other now servers ne
  run_call-other net addr other (Call.show_balance pk) now servers ne =
      talks-other (λ kp. cmd_balance bodies lib kp random pk) addr other now servers ne
  run_call-other net addr other (Call.post_tx req) now servers ne =
      talks-other (λ kp. cmd_send bodies lib kp random req) addr other now servers ne
  run_call-other net addr other (Call.show_tx pk seq) now servers ne =
      talks-other (λ kp. cmd_get_tx bodies lib kp random pk seq) addr other now servers ne
  run_call-other net addr other (Call.post_faucet req) now servers ne =
      talks-other (λ kp. cmd_faucet bodies lib kp random req) addr other now servers ne

  -- A command changes no node but the one at the address that the client has loaded for the number of
  -- its -node flag, whatever the command is and whether or not it succeeds.
  pub main-other :
      (net : Testnet) (num : ℕ) (args : List Bytes) (other : Bytes) (now : ℕ)
      (servers : Servers lib bodies random)
      → load_api_addr net num ≢ ok other
      → lookup other (main lib bodies random net num args now servers).1 ≡ lookup other servers
  unfolding main
  main-other net num [] other now servers ne = refl
  main-other net num (command ∷ args) other now servers ne =
      elim (Res-cases (load_api_addr net num)) [
        | inl (addr, e) ↦ ground (
          arith,
          run_call-other net addr other (dispatch_call (command ∷ args)) now servers
              (λ same. ne (ground arith)),
        )
        | inr (inl (x, e)) ↦ ground arith
        | inr (inr e) ↦ ground arith
      ]

  at_server-same :
      {A : Type 0} (refused : A) (talk : KeyPair → Node lib → A × Node lib) (addr : Bytes)
      (servers : Servers lib bodies random)
      → ((kp : KeyPair) (s : Node lib) → (talk kp s).1 ≡ s)
      → (at_server lib bodies random refused talk addr servers).1 ≡ servers
  unfolding at_server
  at_server-same refused talk addr [] quiet = refl
  at_server-same refused talk addr ((here, srv) ∷ more) quiet =
      ground (arith, quiet srv.kp srv.state, at_server-same refused talk addr more quiet)

  talks-same :
      (cmd : KeyPair → ℕ → Node lib → Shown × Node lib) (addr : Bytes) (now : ℕ)
      (servers : Servers lib bodies random)
      → ((kp : KeyPair) (s : Node lib) → (cmd kp now s).1 ≡ s)
      → (talks lib bodies random cmd addr now servers).1 ≡ servers
  unfolding talks
  talks-same cmd addr now servers quiet =
      at_server-same ended (λ kp. cmd kp now) addr servers (λ kp s. quiet kp s)

  cmd_balance-same :
      (pk : Bytes) (kp : KeyPair) (now : ℕ) (s : Node lib)
      → (cmd_balance bodies lib kp random pk now s).1 ≡ s
  unfolding cmd_balance balance_request
  cmd_balance-same pk kp now s =
      serve_safe lib kp bodies random (balance_request bodies pk) now s (λ e. cc)

  cmd_get_tx-same :
      (pk seq : Bytes) (kp : KeyPair) (now : ℕ) (s : Node lib)
      → (cmd_get_tx bodies lib kp random pk seq now s).1 ≡ s
  unfolding cmd_get_tx tx_request
  cmd_get_tx-same pk seq kp now s =
      serve_safe lib kp bodies random (tx_request bodies pk seq) now s (λ e. cc)

  cmd_peers-same :
      (kp : KeyPair) (now : ℕ) (s : Node lib) → (cmd_peers bodies lib kp random now s).1 ≡ s
  unfolding cmd_peers peers_request
  cmd_peers-same kp now s = serve_safe lib kp bodies random (peers_request bodies) now s (λ e. cc)

  run_call-same :
      (net : Testnet) (addr : Bytes) (call : Call) (now : ℕ) (servers : Servers lib bodies random)
      → is_read call ≡ true
      → (run_call lib bodies random net addr call now servers).1 ≡ servers
  unfolding run_call
  run_call-same net addr Call.show_status now servers r =
      cmd_status-servers (load_all_nodes (found_addr net)) now servers
  run_call-same net addr Call.print_help now servers r = refl
  run_call-same net addr Call.fatal now servers r = refl
  run_call-same net addr Call.show_peers now servers r =
      talks-same (λ kp. cmd_peers bodies lib kp random) addr now servers
        (λ kp s. cmd_peers-same kp now s)
  run_call-same net addr (Call.show_balance pk) now servers r =
      talks-same (λ kp. cmd_balance bodies lib kp random pk) addr now servers
        (λ kp s. cmd_balance-same pk kp now s)
  run_call-same net addr (Call.post_tx req) now servers r = cc
  run_call-same net addr (Call.show_tx pk seq) now servers r =
      talks-same (λ kp. cmd_get_tx bodies lib kp random pk seq) addr now servers
        (λ kp s. cmd_get_tx-same pk seq kp now s)
  run_call-same net addr (Call.post_faucet req) now servers r = cc

  -- Only `send` and `faucet` change anything: after any other command every node is as it was.
  pub main-same :
      (net : Testnet) (num : ℕ) (command : Bytes) (args : List Bytes) (now : ℕ)
      (servers : Servers lib bodies random)
      → command ≢ Word.send
      → command ≢ Word.faucet
      → (main lib bodies random net num (command ∷ args) now servers).1 ≡ servers
  unfolding main
  main-same net num command args now servers not_send not_faucet =
      elim (Res-cases (load_api_addr net num)) [
        | inl (addr, e) ↦ ground (
          arith,
          run_call-same net addr (dispatch_call (command ∷ args)) now servers
              (dispatch_call-is_read command args not_send not_faucet),
        )
        | inr (inl (x, e)) ↦ ground arith
        | inr (inr e) ↦ ground arith
      ]
