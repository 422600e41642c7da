-- ===== src/Scripts/Cli/Rows.antt =====
-- What `status` shows, and which nodes a command changes.
use cdml.Common.{
  ℕ, zero, suc, ◌+◌, ◌*◌, ◌≤◌, Bytes, Bytes-discrete, length, take, List, [], ◌∷◌, ◌++◌, none, some,
  ◌≡◌, ◌≢◌, ◌⊎◌, inl, inr, refl, arith,
}
use cdml.Common.Maps.{lookup}
use cdml.Core.Errors.{Res, ok, err, failure, Res-cases}
use cdml.Crypto.KeyPair.{KeyPair}
use cdml.Node.State.{Node, NodeLibraries}
use cdml.Api.{status, hex_encode, handle_status}
use cdml.Api.Server.{Bodies, Served, answered, serve, mux, on_get, segments, resource, is_clean}
use cdml.Scripts.Cli.Word
use cdml.Scripts.Cli.{dispatch_call, load_nodes, load_all_nodes}
use cdml.Scripts.Cli.Session.{status_request}
use cdml.Scripts.Cli.Terminal.{
  Testnet, Row, offline, online, Running, Servers, Output, fatal, rows, load_api_addr, found_addr,
  short_key, row_of, at_server, get_status, status_rows, cmd_status, run_call, main,
}

length-hex_encode : (bs : Bytes) → length (hex_encode bs) ≡ 2 * length bs
unfolding hex_encode
length-hex_encode [] = refl
length-hex_encode (b ∷ bs) = ground (arith, length-hex_encode bs)

-- the addresses that the configurations from number i on name, up to the first number without one or
-- to number 20
abbrev pub AreConfigured : Testnet → ℕ → List Bytes → Type 0
AreConfigured net i [] = (i ≡ 21) ⊎ ((a : Bytes) → load_api_addr net i ≢ ok a)
AreConfigured net i (a ∷ addrs) =
    (i ≤ 20) × (load_api_addr net i ≡ ok a) × AreConfigured net (suc i) addrs

module _ (lib : NodeLibraries) where
  -- the line of a node: what the server at its address has, where one listens
  abbrev pub line_of : List (Bytes × Running lib) → ℕ → Bytes → Row
  line_of servers num addr = elim (lookup addr servers) [
    | none ↦ offline num addr
    | some srv ↦
        online num addr (take 16 (hex_encode srv.kp.public) ++ b'.' ∷ b'.' ∷ b'.' ∷ [])
          (length srv.state.peers)
  ]

  -- the lines of the nodes at these addresses, the first with number i
  abbrev pub lines_from : List (Bytes × Running lib) → ℕ → List Bytes → List Row
  lines_from servers i [] = []
  lines_from servers i (a ∷ addrs) = line_of servers i a ∷ lines_from servers (suc i) addrs

  -- what `status` shows of the nodes at these addresses
  abbrev pub report : List (Bytes × Running lib) → List Bytes → Output
  report servers [] = fatal
  report servers (a ∷ addrs) = rows (lines_from servers 1 (a ∷ addrs))

  -- every server has a public key of 32 bytes
  abbrev pub HaveKeys : List (Bytes × Running lib) → Type 0
  HaveKeys servers =
      (addr : Bytes) (srv : Running lib)
      → lookup addr servers ≡ some srv
      → length srv.kp.public ≡ 32

  module _ (bodies : Bodies) (random : Res Bytes) where
    get_status-eq :
        (now : ℕ) (kp : KeyPair) (s : Node lib)
        → get_status lib bodies random now kp s
          ≡ (ok (answered (status (hex_encode kp.public) (length s.peers))), s)
    unfolding serve mux on_get status_request segments resource is_clean handle_status
    get_status-eq now kp s = refl

    abbrev ask_status :
        Bytes → ℕ → Servers lib bodies random → Res Served × Servers lib bodies random
    ask_status addr now =
        at_server lib bodies random (err (failure 51)) (get_status lib bodies random now) addr

    short_key-cut :
        (kp : KeyPair)
        → length kp.public ≡ 32
        → short_key (hex_encode kp.public)
          ≡ take 16 (hex_encode kp.public) ++ b'.' ∷ b'.' ∷ b'.' ∷ []
    unfolding short_key
    short_key-cut kp size = ground (arith, length-hex_encode kp.public)

    asked :
        (num : ℕ) (addr : Bytes) (now : ℕ) (servers : Servers lib bodies random)
        → ((srv : Running lib) → lookup addr servers ≡ some srv → length srv.kp.public ≡ 32)
        → (row_of num addr (ask_status addr now servers).0 ≡ line_of servers num addr)
          × ((ask_status addr now servers).1 ≡ servers)
    unfolding at_server row_of lookup
    asked num addr now [] size = (refl, refl)
    asked num addr now ((here, srv) ∷ more) size = elim (Bytes-discrete here addr) [
      | yes e ↦ ground (
        arith,
        get_status-eq now srv.kp srv.state,
        short_key-cut srv.kp (size srv (ground arith)),
      )
      | no e ↦ ground (arith, asked num addr now more (λ other f. size other (ground arith)))
    ]

    unchanged :
        (addr : Bytes) (now : ℕ) (servers : Servers lib bodies random)
        → (ask_status addr now servers).1 ≡ servers
    unfolding at_server
    unchanged addr now [] = refl
    unchanged addr now ((here, srv) ∷ more) = elim (Bytes-discrete here addr) [
      | yes e ↦ ground (arith, get_status-eq now srv.kp srv.state)
      | no e ↦ ground (arith, unchanged addr now more)
    ]

    pub status_rows-servers :
        (nodes : List (ℕ × Bytes)) (now : ℕ) (servers : Servers lib bodies random)
        → (status_rows lib bodies random nodes now servers).1 ≡ servers
    unfolding status_rows
    status_rows-servers [] now servers = refl
    status_rows-servers ((num, addr) ∷ nodes) now servers =
        ground (arith, unchanged addr now servers, status_rows-servers nodes now servers)

    status_rows-line_of :
        (net : Testnet) (left i : ℕ) (addrs : List Bytes) (now : ℕ)
        (servers : Servers lib bodies random)
        → i + left ≡ 21
        → HaveKeys servers
        → AreConfigured net i addrs
        → status_rows lib bodies random (load_nodes (found_addr net) left i) now servers
          ≡ (lines_from servers i addrs, servers)
    unfolding status_rows load_nodes
    status_rows-line_of net zero i [] now servers e sizes found = refl
    status_rows-line_of net zero i (a ∷ addrs) now servers e sizes (low, here, more) =
        absurd (omega arith)
    status_rows-line_of net (suc left) i [] now servers e sizes (inl f) = absurd (omega arith)
    status_rows-line_of net (suc left) i [] now servers e sizes (inr stops) =
        elim (Res-cases (load_api_addr net i)) [
          | inl (a, f) ↦ absurd (stops a f)
          | inr (inl (x, f)) ↦ ground arith
          | inr (inr f) ↦ ground arith
        ]
    status_rows-line_of net (suc left) i (a ∷ addrs) now servers e sizes (low, here, more) =
        ground (
          arith,
          asked i a now servers (sizes a),
          status_rows-line_of net left (suc i) addrs now servers (omega arith) sizes more,
        )

    cmd_status-report :
        (net : Testnet) (addrs : List Bytes) (now : ℕ) (servers : Servers lib bodies random)
        → HaveKeys servers
        → AreConfigured net 1 addrs
        → cmd_status lib bodies random (load_all_nodes (found_addr net)) now servers
          ≡ (report servers addrs, servers)
    unfolding cmd_status load_all_nodes load_nodes
    cmd_status-report net [] now servers sizes (inl f) = absurd (omega arith)
    cmd_status-report net [] now servers sizes (inr stops) =
        elim (Res-cases (load_api_addr net 1)) [
          | inl (a, f) ↦ absurd (stops a f)
          | inr (inl (x, f)) ↦ ground arith
          | inr (inr f) ↦ ground arith
        ]
    cmd_status-report net (a ∷ addrs) now servers sizes found =
        let lines = status_rows-line_of net 20 1 (a ∷ addrs) now servers refl sizes found in
        ground (arith, lines, found.1)

    -- The command `status`, on a client whose own node has an address, shows the nodes that have a
    -- configuration with an address, numbered from 1 without a gap, at most 20: each with its address,
    -- and where a server with a key of 32 bytes listens there with the first 16 characters of the key
    -- in hexadecimal, three dots, and the number of the peers of the node behind it. It ends with an
    -- error where number 1 has none, and changes no node.
    pub main-status :
        (net : Testnet) (num : ℕ) (addr : Bytes) (addrs args : List Bytes) (now : ℕ)
        (servers : Servers lib bodies random)
        → load_api_addr net num ≡ ok addr
        → HaveKeys servers
        → AreConfigured net 1 addrs
        → main lib bodies random net num (Word.status ∷ args) now servers
          ≡ (report servers addrs, servers)
    unfolding main run_call dispatch_call
    main-status net num addr addrs args now servers e sizes found =
        ground (arith, cmd_status-report net addrs now servers sizes found)

    pub at_server-other :
        {A : Type 0} (refused : A) (talk : KeyPair → Node lib → A × Node lib) (addr other : Bytes)
        (servers : Servers lib bodies random)
        → other ≢ addr
        → lookup other (at_server lib bodies random refused talk addr servers).1
          ≡ lookup other servers
    unfolding at_server lookup
    at_server-other refused talk addr other [] ne = refl
    at_server-other refused talk addr other ((here, srv) ∷ more) ne =
        ground (arith, at_server-other refused talk addr other more ne)
