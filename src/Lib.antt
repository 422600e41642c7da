-- ===== src/Lib.antt =====
-- CDML, a ledger whose transactions are confirmed by the signatures of witnesses: a model of the
-- program's core, and the theorems that make it correct.
--
-- The program. A node keeps its accounts in a Badger database (internal/storage): balances,
-- sequence numbers, confirmed transactions, marks of applied transactions, the pool of fees,
-- snapshots, the list of witnesses and short-lived nonce locks. A transaction is built and signed by
-- its sender (internal/protocol/transaction.go, internal/crypto), checked and signed by witnesses,
-- and, once a quorum has signed, confirmed: the processor debits and credits, records the transaction
-- in a DAG (internal/protocol/dag.go), writes the balances, the sequence and the record in one database
-- transaction, and then adds the fee to the pool. Messages spread by gossip
-- (internal/network/gossip.go).
--
-- The files.
--   Common: shared names, list lemmas, byte strings and the big-endian encoding of uint64.
--   Core: internal/core; Errors, Types (types.go, constants.go), Amount (amount.go).
--   Exec: a call that reads the clock, changes a state and returns a value, an error or panics.
--   Json: encoding/json as a parameter.
--   Storage: internal/storage; Badger (the database as a parameter), Keys (the keys of chain.go and
--     snapshot.go), Db (db.go with Open; Scan has HasPrefix and ScanPrefix),
--     Chain (chain.go: GetBalance is get_balance, ConfirmTxBatch is confirm_tx_batch, and so on), Snapshots and NonceLock (snapshot.go).
--   Crypto: internal/crypto; Primitives (BLAKE2b and Ed25519 as a parameter), Hash (hash.go), KeyPair
--     (keypair.go), Sign (sign.go).
--   Protocol: internal/protocol; Dag (dag.go), and Processor (transaction.go): World is the state,
--     Build has BuildTx and the nonce locks, Verify has VerifyTx (verify_packet), Confirm has
--     ConfirmTx, ApplyConfirmedTxBalance and autoSnapshot, and Race has ConfirmTx in two parts, its reads
--     and its writes. Ledger is the abstract view: a book of balances and marks, the calls that move
--     money, and the turns that a call may take in the book.
--   Network: internal/network; Gossip (gossip.go), Framing (Encode and ReadPacket of packet.go, over
--     a connection that is a parameter), Peer (the state and the queue of a peer, packet.go), and
--     Handshake (handleInbound and connectToSeed of node/node.go, up to the new peer).
--   Node: node/node.go; State (Node and its state after New, the messages, broadcast), Start (New with its
--     key and its database, and Start), Handlers (handlePacket and the handlers, confirmTx, SendTx), Mutex
--     (addPeer, removePeer and Stop with n.mu written out), System (a step relation over all of these,
--     and the states that it reaches), Collecting (the handlers of the signatures of one transaction,
--     interleaved step by step), Reading (readLoop), Connections (acceptLoop, handleInbound,
--     connectToSeed, readLoop, and StartWritePump and Close of packet.go, as goroutines whose steps come
--     in any order), Links and Conflict (what no handler changes, and what a witness does with two
--     payments that exclude each other); Config has LoadConfig and loadOrCreateKey of node/config.go, over
--     a file system that is a parameter.
--   Api: api/handler.go, each handler as a function of the decoded request and the node; Server
--     (api/server.go: the routes, cors, and the handler that a request reaches).
--   Daemon: cmd/cdml/main.go, main up to the wait for a signal (boot) and after it (shut_down).
--   Scripts: scripts; Cli (cli/main.go: the dispatch of the arguments, loadAllNodes, microToCDML; in
--     Session the requests of the commands and what they show of the answers; in Terminal loadAPIAddr, main
--     and cmdStatus, over the servers that listen), and Localnet
--     (localnet/setup.go: Setup, and localnet/init.go: Init; addresses, seeds and witnesses).
--   Tests: the theorems at concrete inputs, with a database in memory.
-- The children of a component hold its proofs.
--
-- How the code is modelled. Numbers are natural numbers, with the wrap-around of uint64 written out
-- where it can happen; a fixed array is the list of its bytes, and the sizes are hypotheses where a
-- theorem needs them; time is in nanoseconds and the instant of a call is an argument, one for the
-- whole call. A function that returns an error returns ok, err or panic; what a deferred or dropped
-- error does is written out. A Go map is the list of its entries; a mutex makes a method one step. A
-- handler of a packet runs as one step (in NonceLock/Race, Processor/Race, Node/Collecting and
-- Node/Connections a call is cut where it holds no mutex instead), and a goroutine that it starts (confirmTx, autoSnapshot) is an
-- entry of a list of tasks, which run later in any order; in Node/Mutex the mutex n.mu is a flag
-- instead, and a call that waits for it for ever is stuck; in Node/Connections it is a goroutine that
-- makes no progress while the flag is set. A pointer to a peer is its place in the list
-- of the peers that the node has ever had.
--
-- Bounds and fuel. The search for a cycle in the DAG is recursion on the levels of depth that are
-- left, 201 at first, as the code's own limit has it, so it needs no fuel. Depth has no limit in the
-- code: depth_from has fuel, one more than there are nodes. The printing of a number has 20 digits,
-- enough for a uint64. The read loop has no end of its own: read_loop makes a given number of rounds, one
-- for each packet, and so does the loop of ScanPrefix, one more than there are entries.
--
-- Not modelled: the pauses of connectToSeed, and the interleaving of
-- handlers other than those named above; the listener, the time limits and the log of the HTTP server, and
-- the redirects of its mux beyond that they are made; flags and signals; the texts that the scripts print,
-- and the batch scripts that setup.go writes; Close of the database
-- wrapper. Badger, BLAKE2b, Ed25519, JSON, the connection and the file systems are parameters, whose laws
-- are records (BadgerLaws, IteratorLaws, PrimitivesLaws, JsonLaws, ConnectionLaws, KeyFileLaws,
-- FilesLaws); no law excludes a failure of the database or a collision of hashes, and where a result needs
-- a database that accepts its writes it says so (IsHealthy).
pub mod Common
pub mod Core
pub mod Exec
pub mod Json
pub mod Storage
pub mod Crypto
pub mod Daemon
pub mod Protocol
pub mod Scripts
pub mod Network
pub mod Node
pub mod Api
pub mod Tests
