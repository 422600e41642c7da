-- ===== src/Scripts/Localnet/Init.antt =====
-- scripts/localnet/init.go: main, from the configurations that were loaded: it asks every node for its key,
-- has every node's faucet fill the node's own account, registers all the nodes as witnesses with every
-- node, and reads the balances. Whether a connection holds is a parameter.
use cdml.Common.{
  ℕ, zero, suc, ◌*◌, Bool, if◌then◌else◌, Bytes, List, [], ◌∷◌, ◌++◌, map, Option, none, some,
}
use cdml.Core.Errors.{Res, ok, err, panic, failure}
use cdml.Crypto.KeyPair.{KeyPair}
use cdml.Node.State.{Node, NodeLibraries}
use cdml.Api.{status, WitnessRequest}
use cdml.Api.Server.{Method, Bodies, Request, Served, answered, serve}
use cdml.Api.Server.Word
use cdml.Scripts.Cli.Session.{status_request, balance_request, faucet_request, fields, payload}

-- initialBalance
abbrev pub initial_balance : ℕ
initial_balance = 10_000 * 1_000_000

-- whether the connection holds: at each attempt to read the status, and for the two posts and the
-- last read
pub record Line : Type 0 where
  pub attempt : ℕ → Bool
  pub faucet : Bool
  pub register : Bool
  pub balance : Bool

-- a node of the network, and its entry in the configurations
pub record Site (lib : NodeLibraries) : Type 0 where
  pub kp : KeyPair
  pub p2p_addr : Bytes
  pub line : Line
  pub state : Node lib

-- the key of a status; the zero value if there is none
unfoldable pub reported : Served → Bytes
reported (answered (status pub_key n)) = pub_key
reported _ = []

module _ (lib : NodeLibraries) (bodies : Bodies) where
  -- a request to the node, where the connection holds
  abbrev pub ask : Bool → Request → ℕ → Site lib → Res Served × Site lib
  ask up req now site =
      let (r, s) = serve lib site.kp bodies (err (failure 50)) req now site.state in
      if up then (r, record site { state = s }) else (err (failure 51), site)

  -- the loop over the attempts, with `left` of them to make
  unfoldable pub key_of : ℕ → ℕ → ℕ → Site lib → Option Bytes
  unfolding reported
  key_of zero attempt now site = none
  key_of (suc left) attempt now site =
      let rest = key_of left (suc attempt) now site in
      elim (ask (site.line.attempt attempt) (status_request bodies) now site).0 [
        | ok served ↦ some (reported served)
        | err _ ↦ rest
        | panic ↦ rest
      ]

  -- a node that does not answer ends the program
  unfoldable pub keys_of : ℕ → List (Site lib) → Option (List Bytes)
  unfolding key_of
  keys_of now [] = some []
  keys_of now (site ∷ sites) =
      let rest = keys_of now sites in
      elim (key_of 10 0 now site) [
        | none ↦ none
        | some key ↦ elim rest [ none ↦ none | some keys ↦ some (key ∷ keys) ]
      ]

  unfoldable pub give_all : ℕ → List (Site lib) → List Bytes → List (Site lib)
  give_all now (site ∷ sites) (key ∷ keys) =
      let req = faucet_request bodies (record { pub_key = key; amount = initial_balance }) in
      (ask site.line.faucet req now site).1 ∷ give_all now sites keys
  give_all now sites _ = sites

  -- the witnesses: each key with the address of its configuration
  unfoldable pub witnesses_of : List (Site lib) → List Bytes → List WitnessRequest
  witnesses_of (site ∷ sites) (key ∷ keys) =
      (record { pub_key = key; addr = site.p2p_addr }) ∷ witnesses_of sites keys
  witnesses_of _ _ = []

  unfoldable pub register_request : List WitnessRequest → Request
  register_request witnesses = record {
    method = Method.post;
    path = b'/' ∷ (Word.v1 ++ b'/' ∷ (Word.witness ++ b'/' ∷ Word.register));
    body = payload bodies (bodies.witnesses_json.marshal witnesses);
  }

  -- each node with what it answered
  unfoldable pub register_all :
      List WitnessRequest → ℕ → List (Site lib) → List (Res Served × Site lib)
  unfolding register_request
  register_all witnesses now [] = []
  register_all witnesses now (site ∷ sites) =
      ask site.line.register (register_request witnesses) now site
      ∷ register_all witnesses now sites

  -- what the last part prints as the balance of a key
  unfoldable pub balance_of : Res Served → ℕ
  unfolding fields
  balance_of (ok served) = (fields served).balance
  balance_of _ = 0

  unfoldable pub balances_of : ℕ → List (Site lib) → List Bytes → List ℕ
  unfolding balance_of
  balances_of now (site ∷ sites) (key ∷ keys) =
      balance_of (ask site.line.balance (balance_request bodies key) now site).0
      ∷ balances_of now sites keys
  balances_of now _ _ = []

  pub record Finished : Type 0 where
    pub answers : List (Res Served × Site lib)
    pub balances : List ℕ

  -- main, each part at its instant
  unfoldable pub init : ℕ → ℕ → ℕ → ℕ → List (Site lib) → Option Finished
  unfolding keys_of give_all witnesses_of register_all balances_of
  init t1 t2 t3 t4 [] = none
  init t1 t2 t3 t4 (first ∷ others) =
      let sites = first ∷ others in
      elim (keys_of t1 sites) [
        | none ↦ none
        | some keys ↦
            let given = give_all t2 sites keys in
            let answers = register_all (witnesses_of given keys) t3 given in
            some (record {
              answers = answers;
              balances = balances_of t4 (map (λ (a : Res Served × Site lib). a.1) answers) keys;
            })
      ]
