-- ===== src/Scripts/Cli/Reach.antt =====
-- The requests of the commands reach the handlers that they are meant for.
use cdml.Common.{ℕ, ◌&&◌, ◌||◌, leb, Bool, true, Bytes, [], ◌∷◌, ◌++◌, ◌≡◌, ◌≢◌, refl, arith}
use cdml.Core.Errors.{Res, ok}
use cdml.Exec.{Exec}
use cdml.Json.{JsonLaws}
use cdml.Crypto.KeyPair.{KeyPair}
use cdml.Node.State.{Node, NodeLibraries}
use cdml.Api.{
  SendTxRequest, FaucetRequest, handle_balance, handle_send_tx, handle_get_tx, handle_peers,
  handle_status, handle_faucet,
}
use cdml.Api.Server.{
  Bodies, Request, Served, segments, resource, is_clean, answers, on_get, on_post, mux, serve,
}
use cdml.Scripts.Cli.Session.{
  balance_request, send_request, tx_request, peers_request, status_request, faucet_request,
}

-- a hexadecimal digit
abbrev pub is_hex : ℕ → Bool
is_hex c = (leb b'0' c && leb c b'9') || (leb b'a' c && leb c b'f') || (leb b'A' c && leb c b'F')

-- a text of hexadecimal digits, and not the empty one
abbrev pub all_hex : Bytes → Bool
all_hex [] = true
all_hex (c ∷ cs) = is_hex c && all_hex cs

pub record IsHex (text : Bytes) : Type 0 where
  pub filled : text ≢ []
  pub digits : all_hex text ≡ true

segments-hex : (cs : Bytes) → all_hex cs ≡ true → segments cs ≡ cs ∷ []
unfolding segments
segments-hex [] h = refl
segments-hex (c ∷ cs) h = ground (arith, segments-hex cs)

segments-hex_then :
    (cs rest : Bytes) → all_hex cs ≡ true → segments (cs ++ b'/' ∷ rest) ≡ cs ∷ segments rest
unfolding segments
segments-hex_then [] rest h = refl
segments-hex_then (c ∷ cs) rest h = ground (arith, segments-hex_then cs rest)

module _ (lib : NodeLibraries) (kp : KeyPair) (bodies : Bodies) (random : Res Bytes) where
  abbrev pub served : Request → Exec (Node lib) Served
  served = serve lib kp bodies random

  pub balance-reaches :
      (pk : Bytes) (now : ℕ) (s : Node lib)
      → IsHex pk
      → served (balance_request bodies pk) now s
        ≡ answers lib kp bodies (handle_balance lib kp pk) now s
  unfolding serve mux on_get balance_request segments resource is_clean
  balance-reaches [] now s hex = absurd (hex.filled refl)
  balance-reaches (c ∷ cs) now s hex = ground (arith, segments-hex (c ∷ cs) hex.digits, hex.digits)

  tx-reaches :
      (pk seq : Bytes) (now : ℕ) (s : Node lib)
      → IsHex pk
      → IsHex seq
      → served (tx_request bodies pk seq) now s
        ≡ answers lib kp bodies (handle_get_tx lib kp pk seq) now s
  unfolding serve mux on_get tx_request segments resource is_clean
  tx-reaches [] seq now s hex number = absurd (hex.filled refl)
  tx-reaches (c ∷ cs) [] now s hex number = absurd (number.filled refl)
  tx-reaches (c ∷ cs) (d ∷ ds) now s hex number = ground (
    arith,
    segments-hex_then (c ∷ cs) (d ∷ ds) hex.digits,
    segments-hex (d ∷ ds) number.digits,
    hex.digits,
    number.digits,
  )

  send-reaches :
      (req : SendTxRequest) (bs : Bytes) (now : ℕ) (s : Node lib)
      → JsonLaws bodies.send_tx_json
      → bodies.send_tx_json.marshal req ≡ ok bs
      → served (send_request bodies req) now s
        ≡ answers lib kp bodies (handle_send_tx lib kp (ok req) random) now s
  unfolding serve mux on_post send_request segments resource is_clean
  send-reaches req bs now s coded e = ground (arith, coded.unmarshal-marshal req bs e)

  pub faucet-reaches :
      (req : FaucetRequest) (bs : Bytes) (now : ℕ) (s : Node lib)
      → JsonLaws bodies.faucet_json
      → bodies.faucet_json.marshal req ≡ ok bs
      → served (faucet_request bodies req) now s
        ≡ answers lib kp bodies (handle_faucet lib kp (ok req)) now s
  unfolding serve mux on_post faucet_request segments resource is_clean
  faucet-reaches req bs now s coded e = ground (arith, coded.unmarshal-marshal req bs e)

  peers-reaches :
      (now : ℕ) (s : Node lib)
      → served (peers_request bodies) now s ≡ answers lib kp bodies (handle_peers lib kp) now s
  unfolding serve mux on_get peers_request segments resource is_clean
  peers-reaches now s = ground arith

  status-reaches :
      (now : ℕ) (s : Node lib)
      → served (status_request bodies) now s ≡ answers lib kp bodies (handle_status lib kp) now s
  unfolding serve mux on_get status_request segments resource is_clean
  status-reaches now s = ground arith

  -- what the handlers answer to the requests of the commands
  pub record Reached (pk seq : Bytes) (send : SendTxRequest) (give : FaucetRequest) (now : ℕ)
      (s : Node lib) : Type 0 where
    pub balance :
        served (balance_request bodies pk) now s
        ≡ answers lib kp bodies (handle_balance lib kp pk) now s
    pub tx :
        served (tx_request bodies pk seq) now s
        ≡ answers lib kp bodies (handle_get_tx lib kp pk seq) now s
    pub sending :
        served (send_request bodies send) now s
        ≡ answers lib kp bodies (handle_send_tx lib kp (ok send) random) now s
    pub faucet :
        served (faucet_request bodies give) now s
        ≡ answers lib kp bodies (handle_faucet lib kp (ok give)) now s
    pub status :
        served (status_request bodies) now s ≡ answers lib kp bodies (handle_status lib kp) now s
    pub peers :
        served (peers_request bodies) now s ≡ answers lib kp bodies (handle_peers lib kp) now s

  -- Every request of the command line client reaches the handler that it is meant for, with the key,
  -- the sequence or the body that the command was given: for a key and a sequence that are texts of
  -- hexadecimal digits, and bodies that can be encoded, the paths that the client builds and the
  -- routes of the server agree.
  pub commands_reach :
      (pk seq : Bytes) (send : SendTxRequest) (give : FaucetRequest) (sent given : Bytes) (now : ℕ)
      (s : Node lib)
      → IsHex pk
      → IsHex seq
      → JsonLaws bodies.send_tx_json
      → JsonLaws bodies.faucet_json
      → bodies.send_tx_json.marshal send ≡ ok sent
      → bodies.faucet_json.marshal give ≡ ok given
      → Reached pk seq send give now s
  commands_reach pk seq send give sent given now s hex number send_coded give_coded e f = record {
    balance = balance-reaches pk now s hex;
    tx = tx-reaches pk seq now s hex number;
    sending = send-reaches send sent now s send_coded e;
    faucet = faucet-reaches give given now s give_coded f;
    status = status-reaches now s;
    peers = peers-reaches now s;
  }
