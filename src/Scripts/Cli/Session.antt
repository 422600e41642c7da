-- ===== src/Scripts/Cli/Session.antt =====
-- scripts/cli/main.go: the requests of the commands, and what they show of the answers. An answer is what
-- the server has served; the decoding of its JSON leaves a field that is not there at zero.
use cdml.Common.{ℕ, Bytes, List, [], ◌∷◌, ◌++◌, length}
use cdml.Core.Errors.{Res, ok}
use cdml.Crypto.KeyPair.{KeyPair}
use cdml.Node.State.{Node, NodeLibraries}
use cdml.Api.{Code, failed, account, accepted, peers, granted, SendTxRequest, FaucetRequest}
use cdml.Api.Server.{Method, Bodies, Request, Served, answered, serve}
use cdml.Api.Server.Word

-- what a command ends with; `ended` is fatalf
pub data Shown : Type 0 where
  ended : Shown
  ended_with : Code → Shown
  balance_line : Bytes → ℕ → ℕ → Shown
  sent_line : Bytes → ℕ → Shown
  tx_text : Served → Shown
  peer_lines : ℕ → List (Bytes × Bytes) → Shown
  faucet_done : ℕ → ℕ → Shown

-- the fields that the commands decode
pub record Fields : Type 0 where
  pub amount : ℕ
  pub balance : ℕ
  pub seq : ℕ
  pub tx_hash : Bytes
  pub listed : List (Bytes × Bytes)

abbrev pub no_fields : Fields
no_fields = record { amount = 0; balance = 0; seq = 0; tx_hash = []; listed = [] }

-- the fields of the reply to each of the requests
unfoldable pub fields : Served → Fields
fields (answered (account pub_key bal seq)) = record no_fields { balance = bal; seq = seq }
fields (answered (granted pub_key amount bal)) = record no_fields { amount = amount; balance = bal }
fields (answered (accepted hash seq nonce)) = record no_fields { tx_hash = hash; seq = seq }
fields (answered (peers listed)) = record no_fields { listed = listed }
fields _ = no_fields

-- what `get` and `post` return; an error of theirs is fatal
unfoldable pub show_balance_of : Bytes → Res Served → Shown
unfolding fields
show_balance_of pub_key (ok served) =
    balance_line pub_key (fields served).balance (fields served).seq
show_balance_of pub_key _ = ended

unfoldable pub show_sent : Res Served → Shown
unfolding fields
show_sent (ok (answered (failed _ code))) = ended_with code
show_sent (ok served) = sent_line (fields served).tx_hash (fields served).seq
show_sent _ = ended

unfoldable pub show_faucet : Res Served → Shown
unfolding fields
show_faucet (ok served) = faucet_done (fields served).amount (fields served).balance
show_faucet _ = ended

unfoldable pub show_listed : Res Served → Shown
unfolding fields
show_listed (ok served) = peer_lines (length (fields served).listed) (fields served).listed
show_listed _ = ended

abbrev pub show_found : Res Served → Shown
show_found (ok served) = tx_text served
show_found _ = ended

-- a path of segments
abbrev under_v1 : Bytes → Bytes
under_v1 rest = b'/' ∷ (Word.v1 ++ b'/' ∷ rest)

module _ (bodies : Bodies) where
  -- `data, _ := json.Marshal(payload)`
  abbrev pub payload : Res Bytes → Bytes
  payload r = elim r [ ok bs ↦ bs | _ ↦ [] ]

  abbrev get : Bytes → Request
  get path = record { method = Method.get; path = path; body = [] }

  abbrev post : Bytes → Res Bytes → Request
  post path body = record { method = Method.post; path = path; body = payload body }

  unfoldable pub balance_request : Bytes → Request
  balance_request pub_key = get (under_v1 (Word.balance ++ b'/' ∷ pub_key))

  unfoldable pub send_request : SendTxRequest → Request
  send_request req = post (under_v1 Word.tx) (bodies.send_tx_json.marshal req)

  unfoldable pub tx_request : Bytes → Bytes → Request
  tx_request pub_key seq = get (under_v1 (Word.tx ++ b'/' ∷ (pub_key ++ b'/' ∷ seq)))

  unfoldable pub peers_request : Request
  peers_request = get (under_v1 Word.peers)

  unfoldable pub faucet_request : FaucetRequest → Request
  faucet_request req = post (under_v1 Word.faucet) (bodies.faucet_json.marshal req)

  unfoldable pub status_request : Request
  status_request = get (under_v1 Word.status)

  -- a request on its way to the server of a node, where the connection holds
  module _ (lib : NodeLibraries) (kp : KeyPair) (random : Res Bytes) where
    unfoldable pub cmd_balance : Bytes → ℕ → Node lib → Shown × Node lib
    cmd_balance pub_key now s =
        let (r, s') = serve lib kp bodies random (balance_request pub_key) now s in
        (show_balance_of pub_key r, s')

    -- the status is asked for first, for the line that names the sender
    unfoldable pub cmd_send : SendTxRequest → ℕ → Node lib → Shown × Node lib
    cmd_send req now s =
        let (_, s1) = serve lib kp bodies random status_request now s in
        let (r, s') = serve lib kp bodies random (send_request req) now s1 in (show_sent r, s')

    unfoldable pub cmd_get_tx : Bytes → Bytes → ℕ → Node lib → Shown × Node lib
    cmd_get_tx pub_key seq now s =
        let (r, s') = serve lib kp bodies random (tx_request pub_key seq) now s in
        (show_found r, s')

    unfoldable pub cmd_peers : ℕ → Node lib → Shown × Node lib
    cmd_peers now s =
        let (r, s') = serve lib kp bodies random peers_request now s in (show_listed r, s')

    unfoldable pub cmd_faucet : FaucetRequest → ℕ → Node lib → Shown × Node lib
    cmd_faucet req now s =
        let (r, s') = serve lib kp bodies random (faucet_request req) now s in (show_faucet r, s')
