-- ===== src/Api.antt =====
-- api/handler.go: the handlers of the HTTP interface, over the state of the node. A decoded request
-- body or path value is an argument; a reply is its status and what is encoded into it, without the
-- text of an error's message.
pub mod Keys
pub mod Accounts
pub mod Witnesses
pub mod Server
use cdml.Common.{
  ℕ, zero, suc, ◌+◌, ◌-◌, ◌*◌, ◌/◌, ◌%◌, ◌^◌, ◌==◌, ◌&&◌, Bool, true, false, if◌then◌else◌, ltb,
  leb, Bytes, length, List, [], ◌∷◌, map, Option, none, some,
}
use cdml.Core.Errors.{Res, ok, err, panic, failure}
use cdml.Core.Types.{PubKey, Hash32, Amount, Transaction, Snapshot, Witness}
use cdml.Exec.{Exec, pure, lift, or_else, ◌>>=◌, ◌>>◌}
use cdml.Crypto.KeyPair.{KeyPair, pub_key_from_hex}
use cdml.Protocol.Processor.World.{World, on_disk, snapshot_ttl}
use cdml.Storage.Chain.{get_balance, save_balance, get_latest_seq, get_tx}
use cdml.Storage.Snapshots.{save_snapshot, get_active_witnesses, save_active_witnesses}
use cdml.Network.Peer.{Peer}
use cdml.Node.State.{Node, NodeLibraries, on_world, reads, peer_at}
use cdml.Node.Handlers.{send_tx}

-- the statuses and codes of httpErr
pub data Status : Type 0 where
  bad_request not_found internal_server_error : Status

pub data Code : Type 0 where
  invalid_request invalid_pubkey db_error tx_failed invalid_seq tx_not_found : Code

pub data Reply : Type 0 where
  failed : Status → Code → Reply
  healthy : Reply
  status : Bytes → ℕ → Reply
  account : Bytes → Amount → ℕ → Reply
  accepted : Bytes → ℕ → ℕ → Reply  -- 202
  transaction : Transaction → Reply
  peers : List (Bytes × Bytes) → Reply
  granted : Bytes → Amount → Amount → Reply
  active : List Witness → Reply
  snapshot : Snapshot → Reply
  registered : ℕ → Reply

-- the bodies of the requests, as decoded
pub record SendTxRequest : Type 0 where
  pub to : Bytes
  pub amount : Amount

pub record FaucetRequest : Type 0 where
  pub pub_key : Bytes
  pub amount : Amount

pub record WitnessRequest : Type 0 where
  pub pub_key : Bytes
  pub addr : Bytes

-- fmt.Sprintf("%x", bs)
unfoldable pub hex_digit : ℕ → ℕ
hex_digit d = if ltb d 10 then b'0' + d else b'a' + (d - 10)

unfoldable pub hex_encode : Bytes → Bytes
unfolding hex_digit
hex_encode [] = []
hex_encode (b ∷ bs) = hex_digit (b / 16) ∷ hex_digit (b % 16) ∷ hex_encode bs

-- strconv.ParseUint(s, 10, 64): one digit or more, and a value below 2 ^ 64
unfoldable pub digits_value : ℕ → Bytes → Option ℕ
digits_value acc [] = some acc
digits_value acc (c ∷ cs) =
    let rest = digits_value (acc * 10 + (c - b'0')) cs in
    if leb b'0' c && leb c b'9' then rest else none

unfoldable pub parse_uint : Bytes → Res ℕ
unfolding digits_value
parse_uint [] = err (failure 40)
parse_uint (c ∷ cs) = elim (digits_value 0 (c ∷ cs)) [
  | none ↦ err (failure 40)
  | some n ↦ if ltb n (2 ^ 64) then ok n else err (failure 41)
]

-- `if err != nil { httpErr(...); return }`
abbrev pub or_reply : {S A : Type 0} → Status → Code → Exec S A → (A → Exec S Reply) → Exec S Reply
or_reply s c m f now st =
    let (r, st') = m now st in
    elim r [ ok a ↦ f a now st' | err _ ↦ (ok (failed s c), st') | panic ↦ (panic, st') ]

-- the amount that a request for none is given
abbrev pub faucet_amount : Amount → Amount
faucet_amount amount = if amount == 0 then 10_000 * 1_000_000 else amount

-- the loop of RegisterWitnesses: the first key that is not valid ends it
unfoldable pub read_witnesses : ℕ → List WitnessRequest → Res (List Witness)
read_witnesses now [] = ok []
read_witnesses now (r ∷ raw) =
    let rest = read_witnesses now raw in
    elim (pub_key_from_hex r.pub_key) [
      | err e ↦ err e
      | panic ↦ panic
      | ok pk ↦ elim rest [
        | ok ws ↦ ok ((record { pub_key = pk; addr = r.addr; added_at = now }) ∷ ws)
        | err e ↦ err e
        | panic ↦ panic
      ]
    ]

-- the entries of PeerList: the key in hexadecimal, and the address
unfoldable pub peer_list : List Peer → List (PubKey × ℕ) → List (Bytes × Bytes)
unfolding peer_at hex_encode
peer_list conns [] = []
peer_list conns ((_, i) ∷ rest) = elim (peer_at i conns) [
  | none ↦ peer_list conns rest
  | some p ↦ (hex_encode p.pub_key, p.addr) ∷ peer_list conns rest
]

module _ (lib : NodeLibraries) (kp : KeyPair) where
  open lib use {libs}
  open libs use {badger, tx_json, snapshot_json, witness_json}

  abbrev pub handle_healthz : Exec (Node lib) Reply
  handle_healthz = pure healthy

  unfoldable pub handle_status : Exec (Node lib) Reply
  unfolding hex_encode
  handle_status = reads lib (λ s. status (hex_encode kp.public) (length s.peers))

  unfoldable pub handle_balance : Bytes → Exec (Node lib) Reply
  handle_balance pk_hex =
      or_reply bad_request invalid_pubkey (lift (pub_key_from_hex pk_hex)) (λ pk.
        or_reply internal_server_error db_error
          (on_world lib (on_disk libs (get_balance badger pk)))
          (λ bal. do
            seq ← or_else 0 (on_world lib (on_disk libs (get_latest_seq badger pk)))
            pure (account pk_hex bal seq)))

  unfoldable pub handle_send_tx : Res SendTxRequest → Res Bytes → Exec (Node lib) Reply
  unfolding hex_encode
  handle_send_tx body random = or_reply bad_request invalid_request (lift body) (λ req.
      or_reply bad_request invalid_pubkey (lift (pub_key_from_hex req.to)) (λ to.
        or_reply bad_request tx_failed (send_tx lib kp to req.amount random)
          (λ tx. pure (accepted (hex_encode tx.hash) tx.sequence tx.nonce))))

  unfoldable pub handle_get_tx : Bytes → Bytes → Exec (Node lib) Reply
  unfolding parse_uint
  handle_get_tx pk_hex seq_str =
      or_reply bad_request invalid_pubkey (lift (pub_key_from_hex pk_hex)) (λ pk.
        or_reply bad_request invalid_seq (lift (parse_uint seq_str)) (λ seq.
          or_reply not_found tx_not_found
            (on_world lib (on_disk libs (get_tx badger tx_json pk seq)))
            (λ found. elim found [
              | none ↦ pure (failed not_found tx_not_found)
              | some tx ↦ pure (transaction tx)
            ])))

  unfoldable pub handle_peers : Exec (Node lib) Reply
  unfolding peer_list
  handle_peers = reads lib (λ s. peers (peer_list s.conns s.peers))

  unfoldable pub handle_faucet : Res FaucetRequest → Exec (Node lib) Reply
  handle_faucet body = or_reply bad_request invalid_request (lift body) (λ req.
      or_reply bad_request invalid_pubkey (lift (pub_key_from_hex req.pub_key)) (λ pk.
        or_reply internal_server_error db_error
          (on_world lib (on_disk libs (save_balance badger pk (faucet_amount req.amount))))
          (λ _. do
            bal ← or_else 0 (on_world lib (on_disk libs (get_balance badger pk)))
            pure (granted req.pub_key (faucet_amount req.amount) bal))))

  unfoldable pub handle_active_witnesses : Exec (Node lib) Reply
  handle_active_witnesses =
      or_reply internal_server_error db_error
        (on_world lib (on_disk libs (get_active_witnesses badger witness_json)))
        (λ witnesses. pure (active witnesses))

  -- the snapshot of CreateSnapshot, which has no tips
  unfoldable pub handle_create_snapshot : Exec (Node lib) Reply
  handle_create_snapshot now =
      (do
        bal ← or_else 0 (on_world lib (on_disk libs (get_balance badger kp.public)))
        seq ← or_else 0 (on_world lib (on_disk libs (get_latest_seq badger kp.public)))
        let snap : Snapshot = record {
          pub_key = kp.public;
          sequence = seq;
          balance = bal;
          dag_tips = [];
          created_at = now;
          expires_at = now + snapshot_ttl;
        }
        or_reply internal_server_error db_error
            (on_world lib (on_disk libs (save_snapshot badger snapshot_json snap)))
            (λ _. pure (snapshot snap)))
        now

  unfoldable pub handle_register_witnesses : Res (List WitnessRequest) → Exec (Node lib) Reply
  unfolding read_witnesses
  handle_register_witnesses body now =
      or_reply bad_request invalid_request (lift body)
        (λ raw. or_reply bad_request invalid_pubkey (lift (read_witnesses now raw)) (λ witnesses.
          or_reply internal_server_error db_error
            (on_world lib (on_disk libs (save_active_witnesses badger witness_json witnesses)))
            (λ _. pure (registered (length witnesses)))))
        now
