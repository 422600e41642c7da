-- ===== src/Scripts/Cli/Answers.antt =====
-- What the commands show of what the server has done.
use cdml.Common.{ℕ, ◌^◌, ◌<◌, Bytes, ◌≡◌, ◌≢◌, inl, inr, arith}
use cdml.Core.Errors.{Res, ok, Res-cases}
use cdml.Json.{JsonLaws}
use cdml.Crypto.KeyPair.{KeyPair, pub_key_from_hex}
use cdml.Protocol.Processor.World.{LibraryLaws}
use cdml.Storage.Chain.{save_balance, get_balance, get_latest_seq}
use cdml.Storage.Chain.Reads.{get_balance-disk}
use cdml.Node.State.{Node, NodeLibraries}
use cdml.Api.{Status, Code, failed, granted, FaucetRequest, faucet_amount, handle_faucet}
use cdml.Api.Accounts.{faucet_sets_balance}
use cdml.Api.Server.{Bodies}
use cdml.Scripts.Cli.Session.{
  faucet_done, balance_line, fields, show_faucet, show_balance_of, cmd_faucet, cmd_balance,
}
use cdml.Scripts.Cli.Reach.{IsHex, faucet-reaches, balance-reaches}

module _ (lib : NodeLibraries) (kp : KeyPair) (bodies : Bodies) (random : Res Bytes)
    (coded : JsonLaws bodies.faucet_json) where
  open lib use {libs}
  open libs use {badger}

  -- A faucet request that the server has refused is shown as done, with nothing given and nothing
  -- held: the command does not look at the code of the answer, as `send` does.
  pub cmd_faucet_hides_refusal :
      (req : FaucetRequest) (bs : Bytes) (now : ℕ) (s s' : Node lib) (st : Status) (code : Code)
      → bodies.faucet_json.marshal req ≡ ok bs
      → handle_faucet lib kp (ok req) now s ≡ (ok (failed st code), s')
      → cmd_faucet bodies lib kp random req now s ≡ (faucet_done 0 0, s')
  unfolding cmd_faucet show_faucet fields
  cmd_faucet_hides_refusal req bs now s s' st code e refused =
      ground (arith, faucet-reaches lib kp bodies random req bs now s coded e)

  module _ (req : FaucetRequest) (bs : Bytes) (now amount bal : ℕ) (s s' : Node lib)
      (e : bodies.faucet_json.marshal req ≡ ok bs)
      (shown : cmd_faucet bodies lib kp random req now s ≡ (faucet_done amount bal, s'))
      (some_given : amount ≢ 0) where
    faucet_granted :
        (amount ≡ faucet_amount req.amount)
        × (handle_faucet lib kp (ok req) now s
            ≡ (ok (granted req.pub_key (faucet_amount req.amount) bal), s'))
    unfolding cmd_faucet show_faucet fields handle_faucet
    faucet_granted =
        let reached = faucet-reaches lib kp bodies random req bs now s coded e in
        elim (Res-cases (pub_key_from_hex req.pub_key)) [
          | inl (pk, h) ↦
              let (r, d) = save_balance badger pk (faucet_amount req.amount) now s.world.disk in
              let readable = get_balance-disk badger pk now d in
              elim (Res-cases r) [
                | inl (_, w) ↦ elim (Res-cases (get_balance badger pk now d).0) [
                  | inl (b, g) ↦ ground arith
                  | inr (inl (x, g)) ↦ ground arith
                  | inr (inr g) ↦ ground arith
                ]
                | inr (inl (x, w)) ↦ absurd (ground arith)
                | inr (inr w) ↦ absurd (ground arith)
              ]
          | inr (inl (x, h)) ↦ absurd (ground arith)
          | inr (inr h) ↦ absurd (ground arith)
        ]

  -- From the terminal to the database and back: after a `faucet` command that shows a sum other than 0
  -- as given, the sum is the one that was asked for, or the default where that was 0, and a later
  -- `balance` command for the same key, on a node whose sequence can be read, shows that sum.
  pub cmd_balance-cmd_faucet :
      (laws : LibraryLaws libs) (req : FaucetRequest) (bs pk : Bytes) (now later amount bal seq : ℕ)
      (s s' : Node lib)
      → pub_key_from_hex req.pub_key ≡ ok pk
      → IsHex req.pub_key
      → req.amount < 2 ^ 64
      → bodies.faucet_json.marshal req ≡ ok bs
      → cmd_faucet bodies lib kp random req now s ≡ (faucet_done amount bal, s')
      → amount ≢ 0
      → (get_latest_seq badger pk later s'.world.disk).0 ≡ ok seq
      → (amount ≡ faucet_amount req.amount)
        × (bal ≡ amount)
        × ((cmd_balance bodies lib kp random req.pub_key later s').0
            ≡ balance_line req.pub_key amount seq)
  unfolding cmd_balance show_balance_of fields
  cmd_balance-cmd_faucet laws req bs pk now later amount bal seq s s' key hex fits e shown given
        known =
      let (same, done) = faucet_granted req bs now amount bal s s' e shown given in
      let (held, answer, _) =
        faucet_sets_balance lib kp laws req pk pk now later bal seq s s' key fits done known in
      (
        same,
        ground arith,
        ground (arith, balance-reaches lib kp bodies random req.pub_key later s' hex),
      )
