-- ===== src/Api/Accounts.antt =====
-- The faucet, the balance and the lookup of a transaction.
use cdml.Common.{ℕ, ◌^◌, ◌<◌, Bytes, Bytes-discrete, ite, Option, ◌≡◌, ◌≢◌, inl, inr, arith}
use cdml.Core.Errors.{ok, Res-cases}
use cdml.Core.Types.{PubKey, Transaction, max_amount}
use cdml.Core.Amount.{safe_add}
use cdml.Crypto.KeyPair.{KeyPair, pub_key_from_hex}
use cdml.Protocol.Processor.World.{LibraryLaws, World}
use cdml.Protocol.Processor.Confirm.{AutoSnapshot, confirm_tx, as_confirmed}
use cdml.Protocol.Processor.Transfer.{balance, confirm_tx_recorded}
use cdml.Storage.Chain.{get_balance, save_balance, get_latest_seq}
use cdml.Storage.Chain.Reads.{get_balance-disk}
use cdml.Storage.Chain.Single.{save_balance-BalanceSet}
use cdml.Node.State.{Node, NodeLibraries}
use cdml.Api.{
  account, granted, transaction, FaucetRequest, faucet_amount, parse_uint, handle_balance,
  handle_faucet, handle_get_tx,
}

module _ (lib : NodeLibraries) (kp : KeyPair) (laws : LibraryLaws lib.libs) where
  open lib use {libs}
  open libs use {badger, tx_json}

  -- A faucet request that is granted sets the balance: whatever the account held before, a later
  -- request for its balance, when its sequence can be read, is answered with the amount that was
  -- asked for, or with 10 000 coins if that was 0; and every other balance is as it was. The sum is
  -- not added, and it has no bound below 2 ^ 64.
  pub faucet_sets_balance :
      (req : FaucetRequest) (pk q : PubKey) (now later bal seq : ℕ) (s s' : Node lib)
      → pub_key_from_hex req.pub_key ≡ ok pk
      → req.amount < 2 ^ 64
      → handle_faucet lib kp (ok req) now s
        ≡ (ok (granted req.pub_key (faucet_amount req.amount) bal), s')
      → (get_latest_seq badger pk later s'.world.disk).0 ≡ ok seq
      → (bal ≡ faucet_amount req.amount)
        × ((handle_balance lib kp req.pub_key later s').0
            ≡ ok (account req.pub_key (faucet_amount req.amount) seq))
        × ((get_balance badger q later s'.world.disk).0
            ≡ ite
                (Bytes-discrete q pk)
                (ok (faucet_amount req.amount))
                (get_balance badger q later s.world.disk).0)
  unfolding handle_faucet handle_balance
  faucet_sets_balance req pk q now later bal seq s s' read fits done known =
      let amount = faucet_amount req.amount in
      let (r, d) = save_balance badger pk amount now s.world.disk in
      let small : amount < 2 ^ 64 = ground arith in
      elim (Res-cases r) [
        | inl (_, saved) ↦
            let set =
              save_balance-BalanceSet badger laws.badger_laws pk amount now s.world.disk d small
                (λ i. (saved i, d)) in
            let at : s'.world.disk ≡ d = ground (arith, get_balance-disk badger pk now d) in
            (
              ground (arith, set.balances now pk),
              ground (
                arith,
                at,
                set.balances later pk,
                get_balance-disk badger pk later s'.world.disk,
              ),
              ground (arith, at, set.balances later q),
            )
        | inr (inl (x, saved)) ↦ absurd (ground arith)
        | inr (inr saved) ↦ absurd (ground arith)
      ]

  -- An account that the faucet has filled beyond the maximum can never be paid again: no ConfirmTx
  -- of a transaction to it succeeds.
  pub overfilled_refuses :
      (tx : Transaction) (now recv : ℕ) (w : World libs)
      → balance libs laws w now tx.to ≡ ok recv
      → max_amount < recv
      → (job : Option AutoSnapshot) → (confirm_tx libs tx now w).0 ≢ ok job
  unfolding confirm_tx safe_add
  overfilled_refuses tx now recv w read over job done =
      ground (arith, get_balance-disk badger tx.from now w.disk)

  -- After a ConfirmTx that succeeded, a request for the transaction by the sender's key and the
  -- sequence is answered with the transaction, as confirmed.
  pub get_tx-confirm_tx :
      (tx : Transaction) (now later bal : ℕ) (w w' : World libs) (job : Option AutoSnapshot)
      (s : Node lib) (pk_hex seq_str : Bytes)
      → tx.sequence < 2 ^ 64
      → bal < 2 ^ 64
      → balance libs laws w now tx.from ≡ ok bal
      → confirm_tx libs tx now w ≡ (ok job, w')
      → s.world ≡ w'
      → pub_key_from_hex pk_hex ≡ ok tx.from
      → parse_uint seq_str ≡ ok tx.sequence
      → (handle_get_tx lib kp pk_hex seq_str later s).0 ≡ ok (transaction (as_confirmed tx))
  unfolding handle_get_tx
  get_tx-confirm_tx tx now later bal w w' job s pk_hex seq_str fits small hb done same key number =
      let (stored, _) =
        confirm_tx_recorded libs laws tx now bal w w' job fits small hb done later in
      ground (arith, stored, same)
