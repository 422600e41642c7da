-- ===== src/Protocol/Processor/Build.antt =====
-- TxProcessor.BuildTx, and the nonce locks.
use cdml.Common.{ℕ, ◌+◌, ◌%◌, Bytes, copy_into, List, [], some, ltb}
use cdml.Core.Errors.{Res, fail_if, tx_insufficient_bal}
use cdml.Core.Types.{PubKey, Hash32, Amount, Transaction, pending}
use cdml.Core.Amount.{safe_add, validate_amount, bond_amount, uint64_mod}
use cdml.Exec.{Exec, lift, or_else, wrapped, ◌>>=◌, ◌>>◌}
use cdml.Crypto.KeyPair.{KeyPair}
use cdml.Crypto.Sign.{sign_tx}
use cdml.Storage.Chain.{number, get_balance, get_latest_seq}
use cdml.Storage.NonceLock
use cdml.Protocol.Dag.{current_tips}
use cdml.Protocol.Processor.World.{Libraries, World, on_disk, gets}

-- the transaction before it is signed: the fields that are not named have their zero value
abbrev pub unsigned_tx : ℕ → ℕ → PubKey → PubKey → Amount → List Hash32 → ℕ → Transaction
unsigned_tx seq nonce from to amount tips now = record {
  hash = [];
  sequence = seq;
  nonce = nonce;
  from = from;
  to = to;
  amount = amount;
  sender_sig = [];
  parent_hashes = tips;
  witness_sigs = [];
  created_at = now;
  status = pending;
}

module _ (libs : Libraries) where
  open libs use {badger, primitives}

  -- the sequence number after the sender's latest, as a uint64
  abbrev pub next_seq : ℕ → ℕ
  next_seq latest = (latest + 1) % uint64_mod

  unfoldable pub build_tx : KeyPair → PubKey → Amount → Res Bytes → Exec (World libs) Transaction
  build_tx kp to amount random = do
    lift (validate_amount amount)
    bal ← wrapped (on_disk libs (get_balance badger kp.public))
    needed ← lift (safe_add amount (bond_amount amount))
    lift (fail_if (ltb bal needed) tx_insufficient_bal)
    latest ← on_disk libs (get_latest_seq badger kp.public)
    nonce_buf ← lift random
    nonce ← lift (number (some (copy_into 8 nonce_buf)))
    tips ← gets libs (λ w. current_tips w.edges)
    λ now.
        lift
          (sign_tx primitives kp (unsigned_tx (next_seq latest) nonce kp.public to amount tips now))
          now

  unfoldable pub acquire_nonce_lock : Transaction → Exec (World libs) (Unit {0})
  acquire_nonce_lock tx = on_disk libs (NonceLock.lock badger tx.from tx.nonce)

  unfoldable pub release_nonce_lock : Transaction → Exec (World libs) (Unit {0})
  release_nonce_lock tx = or_else tt (on_disk libs (NonceLock.unlock badger tx.from tx.nonce))
