-- ===== src/Protocol/Processor/Verify.antt =====
-- TxProcessor.VerifyTx, the check of a witness.
use cdml.Common.{
  ℕ, Bool, true, false, not, ◌&&◌, ltb, ◌==◌, if◌then◌else◌, Option, none, some, List,
}
use cdml.Core.Errors.{wrap, fail_if, snapshot_expired, tx_invalid_sequence, tx_insufficient_bal}
use cdml.Core.Types.{PubKey, Hash32, Amount, Transaction, Snapshot, is_expired}
use cdml.Core.Amount.{safe_add, bond_amount}
use cdml.Exec.{Exec, pure, lift, or_else, ◌>>=◌, ◌>>◌}
use cdml.Crypto.Sign.{verify_tx}
use cdml.Storage.Chain.{get_balance, has_balance, get_latest_seq}
use cdml.Protocol.Processor.World.{Libraries, World, on_disk}
use cdml.Protocol.Processor.Build.{next_seq}

pub record VerifyPacket : Type 0 where
  pub tx : Transaction
  pub snapshot : Option Snapshot
  pub known_tips : List Hash32

-- `pkt.Snapshot != nil && pkt.Snapshot.IsExpired()`
abbrev pub has_expired : ℕ → Option Snapshot → Bool
has_expired now none = false
has_expired now (some s) = is_expired now s

-- the balance that a snapshot claims, 0 without one
abbrev pub claimed : Option Snapshot → Amount
claimed none = 0
claimed (some s) = s.balance

-- the smaller of the stored and the claimed balance; without a snapshot the stored one
abbrev pub capped : Option Snapshot → Amount → Amount
capped none db_bal = db_bal
capped (some s) db_bal = if ltb db_bal s.balance then db_bal else s.balance

module _ (libs : Libraries) where
  open libs use {badger, primitives}

  unfoldable pub effective_balance : Option Snapshot → PubKey → Exec (World libs) Amount
  effective_balance snapshot from = do
    has ← on_disk libs (has_balance badger from)
    elim has [
      | true ↦ do db_bal ← on_disk libs (get_balance badger from); pure (capped snapshot db_bal)
      | false ↦ pure (claimed snapshot)
    ]

  -- The error of SafeAdd is dropped: then `needed` is 0.
  unfoldable pub verify_packet : VerifyPacket → Exec (World libs) (Unit {0})
  unfolding effective_balance
  verify_packet pkt = do
    (λ now. lift (fail_if (has_expired now pkt.snapshot) (wrap snapshot_expired)) now)
    lift (verify_tx primitives pkt.tx)
    chain_seq ← on_disk libs (get_latest_seq badger pkt.tx.from)
    lift (
        fail_if (ltb 0 chain_seq && not (pkt.tx.sequence == next_seq libs chain_seq))
          (wrap tx_invalid_sequence))
    effective_bal ← effective_balance pkt.snapshot pkt.tx.from
    needed ← or_else 0 (lift (safe_add pkt.tx.amount (bond_amount pkt.tx.amount)))
    lift (fail_if (ltb effective_bal needed) tx_insufficient_bal)
