-- ===== src/Protocol/Processor/Check.antt =====
-- What a witness's check establishes, what it lets through, and that it accepts what BuildTx builds.
use cdml.Common.{ℕ, ◌+◌, ◌≤◌, ◌<◌, true, false, Option, none, some, ◌≡◌, ◌⊎◌, ◌↔◌, refl, arith}
use cdml.Core.Errors.{ok}
use cdml.Core.Types.{Snapshot, max_amount}
use cdml.Core.Amount.{safe_add, bond_amount}
use cdml.Crypto.Sign.{verify_tx}
use cdml.Storage.Chain.{get_balance, has_balance, get_latest_seq}
use cdml.Storage.Chain.Reads.{get_balance-disk, has_balance-disk, get_latest_seq-disk}
use cdml.Protocol.Processor.World.{Libraries, World}
use cdml.Protocol.Processor.Build.{next_seq}
use cdml.Protocol.Processor.Verify.{VerifyPacket, has_expired, claimed, capped, verify_packet}

module _ (libs : Libraries) (now : ℕ) (w : World libs) where
  open libs use {badger, primitives}

  -- the reads of the check
  pub record CanRead (pkt : VerifyPacket) (latest : ℕ) (stored : Option ℕ) : Type 0 where
    pub seq_read : (get_latest_seq badger pkt.tx.from now w.disk).0 ≡ ok latest
    pub has_read :
        (has_balance badger pkt.tx.from now w.disk).0
        ≡ ok (elim stored [ none ↦ false | some _ ↦ true ])
    pub bal_read :
        (bal : ℕ) → stored ≡ some bal → (get_balance badger pkt.tx.from now w.disk).0 ≡ ok bal

  -- the balance that the check goes by: the stored one, capped by the claimed one where there is a
  -- snapshot; the claimed one where none is stored
  abbrev pub effective : Option Snapshot → Option ℕ → ℕ
  effective snapshot none = claimed snapshot
  effective snapshot (some bal) = capped snapshot bal

  -- The conditions that the check enforces.
  pub record Passes (pkt : VerifyPacket) (latest : ℕ) (stored : Option ℕ) : Type 0 where
    pub fresh : has_expired now pkt.snapshot ≡ false
    pub signed : verify_tx primitives pkt.tx ≡ ok tt
    pub in_sequence : (latest ≡ 0) ⊎ (pkt.tx.sequence ≡ next_seq libs latest)
    pub funded :
        (max_amount < pkt.tx.amount + bond_amount pkt.tx.amount)
        ⊎ (pkt.tx.amount + bond_amount pkt.tx.amount ≤ effective pkt.snapshot stored)

  -- A witness whose store can be read accepts a transaction exactly if the snapshot that came along
  -- has not expired, hash and signature are valid, the sequence follows the latest one unless there
  -- is none, and the amount with its bond is covered, or exceeds the maximum: beyond the maximum the
  -- balance is not looked at.
  pub verify_packet_iff :
      (pkt : VerifyPacket) (latest : ℕ) (stored : Option ℕ)
      → CanRead pkt latest stored
      → (verify_packet libs pkt now w ≡ (ok tt, w)) ↔ Passes pkt latest stored
  unfolding verify_packet safe_add
  verify_packet_iff pkt latest none can = ground (
    arith,
    get_latest_seq-disk badger pkt.tx.from now w.disk,
    has_balance-disk badger pkt.tx.from now w.disk,
  )
  verify_packet_iff pkt latest (some bal) can = ground (
    arith,
    get_latest_seq-disk badger pkt.tx.from now w.disk,
    has_balance-disk badger pkt.tx.from now w.disk,
    get_balance-disk badger pkt.tx.from now w.disk,
    can.bal_read bal refl,
  )
