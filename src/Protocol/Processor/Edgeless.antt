-- ===== src/Protocol/Processor/Edgeless.antt =====
-- The processor never puts an edge into a DAG that has none, unless a transaction brings parents.
use cdml.Common.{ℕ, [], ◌≡◌, arith, Bytes}
use cdml.Core.Errors.{Res, ok}
use cdml.Core.Types.{PubKey, Amount, Transaction}
use cdml.Crypto.KeyPair.{KeyPair}
use cdml.Crypto.Sign.{sign_tx}
use cdml.Protocol.Dag.{advance_tip, current_tips}
use cdml.Protocol.Processor.World.{Libraries, World}
use cdml.Protocol.Processor.Build.{build_tx}
use cdml.Protocol.Processor.Verify.{VerifyPacket, verify_packet}
use cdml.Protocol.Processor.Confirm.{
  AutoSnapshot, confirm_tx, apply_confirmed_tx_balance, auto_snapshot,
}

module _ (libs : Libraries) where
  -- the calls that leave the DAG alone
  pub verify_packet-edges :
      (pkt : VerifyPacket) (now : ℕ) (w : World libs)
      → (verify_packet libs pkt now w).1.edges ≡ w.edges
  unfolding verify_packet
  verify_packet-edges pkt now w = ground arith

  pub apply_confirmed-edges :
      (tx : Transaction) (now : ℕ) (w : World libs)
      → (apply_confirmed_tx_balance libs tx now w).1.edges ≡ w.edges
  unfolding apply_confirmed_tx_balance
  apply_confirmed-edges tx now w = ground arith

  pub auto_snapshot-edges :
      (job : AutoSnapshot) (now : ℕ) (w : World libs)
      → (auto_snapshot libs job now w).1.edges ≡ w.edges
  unfolding auto_snapshot
  auto_snapshot-edges job now w = ground arith

  pub build_tx-edges :
      (kp : KeyPair) (to : PubKey) (amount : Amount) (random : Res Bytes) (now : ℕ) (w : World libs)
      → (build_tx libs kp to amount random now w).1.edges ≡ w.edges
  unfolding build_tx
  build_tx-edges kp to amount random now w = ground arith

  -- The parents of a transaction that BuildTx returns are the tips.
  pub build_tx-parents :
      (kp : KeyPair) (to : PubKey) (amount : Amount) (random : Res Bytes) (now : ℕ) (w : World libs)
      (tx : Transaction)
      → (build_tx libs kp to amount random now w).0 ≡ ok tx
      → tx.parent_hashes ≡ current_tips w.edges
  unfolding build_tx sign_tx
  build_tx-parents kp to amount random now w tx h = ground arith

  -- ConfirmTx of a transaction without parents
  pub confirm_tx-edges :
      (tx : Transaction) (now : ℕ) (w : World libs)
      → tx.parent_hashes ≡ []
      → (confirm_tx libs tx now w).1.edges ≡ w.edges
  unfolding confirm_tx advance_tip
  confirm_tx-edges tx now w none_there = ground arith
