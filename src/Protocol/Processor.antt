-- ===== src/Protocol/Processor.antt =====
-- internal/protocol/transaction.go: TxProcessor, over the stored state and the DAG of one node. Each
-- method runs at one instant of the clock; the value of rand.Read is an argument.
pub mod World
pub mod Build
pub mod Verify
pub mod Confirm
pub mod Steps
pub mod Success
pub mod Edgeless
pub mod Built
pub mod Check
pub mod Credit
pub mod Race
pub mod Atomic
pub mod Transfer
