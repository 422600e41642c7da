-- ===== src/Protocol.antt =====
-- internal/protocol: the DAG of transactions and the transaction processor.
pub mod Dag
pub mod Processor
pub mod Ledger
