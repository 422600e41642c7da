-- ===== src/Node.antt =====
-- node: the configuration, and the node that ties the stores, the processor and the network together.
pub mod Start
pub mod Config
pub mod Connections
pub mod State
pub mod Mutex
pub mod Handlers
pub mod Effects
pub mod System
pub mod Quorum
pub mod Collecting
pub mod Conflict
pub mod Payment
pub mod Reading
pub mod Links
pub mod Witness
