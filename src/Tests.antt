-- ===== src/Tests.antt =====
-- Runs of the theorems at concrete inputs, with small in-memory stand-ins for the libraries.
mod Instances
mod Accounts
mod Signatures
mod Graphs
mod Packets
mod Stores
mod Checks
mod Transfers
mod Cluster
mod Nodes
mod Peers
mod Apis
mod Daemons
mod Connections
mod Terminals
mod Conflicts
mod Clients
mod Ledgers
mod Sessions
mod Reads
