-- ===== src/Scripts.antt =====
-- scripts: the command line client, and the set-up of a local network.
pub mod Cli
pub mod Localnet
