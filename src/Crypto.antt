-- ===== src/Crypto.antt =====
-- internal/crypto: hashes, keys and signatures, and the quorum of witness signatures.
pub mod Primitives
pub mod Hash
pub mod KeyPair
pub mod Sign
