-- ===== src/Storage.antt =====
-- internal/storage: the wrapper of the database and the four stores on top of it.
pub mod Badger
pub mod Keys
pub mod Db
pub mod Chain
pub mod NonceLock
pub mod Snapshots
