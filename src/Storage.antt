-- ===== src/Storage.antt =====
-- storage.go: the keys of stored assets, transactional stores, and the locks that a process holds.
pub mod Keys
pub mod Safe
pub mod Parts
pub mod Paths
pub mod Apart
pub mod Backend
pub mod Store
pub mod Locks
