-- ===== src/Solvers.antt =====
-- solvers.go: the solver of DNS challenges with its memory of records, the solver that shares
-- challenge tokens through the storage, and the challenges and servers that are active.
pub mod Memory
pub mod Dns01
pub mod Shared
pub mod Active
pub mod Found
pub mod Counts
pub mod Waiting
