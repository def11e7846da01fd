-- ===== src/Config.antt =====
-- config.go, with the storing of certificates in crypto.go: obtaining, renewing and revoking.
pub mod Csr
pub mod Resources
pub mod Stored
pub mod Issuing
pub mod Obtain
pub mod Obtained
pub mod Results
pub mod Jobs
pub mod Repeated
pub mod Renew
pub mod Renewed
pub mod Revoke
pub mod Managed
pub mod Cached
