-- ===== src/Tests.antt =====
-- The theorems at concrete inputs, component by component.
mod Folders
mod Limiter
mod Certs
mod Caching
mod Stores
mod Jobs
mod Names
mod Issuing
mod Renewing
mod Serving
mod Locking
mod Challenges
mod Loading
mod Maintaining
