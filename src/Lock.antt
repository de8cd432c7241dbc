-- ===== src/Lock.antt =====
-- go-lock.go: a lock that several machines share over a redis server.
pub mod Redis
pub mod Config
pub mod Calls
pub mod Owner
pub mod Renewal
pub mod Nodes
pub mod Backoff
mod Tests
