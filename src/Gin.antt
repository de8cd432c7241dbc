-- ===== src/Gin.antt =====
-- gin/: the router's context, its chain of handlers, the groups of routes and the trees of nodes.
pub mod Maps
pub mod Context
pub mod Keys
pub mod Chain
pub mod Queries
pub mod Dicts
pub mod Proxies
pub mod Routes
pub mod Registered
pub mod Setup
pub mod Requests
pub mod Decisions
mod Tests
mod Decided
