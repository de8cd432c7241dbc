-- ===== src/Json.antt =====
-- jsonUtil.go: the encoder with its cache of encodings.
pub mod Cache
pub mod Accounts
pub mod History
pub mod Value
pub mod Encoding
pub mod Errors
pub mod Commas
pub mod Marshal
pub mod Room
pub mod Refusals
pub mod Again
mod Tests
