-- ===== src/Store.antt =====
-- store.go: the operations of the server on its database. The adapter is the one of adapter/memory, with the core
-- schema's names, so that the mapping layers between the two (schema_adapter.go, database_hooks.go) change nothing.
pub mod Types
pub mod Records
pub mod Queries
pub mod Sessions
pub mod Users
pub mod Accounts
pub mod Tokens
pub mod Invariant
pub mod Core
pub mod Revocation
pub mod Rotation
pub mod SingleUse
pub mod TokenUses
pub mod History
pub mod Code
mod Tests
pub mod Deletion
pub mod SignOut
pub mod RoundTrips
pub mod Authentication
pub mod Failure
pub mod Expiry
pub mod LastAccount
