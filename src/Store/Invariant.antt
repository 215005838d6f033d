-- ===== src/Store/Invariant.antt =====
-- Every operation of the store keeps the tables well formed.
pub mod Rules
pub mod Sessions
pub mod Users
pub mod Accounts
pub mod Tokens
