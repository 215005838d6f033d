-- ===== src/Memory.antt =====
-- adapter/memory/memory.go
pub mod Rules
pub mod Match
pub mod Table
pub mod Methods
pub mod WellFormed
pub mod Invariant
pub mod Removal
pub mod Increment
pub mod Transactions
pub mod Effects
pub mod Outcomes
pub mod Bulk
pub mod Semantics
mod Tests
pub mod Untouched
pub mod Each
pub mod History
pub mod Code
pub mod Reads
