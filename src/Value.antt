-- ===== src/Value.antt =====
-- The values of a `Record` (database.go): `map[string]any` with the dynamic types that the core
-- schema stores. A value nested in a `map[string]any` or a `[]any` is a scalar here.
-- An instant is the number of nanoseconds since Go's zero time, so 0 is `time.Time{}`; all are in UTC.
-- A number is a whole one: int, int64, float32 and float64 are told apart as Go's `any` does.
pub mod Equality
mod Types
unfoldable pub use Types.*
