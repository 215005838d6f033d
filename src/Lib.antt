-- ===== src/Lib.antt =====
-- better-auth-go: the database store of the authentication server, on the memory adapter, its two-factor plugin, the
-- adapter that maps schema names, and the outbox.
--
-- The server keeps its users, sessions, accounts and one-time tokens in a database that it reaches
-- through one interface, `DatabaseAdapter` (database.go). `databaseStore` (store.go, with
-- account_identity.go) is the server's layer of operations on it: sign-up, sessions and their rotation,
-- password changes, one-time tokens, OAuth accounts. The adapter modelled here is adapter/memory/memory.go,
-- configured with the core schema (schema.go). A handler calls one store operation, which makes one or
-- several adapter calls, in a transaction where they must happen together.
--
-- The two-factor plugin (plugin/twofactor) works on the same adapter, under a schema that MergeSchema (schema.go)
-- makes of the core schema and its own. A password sign-in of a user with a second factor is turned into a challenge,
-- which is two verification records: the pending one, redeemed once, and the one that counts attempts, which a
-- request takes away and puts back with a higher count.
--
-- The files and the code that they are about:
--   Value          the values of a record (`map[string]any`), and `reflect.DeepEqual` on them
--   Action         a Go function that changes a store and returns a value or an error
--   Database       database.go: queries, predicates, `ValidateWhere`
--   Schema         schema.go: the types of a schema and `CoreSchema`; Merge: `MergeSchema`
--   Decimal        fmt.Sprintf with %0*d and strconv.ParseUint, which the one-time codes go through
--   Memory         adapter/memory/memory.go. Rules: `rulesFromSchema`; Match: `matches`, `match`, `compare`,
--                  `project`; Table: the stored rows, `ensureModel`, `conflicts`; Methods: the adapter's methods;
--                  Transactions: `Transaction`, `mutateValue`, `readValue`
--   Scopes         oauth_scopes.go: `mergeOAuthScopes`
--   Store          store.go and account_identity.go. Types: types.go and ports.go; Records: the conversions between
--                  rows and Go structs at the end of store.go; Sessions, Users, Accounts, Tokens: the operations, each
--                  under the Go method's name; Queries: the queries that they build
--   SchemaAdapter  schema_adapter.go: the wrapper that maps names and values; Valid: `validateSchema`
--   Outbox         outbox.go: `RunOnce`
--   TwoFactor      plugin/twofactor. Config: config.go; Model: its schema and `NewManager`; Totp: totp.go; Records, Codes,
--                  Challenges, Passwords: storage.go; Lockout, Verify, Handlers, Enroll, SignIn: plugin.go; Requests: the
--                  requests on one challenge, one after another
-- The other files below these hold proofs, named for what they prove; Tests and Scenarios hold runs on concrete
-- rows.
--
-- How the model stands to the code:
--   A method is an `Action`: a function of the rows that returns the result beside the new rows, so that
--   what was written before an error stays written. Rows are association lists; the order in which a Go
--   `range` visits a map is the order of the list, and the theorems hold for every order. Cloning is the identity,
--   since rows are values and are shared with nobody. The lock that a method takes makes a call one step.
--   `Transaction` runs on a snapshot that is committed where the body succeeds; the store uses `atomically`,
--   which Memory/Transactions relates to that code. Loops are structural recursion over the rows that a
--   method visits, so no fuel is needed.
--   Instants are nanoseconds since Go's zero time, in UTC; 0 is the zero time. Numbers in rows are whole; Go's
--   `float64` is exact on those below 2 ^ 53. The printing of values that are neither texts nor Booleans
--   (`fmt.Sprint`) and `strings.ToLower` are fields of `Printer`, a parameter.
--
--   In the two-factor plugin the clock reads one instant in a request, and each call of an id or token generator is
--   an argument, which may be an error. HMAC-SHA-1, base32, HashToken, ciphers, password hashes, the JSON of a list
--   of texts, and the session that the server issues are parameters. TwoFactor/Requests has the requests on
--   one challenge as interleaved steps. Decimal texts have at most 20 digits, enough for 64 bits.
--   The metadata of a verification goes through JSON and a float64 in Go, and is kept as it is here: a count of
--   attempts stays at or below ChallengeMaxAttempts, which normalizeConfig bounds by 20.
--
-- Not modelled: contexts; error texts in full; values nested deeper than one level in a record; a `*time.Time`
-- held in a row; the schema adapter between the store and the memory adapter, since it changes no name of the
-- core schema, and the wrapper that it gives to a transaction; database_hooks.go; the SQL and MongoDB adapters;
-- HTTP requests, cookies and responses; the other plugins, providers, password hashing and token ciphers.
pub mod Prelude
pub mod Action
pub mod Value
pub mod Database
pub mod Decimal
pub mod Schema
pub mod Memory
pub mod SchemaAdapter
pub mod Scopes
pub mod Store
pub mod Outbox
pub mod TwoFactor
pub mod Tests
