-- ===== src/Value/Types.antt =====
-- The data types of record values, and the accessors of a record.
use better_auth_go.Prelude.{ℕ, String, Bool, none, some, List, Assoc, lookup}
use better_auth_go.Prelude.Int.{ℤ}

pub data Scalar : Type 0 where
  null : Scalar
  str : String → Scalar
  bool : Bool → Scalar
  int int64 float64 float32 : ℤ → Scalar
  time : ℕ → Scalar

pub data Value : Type 0 where
  scalar : Scalar → Value
  -- []string and []any
  strings : List String → Value
  any_list : List Scalar → Value
  -- map[string]string, and map[string]any or Record
  string_map : Assoc String → Value
  any_map : Assoc Scalar → Value
  -- the struct RequestMetadata: its request id, address and user agent
  request : String → String → String → Value

pattern abbrev pub nil : Value
nil = scalar null

pattern abbrev pub text : String → Value
text s = scalar (str s)

pattern abbrev pub flag : Bool → Value
flag b = scalar (bool b)

pattern abbrev pub instant : ℕ → Value
instant t = scalar (time t)

abbrev pub Record : Type 0
Record = Assoc Value

-- record[field]: a missing key reads as nil
unfoldable pub field : Record → String → Value
field r f = elim (lookup f r) [ none ↦ nil | some v ↦ v ]

unfoldable pub is_nil : Value → Bool
is_nil nil = Bool.true
is_nil _ = Bool.false
