-- ===== src/Memory/Table.antt =====
-- adapter/memory/memory.go: the tables of the adapter, and the parts that its methods share. cloneRecord,
-- cloneValue and cloneRows make values that share nothing; here values are never shared.
use better_auth_go.Prelude.{
  String, Bool, true, false, not, ◌&&◌, ◌||◌, List, [], ◌∷◌, Option, none, some, Assoc, lookup, put,
  any, get_or, ◌==◌, if◌then◌else◌,
}
use better_auth_go.Value.{Value, Record, text, field, is_nil}
use better_auth_go.Value.Equality.{deep_equal}
use better_auth_go.Database.{Where}
use better_auth_go.Memory.Match.{Printer, matches}
use better_auth_go.Memory.Rules.{Rules}

-- what is fixed when the adapter is built
pub record Adapter : Type 0 where
  pub rules : Rules
  pub printer : Printer

-- id to record
abbrev pub Table : Type 0
Table = Assoc Record

-- model to table
abbrev pub Rows : Type 0
Rows = Assoc Table

-- rows[model]: a missing table reads as an empty one
unfoldable pub table : Rows → String → Table
table rows m = get_or (lookup m rows) []

-- ensureModel(rows, model)
unfoldable pub ensure_model : Rows → String → Rows
unfolding lookup put
ensure_model rows m = elim (lookup m rows) [ none ↦ put m [] rows | some t ↦ rows ]

-- value.(string), which is "" where the assertion fails
unfoldable pub as_text : Value → String
as_text (text s) = s
as_text _ = ""

-- idField(model)
unfoldable pub id_field : Adapter → String → String
id_field a m = let f = get_or (lookup m a.rules.ids) "" in if f == "" then "id" else f

-- uniqueKeys(model)
unfoldable pub unique_keys : Adapter → String → List (List String)
unique_keys a m = get_or (lookup m a.rules.unique) []

-- sameUniqueKey(left, right, fields)
unfoldable pub same_unique_key : Record → Record → List String → Bool
same_unique_key l r [] = true
same_unique_key l r (f ∷ fs) =
    not (is_nil (field l f) || is_nil (field r f) || not (deep_equal (field l f) (field r f)))
    && same_unique_key l r fs

unfoldable pub shares_key : List (List String) → Record → Record → Bool
shares_key keys l r = any (same_unique_key l r) keys

-- the loop of `conflicts` over the rows of the model
unfoldable pub clashes : List (List String) → Record → String → Table → Bool
unfolding shares_key
clashes keys candidate except [] = false
clashes keys candidate except ((id, r) ∷ t) =
    (if id == except then false else shares_key keys r candidate) || clashes keys candidate except t

-- conflicts(rows, model, candidate, exceptID)
unfoldable pub conflicts : Adapter → Rows → String → Record → String → Bool
conflicts a rows m candidate except = clashes (unique_keys a m) candidate except (table rows m)

-- the first record of a `range` over the table that the predicate matches, with its id
unfoldable pub find_row : Printer → List Where → Table → Option (String × Record)
find_row p ws [] = none
find_row p ws ((id, r) ∷ t) = if matches p r ws then some (id, r) else find_row p ws t

-- for field, value := range update { if field != idField { record[field] = value } }
unfoldable pub assign : String → Record → Record → Record
unfolding put
assign id_name [] r = r
assign id_name ((f, v) ∷ update) r = assign id_name update (if f == id_name then r else put f v r)
