-- ===== src/SchemaAdapter.antt =====
-- schema_adapter.go: the adapter that maps the logical names of a schema to stored ones, and values to what the inner
-- adapter can store. A Go map of fields is visited in the order of its entries. time.Format, time.Parse, strconv.ParseBool and
-- JSON are parameters.
pub mod Valid
pub mod Names
pub mod RoundTrip
mod Tests
use better_auth_go.Prelude.{
  ℕ, String, Bool, true, false, not, ◌&&◌, ◌||◌, List, [], ◌∷◌, Option, none, some, map, Assoc,
  lookup, put, length, ltb, contains, ◌==◌, if◌then◌else◌,
}
use mathlib.Core.Option
use better_auth_go.Prelude.Int.{ℤ, pos, negsuc}
use better_auth_go.Action.{Result, ok, err, failure, Action}
use better_auth_go.Action.Checks.{◌>>=◌, refuse_if}
use better_auth_go.Value.{
  Scalar, int, int64, float64, Value, Record, scalar, text, flag, instant, nil,
}
use better_auth_go.Database.{
  Where, Sort, Join, CreateQuery, FindOneQuery, FindManyQuery, CountQuery, UpdateQuery, DeleteQuery,
  IncrementQuery,
}
use better_auth_go.SchemaAdapter.Valid.{or_text}
use better_auth_go.Schema.{
  FieldType, string_field, number_field, boolean_field, date_field, json_field, string_array_field,
  unset_field, FieldSchema, IndexSchema, ModelSchema, Schema,
}

-- AdapterCapabilities, as far as they change values
pub record Capabilities : Type 0 where
  pub json : Bool
  pub dates : Bool
  pub booleans : Bool
  pub arrays : Bool

-- texts in place of values, both ways
pub record Codec : Type 0 where
  pub format_time : ℕ → String
  pub parse_time : String → Option ℕ
  pub parse_bool : String → Bool
  pub marshal : Value → Option String
  pub unmarshal : String → Option Value

abbrev pub or_value : Value → Option Value → Value
or_value v none = v
or_value v (some w) = w

abbrev as_text : Option String → Option Value
as_text none = none
as_text (some s) = some (text s)

abbrev is_nonzero : ℤ → Bool
is_nonzero (pos n) = ltb 0 n
is_nonzero (negsuc n) = true

module _ (c : Capabilities) (codec : Codec) where
  stored_date : Value → Value
  stored_date (instant t) = if c.dates then instant t else text (codec.format_time t)
  stored_date v = v

  stored_bool : Value → Value
  stored_bool (flag b) = if c.booleans then flag b else scalar (int (pos (if b then 1 else 0)))
  stored_bool v = v

  stored_json : Bool → Value → Value
  stored_json supported v = if supported then v else or_value v (as_text (codec.marshal v))

  -- the `switch definition.Type` of inputValue
  unfoldable pub input_of_type : FieldType → Value → Value
  unfolding stored_date stored_bool stored_json
  input_of_type date_field v = stored_date v
  input_of_type boolean_field v = stored_bool v
  input_of_type json_field v = stored_json c.json v
  input_of_type string_array_field v = stored_json c.arrays v
  input_of_type _ v = v

  loaded_date : Value → Value
  loaded_date (text s) =
      if c.dates then text s else elim (codec.parse_time s) [ none ↦ text s | some t ↦ instant t ]
  loaded_date v = v

  loaded_bool : Value → Value
  loaded_bool (scalar (int n)) = if c.booleans then scalar (int n) else flag (is_nonzero n)
  loaded_bool (scalar (int64 n)) = if c.booleans then scalar (int64 n) else flag (is_nonzero n)
  loaded_bool (scalar (float64 n)) = if c.booleans then scalar (float64 n) else flag (is_nonzero n)
  loaded_bool (text s) = if c.booleans then text s else flag (codec.parse_bool s)
  loaded_bool v = v

  loaded_json : Bool → Value → Value
  loaded_json supported (text s) =
      if supported then text s else or_value (text s) (codec.unmarshal s)
  loaded_json supported v = v

  -- the `switch definition.Type` of outputValue
  unfoldable pub output_of_type : FieldType → Value → Value
  unfolding loaded_date loaded_bool loaded_json
  output_of_type date_field v = loaded_date v
  output_of_type boolean_field v = loaded_bool v
  output_of_type json_field v = loaded_json c.json v
  output_of_type string_array_field v = loaded_json c.arrays v
  output_of_type _ v = v

-- schema[model].Fields, empty where the model is unknown
abbrev known_fields : Option ModelSchema → Assoc FieldSchema
known_fields none = []
known_fields (some m) = m.fields

unfoldable pub fields_of_model : Schema → String → Assoc FieldSchema
fields_of_model schema model = known_fields (lookup model schema)

abbrev pub stored_name : String → Option FieldSchema → String
stored_name logical none = logical
stored_name logical (some f) = or_text logical f.field_name

-- the loop of logicalField
unfoldable pub logical_name : String → Assoc FieldSchema → String
logical_name stored [] = stored
logical_name stored ((logical, f) ∷ fields) =
    let rest = logical_name stored fields in if f.field_name == stored then logical else rest

abbrev typed_value : (FieldType → Value → Value) → Option FieldSchema → Value → Value
typed_value convert none v = v
typed_value convert (some f) nil = nil
typed_value convert (some f) v = convert f.kind v

-- the loop of inputRecord, and the one of outputRecord
unfoldable pub mapped_record :
    (String → String) → (String → Value → Value) → Record → Record → Record
mapped_record name value [] result = result
mapped_record name value ((k, v) ∷ r) result =
    mapped_record name value r (put (name k) (value k v) result)

-- WrapDatabaseAdapter, where the fields of the inner adapter that are called are given by the caller
pub record Mapping : Type 0 where
  pub schema : Schema
  pub capabilities : Capabilities
  pub codec : Codec

module _ (a : Mapping) where
  -- model
  unfoldable pub stored_model : String → String
  unfolding lookup
  stored_model logical = elim (lookup logical a.schema) [
    | none ↦ logical
    | some m ↦ or_text logical m.model_name
  ]

  -- field
  unfoldable pub stored_field : String → String → String
  stored_field model logical = stored_name logical (lookup logical (fields_of_model a.schema model))

  -- logicalField
  unfoldable pub logical_field : String → String → String
  logical_field model stored = logical_name stored (fields_of_model a.schema model)

  -- inputValue
  unfoldable pub input_value : String → String → Value → Value
  input_value model logical v =
      typed_value (input_of_type a.capabilities a.codec)
        (lookup logical (fields_of_model a.schema model)) v

  -- outputValue
  unfoldable pub output_value : String → String → Value → Value
  output_value model logical v =
      typed_value (output_of_type a.capabilities a.codec)
        (lookup logical (fields_of_model a.schema model)) v

  -- inputRecord
  unfoldable pub input_record : String → Record → Record
  input_record model r = mapped_record (stored_field model) (input_value model) r []

  -- outputRecord
  unfoldable pub output_record : String → Record → Record
  output_record model r =
      mapped_record (logical_field model)
        (λ stored. output_value model (logical_field model stored)) r []

  -- fields
  unfoldable pub stored_fields : String → List String → List String
  stored_fields model names = map (stored_field model) names

  abbrev stored_where : String → Where → Where
  stored_where model w = record w {
    on_field = stored_field model w.on_field;
    value = input_value model w.on_field w.value;
  }

  -- where
  unfoldable pub stored_predicate : String → List Where → List Where
  stored_predicate model ws = map (stored_where model) ws

  abbrev stored_join : Join → Join
  stored_join j = record j {
    model = stored_model j.model;
    from = stored_field j.model j.from;
    to = stored_field j.model j.to;
  }

  -- joins
  unfoldable pub stored_joins : List Join → List Join
  stored_joins js = map stored_join js

  abbrev stored_sort : String → Option Sort → Option Sort
  stored_sort model none = none
  stored_sort model (some s) = some (record s { on_field = stored_field model s.on_field })

  abbrev mapped_result {ℓ} : {A B : Type ℓ} → (A → B) → Result A → Result B
  mapped_result f (ok x) = ok (f x)
  mapped_result f (err e) = err e

  -- the records that the inner adapter returns, with logical names
  unfoldable pub returning : {S A B : Type 0} → (A → B) → Action S A → Action S B
  returning f m s = (mapped_result f (m s).0, (m s).1)

  -- the queries that Create, FindOne, FindMany, Count, Update, Delete and IncrementOne pass on
  unfoldable pub stored_create : CreateQuery → CreateQuery
  stored_create q = record q {
    model = stored_model q.model;
    row = input_record q.model q.row;
    select = stored_fields q.model q.select;
  }

  unfoldable pub stored_find_one : FindOneQuery → FindOneQuery
  stored_find_one q = record {
    model = stored_model q.model;
    predicate = stored_predicate q.model q.predicate;
    select = stored_fields q.model q.select;
    joins = stored_joins q.joins;
  }

  unfoldable pub stored_find_many : FindManyQuery → FindManyQuery
  stored_find_many q = record q {
    model = stored_model q.model;
    predicate = stored_predicate q.model q.predicate;
    select = stored_fields q.model q.select;
    sort = stored_sort q.model q.sort;
    joins = stored_joins q.joins;
  }

  unfoldable pub stored_count : CountQuery → CountQuery
  stored_count q = record {
    model = stored_model q.model;
    predicate = stored_predicate q.model q.predicate;
  }

  unfoldable pub stored_update : UpdateQuery → UpdateQuery
  stored_update q = record {
    model = stored_model q.model;
    predicate = stored_predicate q.model q.predicate;
    update = input_record q.model q.update;
  }

  unfoldable pub stored_delete : DeleteQuery → DeleteQuery
  stored_delete q = record {
    model = stored_model q.model;
    predicate = stored_predicate q.model q.predicate;
  }

  stored_deltas : String → Assoc ℤ → Assoc ℤ → Assoc ℤ
  stored_deltas model [] result = result
  stored_deltas model ((k, n) ∷ deltas) result =
      stored_deltas model deltas (put (stored_field model k) n result)

  unfoldable pub stored_increment : IncrementQuery → IncrementQuery
  unfolding stored_deltas
  stored_increment q = record {
    model = stored_model q.model;
    predicate = stored_predicate q.model q.predicate;
    increment = stored_deltas q.model q.increment [];
    set = input_record q.model q.set;
  }

  -- the methods of the wrapper, over those of the inner adapter
  module _ {S : Type 0} where
    unfoldable pub wrapped_create : (CreateQuery → Action S Record) → CreateQuery → Action S Record
    wrapped_create inner q = returning (output_record q.model) (inner (stored_create q))

    unfoldable pub wrapped_find_one :
        (FindOneQuery → Action S (Option Record)) → FindOneQuery → Action S (Option Record)
    wrapped_find_one inner q =
        returning (Option.map (output_record q.model)) (inner (stored_find_one q))

    unfoldable pub wrapped_find_many :
        (FindManyQuery → Action S (List Record)) → FindManyQuery → Action S (List Record)
    wrapped_find_many inner q = returning (map (output_record q.model)) (inner (stored_find_many q))

    unfoldable pub wrapped_count : (CountQuery → Action S ℕ) → CountQuery → Action S ℕ
    wrapped_count inner q = inner (stored_count q)

    unfoldable pub wrapped_update :
        (UpdateQuery → Action S (Option Record)) → UpdateQuery → Action S (Option Record)
    wrapped_update inner q =
        returning (Option.map (output_record q.model)) (inner (stored_update q))

    unfoldable pub wrapped_update_many : (UpdateQuery → Action S ℕ) → UpdateQuery → Action S ℕ
    wrapped_update_many inner q = inner (stored_update q)

    unfoldable pub wrapped_delete :
        (DeleteQuery → Action S (Unit {0})) → DeleteQuery → Action S (Unit {0})
    wrapped_delete inner q = inner (stored_delete q)

    unfoldable pub wrapped_delete_many : (DeleteQuery → Action S ℕ) → DeleteQuery → Action S ℕ
    wrapped_delete_many inner q = inner (stored_delete q)

    unfoldable pub wrapped_consume_one :
        (DeleteQuery → Action S (Option Record)) → DeleteQuery → Action S (Option Record)
    wrapped_consume_one inner q =
        returning (Option.map (output_record q.model)) (inner (stored_delete q))

    unfoldable pub wrapped_increment_one :
        (IncrementQuery → Action S (Option Record)) → IncrementQuery → Action S (Option Record)
    wrapped_increment_one inner q =
        returning (Option.map (output_record q.model)) (inner (stored_increment q))
