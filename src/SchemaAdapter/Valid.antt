-- ===== src/SchemaAdapter/Valid.antt =====
-- schema_adapter.go, `validateSchema`: no two models and no two fields of a model have one stored name, and compound
-- indexes are named and made of known fields. Go's maps are visited in the order of their entries.
use better_auth_go.Prelude.{
  String, Bool, true, false, not, ◌||◌, List, [], ◌∷◌, Option, none, some, Assoc, lookup, put,
  length, ltb, all, contains, ◌==◌, if◌then◌else◌,
}
use better_auth_go.Action.{Result, ok}
use better_auth_go.Action.Checks.{refuse_if}
use better_auth_go.Schema.{FieldSchema, IndexSchema, Schema}

abbrev pub or_text : String → String → String
or_text d s = if s == "" then d else s

-- a stored name that another logical name has taken
abbrev pub taken : Option String → String → Bool
taken none logical = false
taken (some previous) logical = not (previous == logical)

-- the loop over the fields of a model, where `stored_names` is storedFields
unfoldable pub distinct_fields : Assoc FieldSchema → Assoc String → Bool
distinct_fields [] stored_names = true
distinct_fields ((logical, f) ∷ fields) stored_names =
    let stored = or_text logical f.field_name in
    let rest = distinct_fields fields (put stored logical stored_names) in
    if taken (lookup stored stored_names) logical then false else rest

is_known : Assoc FieldSchema → String → Bool
is_known fields name = elim (lookup name fields) [ none ↦ false | some f ↦ true ]

-- the loop over the indexes of a model, where `names` is indexNames
unfoldable pub valid_indexes : Assoc FieldSchema → List IndexSchema → List String → Bool
unfolding is_known
valid_indexes fields [] names = true
valid_indexes fields (i ∷ is) names =
    let rest = valid_indexes fields is (i.name ∷ names) in
    if i.name == "" || ltb (length i.fields) 2
    then false
    else if contains names i.name
    then false
    else if not (all (is_known fields) i.fields)
    then false
    else rest

-- the loop over the models, where `stored_models` is storedModels
unfoldable pub valid_models : Schema → Assoc String → Result (Unit {0})
valid_models [] stored_models = ok tt
valid_models ((logical, m) ∷ models) stored_models =
    let stored = or_text logical m.model_name in
    let rest = valid_models models (put stored logical stored_models) in
    refuse_if (taken (lookup stored stored_models) logical) "betterauth: models map to one name" (
      refuse_if (not (distinct_fields m.fields [])) "betterauth: fields collide" (
        refuse_if (not (valid_indexes m.fields m.indexes [])) "betterauth: invalid compound index"
          rest))

-- validateSchema
unfoldable pub validate_schema : Schema → Result (Unit {0})
validate_schema schema = valid_models schema []
