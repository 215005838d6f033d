-- ===== src/Memory/Rules.antt =====
-- adapter/memory/memory.go, `rules` and `rulesFromSchema`: the stored id field and the unique keys of
-- every stored model, computed from a logical schema.
use Prim.Native.String.{compare as compare_text}
use better_auth_go.Prelude.{
  String, ◌≡◌, refl, Bool, true, false, not, ◌&&◌, List, [], ◌∷◌, ◌++◌, map, none, some, Assoc,
  lookup, put, Ordering, ◌==◌, if◌then◌else◌, get_or,
}
use better_auth_go.Schema.{FieldSchema, IndexSchema, ModelSchema, Schema, core_schema}

pub record Rules : Type 0 where
  -- stored model name to stored id field
  pub ids : Assoc String
  -- stored model name to its unique keys, each a list of stored field names
  pub unique : Assoc (List (List String))

is_before : String → String → Bool
is_before s t = elim (compare_text s t) [ Ordering.gt ↦ false | _ ↦ true ]

insert_sorted : String → List String → List String
unfolding is_before
insert_sorted s [] = s ∷ []
insert_sorted s (t ∷ ts) = if is_before s t then s ∷ t ∷ ts else t ∷ insert_sorted s ts

-- slices.Sorted
sorted : List String → List String
unfolding insert_sorted
sorted [] = []
sorted (s ∷ ss) = insert_sorted s (sorted ss)

-- the closure `stored`
stored : ModelSchema → String → String
unfolding lookup
stored m logical = elim (lookup logical m.fields) [
  | none ↦ logical
  | some f ↦ if f.field_name == "" then logical else f.field_name
]

-- result.unique[model] = append(result.unique[model], key)
add_key : String → List String → Assoc (List (List String)) → Assoc (List (List String))
unfolding lookup put
add_key m key us = put m (get_or (lookup m us) [] ++ key ∷ []) us

is_unique_field : ModelSchema → String → Bool
unfolding lookup
is_unique_field m logical = elim (lookup logical m.fields) [ none ↦ false | some f ↦ f.unique ]

field_keys :
    ModelSchema
    → String
    → String
    → List String
    → Assoc (List (List String))
    → Assoc (List (List String))
unfolding stored add_key is_unique_field
field_keys m stored_model id_field [] us = us
field_keys m stored_model id_field (f ∷ fs) us = field_keys m stored_model id_field fs (
    if is_unique_field m f && not (stored m f == id_field)
    then add_key stored_model (stored m f ∷ []) us
    else us)

abbrev is_empty : List String → Bool
is_empty [] = true
is_empty (x ∷ xs) = false

index_keys :
    ModelSchema
    → String
    → List IndexSchema
    → Assoc (List (List String))
    → Assoc (List (List String))
unfolding stored add_key
index_keys m stored_model [] us = us
index_keys m stored_model (i ∷ is) us = index_keys m stored_model is (
    if not i.unique
    then us
    else if is_empty i.fields
    then us
    else add_key stored_model (map (stored m) i.fields) us)

abbrev field_names : Assoc FieldSchema → List String
field_names [] = []
field_names ((n, f) ∷ fs) = n ∷ field_names fs

rules_of_model : String → ModelSchema → Rules → Rules
unfolding stored field_keys index_keys put sorted
rules_of_model logical m r =
    let stored_model = (if m.model_name == "" then logical else m.model_name) in
    let id_field = stored m "id" in
    record {
      ids = put stored_model id_field r.ids;
      unique =
          index_keys m stored_model m.indexes
            (field_keys m stored_model id_field (sorted (field_names m.fields)) r.unique);
    }

rules_from : Schema → Rules → Rules
unfolding rules_of_model
rules_from [] r = r
rules_from ((logical, m) ∷ schema) r = rules_from schema (rules_of_model logical m r)

-- rulesFromSchema(schema)
unfoldable pub rules_from_schema : Schema → Rules
unfolding rules_from
rules_from_schema schema = rules_from schema (record { ids = []; unique = [] })

-- The rules that the core schema gives: an email, a session's token hash, a provider account and a
-- verification value stand once.
pub core_unique :
    (rules_from_schema core_schema).unique
    ≡ ("user", ("email" ∷ []) ∷ [])
      ∷ ("session", ("tokenHash" ∷ []) ∷ [])
      ∷ ("account", ("providerId" ∷ "accountId" ∷ []) ∷ [])
      ∷ ("verification", ("value" ∷ []) ∷ [])
      ∷ []
unfolding rules_from_schema core_schema
core_unique = refl
