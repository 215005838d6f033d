-- ===== src/Schema/Merge.antt =====
-- schema.go, `MergeSchema`: the logical schema of the server extended by those of plugins. Copies of maps and slices
-- are the identity. The order in which an extension's models and fields are visited is that of its entries.
use better_auth_go.Prelude.{
  ℕ, String, Bool, true, false, not, ◌&&◌, List, [], ◌∷◌, ◌++◌, Option, none, some, Assoc, lookup,
  put, leb, any, ◌==◌, if◌then◌else◌,
}
use better_auth_go.Action.{Result, ok, err, failure}
use better_auth_go.Action.Checks.{◌>>=◌}
use better_auth_go.Schema.{
  FieldType, string_field, number_field, boolean_field, date_field, json_field, string_array_field,
  unset_field, FieldSchema, IndexSchema, ModelSchema, Schema,
}

abbrev type_number : FieldType → ℕ
type_number string_field = 0
type_number number_field = 1
type_number boolean_field = 2
type_number date_field = 3
type_number json_field = 4
type_number string_array_field = 5
type_number unset_field = 6

abbrev pub same_type : FieldType → FieldType → Bool
same_type s t = leb (type_number s) (type_number t) && leb (type_number t) (type_number s)

-- slices.Equal
same_texts : List String → List String → Bool
same_texts [] [] = true
same_texts (s ∷ ss) (t ∷ ts) = (s == t) && same_texts ss ts
same_texts _ _ = false

same_flag : Bool → Bool → Bool
same_flag true b = b
same_flag false b = not b

-- containsIndex
unfoldable pub contains_index : List IndexSchema → IndexSchema → Bool
unfolding same_texts same_flag
contains_index indexes c =
    any (λ e. (e.name == c.name) && (same_flag e.unique c.unique && same_texts e.fields c.fields))
      indexes

-- a field of the extension that is there already may only be renamed
unfoldable pub renamed_field : FieldSchema → FieldSchema → Result FieldSchema
renamed_field existing definition =
    if not (same_type definition.kind unset_field) && not (same_type definition.kind existing.kind)
    then err (failure "betterauth: cannot change core field type")
    else ok (
        if definition.field_name == ""
        then existing
        else record existing { field_name = definition.field_name })

unfoldable pub merged_field : FieldSchema → Option FieldSchema → Result FieldSchema
merged_field definition none = ok definition
merged_field definition (some existing) = renamed_field existing definition

-- the loop over model.Fields
unfoldable pub merge_fields : Assoc FieldSchema → Assoc FieldSchema → Result (Assoc FieldSchema)
merge_fields current [] = ok current
merge_fields current ((name, definition) ∷ fields) = do
  f ← merged_field definition (lookup name current)
  merge_fields (put name f current) fields

-- the loop over model.Indexes
unfoldable pub merge_indexes : List IndexSchema → List IndexSchema → List IndexSchema
merge_indexes current [] = current
merge_indexes current (i ∷ is) =
    merge_indexes (if contains_index current i then current else current ++ (i ∷ [])) is

-- current.ModelName
unfoldable pub merged_name : String → String → Result String
merged_name current given =
    if given == ""
    then ok current
    else if not (current == "") && not (current == given)
    then err (failure "betterauth: conflicting model name")
    else ok given

unfoldable pub merged_model : ModelSchema → Option ModelSchema → Result ModelSchema
merged_model m none = ok m
merged_model m (some current) = do
  name ← merged_name current.model_name m.model_name
  fields ← merge_fields current.fields m.fields
  ok (record {
    model_name = name;
    fields = fields;
    indexes = merge_indexes current.indexes m.indexes;
  })

-- the loop over one extension
unfoldable pub merge_extension : Schema → Schema → Result Schema
merge_extension result [] = ok result
merge_extension result ((name, m) ∷ extension) = do
  merged ← merged_model m (lookup name result)
  merge_extension (put name merged result) extension

-- MergeSchema
unfoldable pub merge_schema : Schema → List Schema → Result Schema
merge_schema base [] = ok base
merge_schema base (extension ∷ extensions) = do
  result ← merge_extension base extension
  merge_schema result extensions
