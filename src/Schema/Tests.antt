-- ===== src/Schema/Tests.antt =====
-- MergeSchema on concrete schemas.
use better_auth_go.Prelude.{String, ◌≡◌, refl, false, [], ◌∷◌}
use better_auth_go.Action.{ok}
use better_auth_go.Schema.{FieldSchema, Schema, boolean_field, string_field, plain, needed}
use better_auth_go.Prelude.{lookup, put}
use better_auth_go.Schema.Merge.{
  contains_index, renamed_field, merged_field, merge_fields, merge_indexes, merged_name,
  merged_model, merge_extension, merge_schema,
}
use better_auth_go.Schema.Kept.{KeepsSchema, merge_schema-KeepsSchema}

abbrev with_name : String → FieldSchema → FieldSchema
with_name s f = record f { field_name = s }

abbrev base : Schema
base =
    ("user", record { model_name = ""; fields = ("email", needed string_field) ∷ []; indexes = [] })
    ∷ []

abbrev extension : Schema
extension =
    (
      "user",
      record {
        model_name = "people";
        fields =
            ("email", with_name "mail" (needed string_field))
            ∷ ("enabled", plain boolean_field)
            ∷ [];
        indexes = record { name = "i"; fields = "email" ∷ "enabled" ∷ []; unique = false } ∷ [];
      },
    )
    ∷ []

abbrev merged : Schema
merged =
    (
      "user",
      record {
        model_name = "people";
        fields =
            ("email", with_name "mail" (needed string_field))
            ∷ ("enabled", plain boolean_field)
            ∷ [];
        indexes = record { name = "i"; fields = "email" ∷ "enabled" ∷ []; unique = false } ∷ [];
      },
    )
    ∷ []

merging_base : merge_schema base (extension ∷ []) ≡ ok merged
unfolding lookup put contains_index renamed_field merged_field merge_fields merge_indexes
    merged_name merged_model merge_extension merge_schema plain needed
merging_base = refl

merge_schema-KeepsSchema_example : KeepsSchema base merged
merge_schema-KeepsSchema_example =
    merge_schema-KeepsSchema base merged (extension ∷ []) merging_base
