-- ===== src/SchemaAdapter/Tests.antt =====
-- The names of a schema with a renamed model and a renamed field, for an adapter without Booleans.
use better_auth_go.Prelude.{◌≡◌, refl, true, false, [], ◌∷◌, none, lookup, put, eq_iff}
use better_auth_go.Prelude.Int.{pos}
use better_auth_go.Action.{ok}
use better_auth_go.Action.Checks.{refuse_if}
use better_auth_go.Value.{Record, scalar, int, text, flag}
use better_auth_go.Schema.{ModelSchema, string_field, boolean_field, needed, plain}
use better_auth_go.SchemaAdapter.Valid.{
  distinct_fields, valid_indexes, valid_models, validate_schema,
}
use better_auth_go.SchemaAdapter.{
  Mapping, input_of_type, output_of_type, fields_of_model, mapped_record, stored_field, input_value,
  output_value, input_record, output_record,
}
use better_auth_go.SchemaAdapter.RoundTrip.{AllReadable, output_record-input_record}

abbrev user_model : ModelSchema
user_model = record {
  model_name = "people";
  fields =
      ("email", (let f = needed string_field in record f { field_name = "mail" }))
      ∷ ("mail", (let f = plain string_field in record f { field_name = "email" }))
      ∷ ("enabled", plain boolean_field)
      ∷ [];
  indexes = [];
}

abbrev mapping : Mapping
mapping = record {
  schema = ("user", user_model) ∷ [];
  capabilities = record { json = true; dates = true; booleans = false; arrays = true };
  codec = record {
    format_time = λ t. "";
    parse_time = λ s. none;
    parse_bool = λ s. false;
    marshal = λ v. none;
    unmarshal = λ s. none;
  };
}

abbrev row : Record
row = ("email", text "ada@example.org") ∷ ("mail", text "post") ∷ ("enabled", flag true) ∷ []

schema_valid : validate_schema mapping.schema ≡ ok tt
unfolding validate_schema valid_models valid_indexes distinct_fields refuse_if lookup put needed
    plain
schema_valid = refl

stored_row :
    input_record mapping "user" row
    ≡ ("mail", text "ada@example.org")
      ∷ ("email", text "post")
      ∷ ("enabled", scalar (int (pos 1)))
      ∷ []
unfolding lookup put needed plain input_record mapped_record stored_field input_value input_of_type
    fields_of_model
stored_row = refl

row-AllReadable : AllReadable mapping "user" user_model row
unfolding lookup put needed plain input_value output_value input_of_type output_of_type
    fields_of_model
row-AllReadable = (
  record {
    filled = λ e. cc ((eq_iff "email" "").1 e);
    definition = _;
    known = refl;
    read_back = refl;
  },
  (
    record {
      filled = λ e. cc ((eq_iff "mail" "").1 e);
      definition = _;
      known = refl;
      read_back = refl;
    },
    (
      record {
        filled = λ e. cc ((eq_iff "enabled" "").1 e);
        definition = _;
        known = refl;
        read_back = refl;
      },
      tt,
    ),
  ),
)

output_record-input_record_example :
    output_record mapping "user" (input_record mapping "user" row) ≡ row
unfolding lookup
output_record-input_record_example =
    output_record-input_record mapping "user" user_model schema_valid refl row
      (refl, (refl, (refl, tt))) row-AllReadable
