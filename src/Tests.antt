-- ===== src/Tests.antt =====
-- Predicates and scopes on concrete values.
use better_auth_go.Prelude.{String, ◌≡◌, refl, false, ◌||◌, [], ◌∷◌, contains}
use better_auth_go.Action.{ok}
use better_auth_go.Value.{text}
use better_auth_go.Database.{
  Where, operator_on, starts_with, and_connector, sensitive, validate_where, validate_items,
  validate_item,
}
use better_auth_go.Database.Validated.{AllSpecified, validate_where-AllSpecified}
use better_auth_go.Scopes.{fields_of, merged_scopes}
use better_auth_go.Scopes.Merged.{NoRepeats, merged_scopes-union}

abbrev prefixed : Where
prefixed = operator_on "identifier" starts_with (text "email-change:")

abbrev prefixed_checked : Where
prefixed_checked = record prefixed { connector = and_connector; mode = sensitive }

prefixed_valid : validate_where (prefixed ∷ []) false ≡ ok (prefixed_checked ∷ [])
unfolding validate_where validate_items validate_item
prefixed_valid = refl

validate_where-AllSpecified_example :
    AllSpecified (prefixed_checked ∷ [])
    × (validate_where (prefixed_checked ∷ []) false ≡ ok (prefixed_checked ∷ []))
validate_where-AllSpecified_example =
    validate_where-AllSpecified (prefixed ∷ []) (prefixed_checked ∷ []) false prefixed_valid

merged_scopes-union_example :
    NoRepeats (merged_scopes "openid email" "email profile")
    × ((s : String)
        → contains (merged_scopes "openid email" "email profile") s
          ≡ (contains (fields_of "openid email") s || contains (fields_of "email profile") s))
merged_scopes-union_example = merged_scopes-union "openid email" "email profile"
