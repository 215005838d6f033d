-- ===== src/TwoFactor/Model.antt =====
-- plugin/twofactor/config.go: the schema that the plugin adds to the server's, and its construction.
use better_auth_go.Prelude.{[], ◌∷◌}
use better_auth_go.Action.{Result, ok}
use better_auth_go.Action.Checks.{◌>>=◌}
use better_auth_go.Schema.{
  string_field, number_field, boolean_field, date_field, Schema, model_user, plain, needed, key,
  shown, model,
}
use better_auth_go.Schema.Merge.{merge_schema}
use better_auth_go.TwoFactor.Config.{Config, normalize_config}
use better_auth_go.TwoFactor.Records.{model_two_factor}

-- baseSchema
unfoldable pub base_schema : Schema
unfolding plain needed key shown model
base_schema =
    (model_user, model (("twoFactorEnabled", shown (plain boolean_field)) ∷ []) [])
    ∷ (
      model_two_factor,
      model
          (("id", key string_field)
            ∷ ("userId", (let f = key string_field in record f { references = model_user }))
            ∷ ("secret", needed string_field)
            ∷ ("backupCodes", needed string_field)
            ∷ ("verified", needed boolean_field)
            ∷ ("failedVerificationCount", needed number_field)
            ∷ ("lockedUntil", plain date_field)
            ∷ ("createdAt", needed date_field)
            ∷ ("updatedAt", needed date_field)
            ∷ [])
          [],
    )
    ∷ []

pub record Manager : Type 0 where
  pub config : Config
  pub schema : Schema

-- NewManager
unfoldable pub new_manager : Config → Result Manager
new_manager given = do
  config ← normalize_config given
  schema ← merge_schema base_schema (((model_two_factor, config.schema) ∷ []) ∷ [])
  ok (record { config = config; schema = schema })
