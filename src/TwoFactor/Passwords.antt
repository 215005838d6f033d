-- ===== src/TwoFactor/Passwords.antt =====
-- plugin/twofactor/storage.go: the check of a user's password, and the backup codes that are drawn. Base32 texts are ASCII, so that
-- bytes are characters.
use Prim.Native.Nat.{◌/◌}
use Prim.Native.String.{len, ◌++◌ as append_text}
use better_auth_go.Prelude.{
  ℕ, zero, suc, String, Bool, not, ◌&&◌, List, [], ◌∷◌, Option, none, some, ltb, ◌==◌,
  if◌then◌else◌,
}
use better_auth_go.Prelude.Int.{pos_part}
use better_auth_go.Action.{Error, failure, Result, ok, err, Action, pure, throw, lift, ◌>>=◌}
use better_auth_go.Value.{Value, Record, text, instant, field}
use better_auth_go.Database.{Where, equals}
use better_auth_go.Schema.{model_account}
use better_auth_go.Memory.Table.{Rows}
use better_auth_go.Memory.Methods.{find_one, update}
use better_auth_go.Store.Queries.{change, account_key_where, credential_provider}
use better_auth_go.TwoFactor.Challenges.{Env}
use better_auth_go.TwoFactor.Lockout.{internal_error, failing_as}
use better_auth_go.TwoFactor.Verify.{Services, sealed}

abbrev pub invalid_password : Error
invalid_password = failure "Invalid password."

-- s[:n] and s[n:] of an ASCII text
take_text : ℕ → String → String
take_text zero s = ""
take_text (suc n) String.[] = ""
take_text (suc n) (String.◌∷◌ c s) = String.◌∷◌ c (take_text n s)

drop_text : ℕ → String → String
drop_text zero s = s
drop_text (suc n) String.[] = ""
drop_text (suc n) (String.◌∷◌ c s) = drop_text n s

abbrev pub of_user : String → List Where
of_user user = equals "userId" (text user) ∷ []

module _ (env : Env) (services : Services) where
  filled_password : Value → Result (Option String)
  filled_password (text s) =
      if s == "" then err (failure "twofactor: invalid credential record") else ok (some s)
  filled_password _ = err (failure "twofactor: invalid credential record")

  credential_found : Option Record → Result (Option String)
  unfolding filled_password
  credential_found none = ok none
  credential_found (some row) = filled_password (field row "password")

  -- credentialPassword: none where the user has none
  unfoldable pub credential_password : String → Action Rows (Option String)
  unfolding credential_found
  credential_password user = do
    row ← find_one env.adapter (record {
      model = model_account;
      predicate = account_key_where credential_provider user;
      select = "password" ∷ [];
      joins = [];
    })
    lift (credential_found row)

  -- CheckPasswordNotTooLong, with the default limit of 128 bytes
  abbrev too_long : String → Bool
  too_long password = ltb 128 (len password)

  -- the last block of requirePassword: the stored hash is replaced where the verifier asks for it
  unfoldable pub rehash_password : String → String → String → Action Rows (Unit {0})
  rehash_password user encoded replacement = if replacement == "" then pure tt else (do
    row ← failing_as internal_error (
        update env.adapter (
          change model_account
            (equals "providerId" (text credential_provider)
              ∷ equals "accountId" (text user)
              ∷ equals "password" (text encoded)
              ∷ [])
            (("password", text replacement) ∷ ("updatedAt", instant env.now) ∷ [])))
    pure tt)

  unfoldable pub check_password : String → String → Option String → Action Rows (Unit {0})
  check_password user password none =
      if env.config.allow_passwordless then pure tt else throw invalid_password
  check_password user password (some encoded) =
      if password == ""
      then throw invalid_password
      else if too_long password
      then throw (failure "Password too long")
      else (do
        (valid, replacement) ←
            failing_as internal_error (lift (services.verify_password encoded password))
        if not valid then throw invalid_password else rehash_password user encoded replacement)

  -- requirePassword
  unfoldable pub require_password : String → String → Action Rows (Unit {0})
  require_password user password =
      if not env.config.allow_passwordless && too_long password
      then throw (failure "Password too long")
      else (do
        encoded ← failing_as internal_error (credential_password user)
        check_password user password encoded)

  -- one turn of the loop of generateBackupCodes
  unfoldable pub backup_code_of : String → Result String
  unfolding take_text drop_text
  backup_code_of raw =
      let encoded = services.to_lower (services.base32_encode (env.hash raw)) in
      let length = pos_part env.config.backup_code_length in
      let value = take_text length encoded in
      if ltb (len encoded) length
      then err (failure "twofactor: generated backup code is too short")
      else ok (
          append_text (take_text (length / 2) value)
            (append_text "-" (drop_text (length / 2) value)))

  -- the loop of generateBackupCodes, which draws a token for each code, from the given number on
  unfoldable pub backup_codes_from : (ℕ → Result String) → ℕ → ℕ → Action Rows (List String)
  backup_codes_from tokens i zero = pure []
  backup_codes_from tokens i (suc n) = do
    raw ← lift (tokens i)
    code ← lift (backup_code_of raw)
    rest ← backup_codes_from tokens (suc i) n
    pure (code ∷ rest)

  -- generateBackupCodes: the codes, and the sealed list of them
  unfoldable pub generate_backup_codes : (ℕ → Result String) → Action Rows (List String × String)
  generate_backup_codes tokens = do
    codes ← backup_codes_from tokens 1 (pos_part env.config.backup_code_count)
    encoded ← lift (sealed env.config.cipher (services.marshal codes))
    pure (codes, encoded)
