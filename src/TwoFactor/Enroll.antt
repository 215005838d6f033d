-- ===== src/TwoFactor/Enroll.antt =====
-- plugin/twofactor/plugin.go: the handlers enable, disable and regenerateBackupCodes. A response is what the handler returns
-- beside its session; the TOTP URI is not built.
use better_auth_go.Prelude.{
  ℕ, String, Bool, true, false, List, [], ◌∷◌, Option, none, some, ◌==◌, if◌then◌else◌,
}
use better_auth_go.Prelude.Int.{pos}
use better_auth_go.Action.{
  Error, not_found, conflict, failure, Result, ok, err, Action, pure, throw, lift, ◌>>=◌,
  with_result,
}
use better_auth_go.Value.{
  bool, str, Value, Record, text, flag, instant, nil, field, scalar, float64,
}
use better_auth_go.Database.{equals}
use better_auth_go.Schema.{model_user}
use better_auth_go.Memory.Table.{Rows}
use better_auth_go.Memory.Methods.{create, find_one, update, delete_many, consume_one}
use better_auth_go.Memory.Transactions.{atomically}
use better_auth_go.Store.Types.{Session}
use better_auth_go.Store.Queries.{new_row, rows_where, change, require}
use better_auth_go.TwoFactor.Config.{is_none}
use better_auth_go.TwoFactor.Records.{TwoFactorRecord, model_two_factor}
use better_auth_go.TwoFactor.Challenges.{
  Env, ignoring, verification_trusted, verification_where, verification_value, find_two_factor,
  audit,
}
use better_auth_go.Schema.{model_verification}
use better_auth_go.TwoFactor.Lockout.{internal_error, invalid_factor, failing_as}
use better_auth_go.TwoFactor.Verify.{Services, sealed, issue}
use better_auth_go.TwoFactor.Passwords.{of_user, require_password, generate_backup_codes}

-- a request of a user who is signed in, with its draws
pub record Setup : Type 0 where
  pub user_id : String
  pub password : String
  pub method : String
  pub trusted_cookie : Option String
  pub ids : ℕ → Result String
  pub tokens : ℕ → Result String

pub data Enabled : Type 0 where
  with_totp : String → List String → Session → Enabled
  with_otp : Session → Enabled

abbrev pub already_enabled : Error
already_enabled = failure "TOTP is already enabled"

module _ (env : Env) (services : Services) where
  abbrev verified_refused : Value → Action Rows (Unit {0})
  verified_refused (flag false) = pure tt
  verified_refused _ = throw already_enabled

  -- a verified authenticator is not replaced
  unfoldable pub refuse_verified : Option Record → Action Rows (Unit {0})
  refuse_verified none = pure tt
  refuse_verified (some row) = verified_refused (field row "verified")

  abbrev pub two_factor_row : String → String → String → String → Bool → Record
  two_factor_row id user secret codes verified =
      ("id", text id)
      ∷ ("userId", text user)
      ∷ ("secret", text secret)
      ∷ ("backupCodes", text codes)
      ∷ ("verified", flag verified)
      ∷ ("failedVerificationCount", scalar (float64 (pos 0)))
      ∷ ("lockedUntil", nil)
      ∷ ("createdAt", instant env.now)
      ∷ ("updatedAt", instant env.now)
      ∷ []

  -- the update of `twoFactorEnabled` on the user's row, which must be there
  unfoldable pub mark_user : String → Bool → Action Rows (Unit {0})
  mark_user user enabled = do
    updated ← update env.adapter (
        change model_user (equals "id" (text user) ∷ [])
          (("twoFactorEnabled", flag enabled) ∷ ("updatedAt", instant env.now) ∷ []))
    row ← require not_found updated
    pure tt

  -- what the transaction of enable does where verification is skipped
  unfoldable pub announce_enabled : Setup → Action Rows (Unit {0})
  announce_enabled setup =
      if env.config.skip_verification_on_enable
      then (do
        marked ← mark_user setup.user_id true
        audit env (setup.ids 1) "two_factor.enabled" setup.user_id
            (("factor", str "totp") ∷ ("verificationSkipped", bool true) ∷ []))
      else pure tt

  -- the transaction of enable
  unfoldable pub enroll : Setup → String → String → String → Action Rows (Unit {0})
  enroll setup id secret codes = atomically (do
    existing ← find_one env.adapter (record {
      model = model_two_factor;
      predicate = of_user setup.user_id;
      select = "verified" ∷ [];
      joins = [];
    })
    allowed ← refuse_verified existing
    deleted ← delete_many env.adapter (rows_where model_two_factor (of_user setup.user_id))
    row ← create env.adapter (
        new_row model_two_factor
          (two_factor_row id setup.user_id secret codes env.config.skip_verification_on_enable))
    announced ← announce_enabled setup
    audit env (setup.ids 2) "two_factor.backup_codes.generated" setup.user_id
        (("reason", str "enrollment") ∷ []))

  -- errors.Is(err, errTOTPAlreadyEnabled)
  abbrev enroll_error : Error → Error
  enroll_error (failure message) =
      if message == "TOTP is already enabled" then already_enabled else internal_error
  enroll_error e = internal_error

  unfoldable pub enrolled : String → List String → Setup → Result (Unit {0}) → Action Rows Enabled
  enrolled secret codes setup (err e) = throw (enroll_error e)
  enrolled secret codes setup (ok u) = do
    session ← issue env services setup.user_id
    pure (with_totp secret codes session)

  unfoldable pub enable_totp : Setup → Action Rows Enabled
  enable_totp setup =
      if env.config.disable_totp then throw (failure "TOTP is not configured.") else (do
        raw ← failing_as internal_error (lift (setup.tokens 0))
        let secret = services.base32_encode raw
        sealed_secret ← failing_as internal_error (lift (sealed env.config.cipher secret))
        (codes, sealed_codes) ←
            failing_as internal_error (generate_backup_codes env services setup.tokens)
        id ← failing_as internal_error (lift (setup.ids 0))
        with_result (enroll setup id sealed_secret sealed_codes) (enrolled secret codes setup))

  -- enableOTP
  unfoldable pub enable_otp : Setup → Action Rows Enabled
  enable_otp setup =
      if is_none env.config.deliver_otp then throw (failure "OTP is not configured.") else (do
        announced ← failing_as internal_error (
            atomically (do
              marked ← mark_user setup.user_id true
              audit env (setup.ids 1) "two_factor.enabled" setup.user_id
                  (("factor", str "otp") ∷ [])))
        session ← issue env services setup.user_id
        pure (with_otp session))

  -- enable
  unfoldable pub enable : Setup → Action Rows Enabled
  enable setup = do
    checked ← require_password env services setup.user_id setup.password
    if setup.method == "otp" then enable_otp setup else enable_totp setup

  -- the ConsumeOne call of disable on the trusted device of the cookie
  unfoldable pub drop_trusted : Option String → Action Rows (Unit {0})
  drop_trusted none = pure tt
  drop_trusted (some raw) = ignoring (
      consume_one env.adapter (
        rows_where model_verification
          (verification_where verification_trusted (verification_value env "trusted" raw))))

  -- disable
  unfoldable pub disable : Setup → Action Rows Session
  disable setup = do
    checked ← require_password env services setup.user_id setup.password
    removed ← failing_as internal_error (
        atomically (do
          marked ← mark_user setup.user_id false
          deleted ← delete_many env.adapter (rows_where model_two_factor (of_user setup.user_id))
          audit env (setup.ids 1) "two_factor.disabled" setup.user_id []))
    dropped ← drop_trusted setup.trusted_cookie
    issue env services setup.user_id

  unfoldable pub require_verified : TwoFactorRecord → Action Rows (Unit {0})
  require_verified r = if r.verified then pure tt else throw not_found

  -- regenerateBackupCodes
  unfoldable pub regenerate_backup_codes : Setup → Action Rows (List String × Session)
  regenerate_backup_codes setup = do
    checked ← require_password env services setup.user_id setup.password
    r ← failing_as invalid_factor (do
      found ← find_two_factor env setup.user_id
      verified ← require_verified found
      pure found)
    (codes, encoded) ← failing_as internal_error (generate_backup_codes env services setup.tokens)
    stored ← failing_as (failure "Backup codes changed concurrently.") (
        atomically (do
          updated ← update env.adapter (
              change model_two_factor
                (equals "id" (text r.id) ∷ equals "backupCodes" (text r.backup_codes) ∷ [])
                (("backupCodes", text encoded) ∷ ("updatedAt", instant env.now) ∷ []))
          row ← require conflict updated
          audit env (setup.ids 1) "two_factor.backup_codes.generated" setup.user_id
              (("reason", str "regeneration") ∷ [])))
    session ← issue env services setup.user_id
    pure (codes, session)
