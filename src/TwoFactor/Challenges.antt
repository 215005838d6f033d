-- ===== src/TwoFactor/Challenges.antt =====
-- plugin/twofactor/storage.go: the verification records of a challenge, and the count of its attempts.
-- What the server and the application supply is in `Env`. A random source may fail: the result of a draw is an argument.
use Prim.Native.String.{◌++◌ as append_text}
use better_auth_go.Prelude.{ℕ, String, not, List, [], ◌∷◌, Assoc, if◌then◌else◌}
use better_auth_go.Prelude.Int.{pos}
use better_auth_go.Action.{not_found, replay, Result, ok, err, Action, pure, throw, lift, ◌>>=◌}
use better_auth_go.Value.{Scalar, Record, text, instant, field, any_map, scalar, float64}
use better_auth_go.Database.{Where, equals}
use better_auth_go.Schema.{model_verification, model_audit_event}
use better_auth_go.Memory.Table.{Adapter, Rows}
use better_auth_go.Memory.Methods.{create, find_one, consume_one}
use better_auth_go.Store.Queries.{new_row, one_row, rows_where, live_token, require}
use better_auth_go.TwoFactor.Config.{Config, below}
use better_auth_go.TwoFactor.Records.{
  TwoFactorRecord, VerificationMetadata, model_two_factor, metadata_value, parse_metadata,
  time_value, two_factor_from_record,
}

-- HookContext and the runtime's configuration. `now` is what the clock reads throughout a request.
pub record Env : Type 0 where
  pub config : Config
  pub adapter : Adapter
  pub now : ℕ
  -- HashToken (token.go)
  pub hash : String → String
  pub parse_time : String → Result ℕ
  -- time.RFC3339
  pub format_time : ℕ → String
  -- requestDetails, and the session of the request or ""
  pub request : Assoc Scalar
  pub session_id : String

abbrev pub verification_pending : String
verification_pending = "two_factor_pending"

abbrev pub verification_attempts : String
verification_attempts = "two_factor_attempts"

abbrev pub verification_otp : String
verification_otp = "two_factor_otp"

abbrev pub verification_trusted : String
verification_trusted = "two_factor_trusted_device"

-- an action whose result and error are dropped
unfoldable pub ignoring : {S A : Type 0} → Action S A → Action S (Unit {0})
ignoring m s = (ok tt, (m s).1)

-- where identifier = x and value = y
abbrev pub verification_where : String → String → List Where
verification_where identifier value =
    equals "identifier" (text identifier) ∷ equals "value" (text value) ∷ []

module _ (env : Env) where
  -- verificationValue
  unfoldable pub verification_value : String → String → String
  verification_value prefix raw = env.hash (append_text prefix (append_text ":" raw))

  -- findTwoFactor
  unfoldable pub find_two_factor : String → Action Rows TwoFactorRecord
  find_two_factor user = do
    found ← find_one env.adapter (one_row model_two_factor (equals "userId" (text user) ∷ []))
    row ← require not_found found
    lift (two_factor_from_record env.parse_time row)

  abbrev pub verification_row : String → String → String → ℕ → VerificationMetadata → Record
  verification_row id identifier value expires m =
      ("id", text id)
      ∷ ("identifier", text identifier)
      ∷ ("value", text value)
      ∷ ("expiresAt", instant expires)
      ∷ ("createdAt", instant env.now)
      ∷ ("metadata", metadata_value m)
      ∷ []

  -- createVerification
  unfoldable pub create_verification :
      Result String → String → String → ℕ → VerificationMetadata → Action Rows (Unit {0})
  create_verification drawn identifier value expires m = do
    id ← lift drawn
    row ←
        create env.adapter
          (new_row model_verification (verification_row id identifier value expires m))
    pure tt

  -- consumeVerification
  unfoldable pub consume_verification : String → String → Action Rows Record
  consume_verification identifier value = do
    found ← consume_one env.adapter (
        rows_where model_verification
          (live_token (equals "identifier" (text identifier)) value (instant env.now)))
    require not_found found

  -- findVerification
  unfoldable pub find_verification : String → String → Action Rows Record
  find_verification identifier value = do
    found ← find_one env.adapter (
        one_row model_verification
          (live_token (equals "identifier" (text identifier)) value (instant env.now)))
    require not_found found

  -- the ConsumeOne call on the pending record of a handle, whose result is not used
  unfoldable pub drop_pending : String → Action Rows (Unit {0})
  drop_pending handle = ignoring (
      consume_one env.adapter (
        rows_where model_verification
          (verification_where verification_pending (verification_value "pending" handle))))

  -- beginAttempt, after the attempts record has been consumed
  unfoldable pub admit_attempt :
      String → Record → Result VerificationMetadata → Action Rows (VerificationMetadata × ℕ)
  admit_attempt handle row (err e) = do dropped ← drop_pending handle; throw replay
  admit_attempt handle row (ok m) =
      if not (below m.attempts env.config.challenge_max_attempts)
      then (do dropped ← drop_pending handle; throw replay)
      else (do
        expires ← lift (time_value env.parse_time (field row "expiresAt"))
        pure (m, expires))

  -- beginAttempt
  unfoldable pub begin_attempt : String → Action Rows (VerificationMetadata × ℕ)
  begin_attempt handle = do
    row ← consume_verification verification_attempts (verification_value "attempt" handle)
    admit_attempt handle row (parse_metadata row)

  -- rearmAttempt
  unfoldable pub rearm_attempt :
      Result String → String → VerificationMetadata → ℕ → Action Rows (Unit {0})
  rearm_attempt drawn handle m expires = ignoring (
      create_verification drawn verification_attempts (verification_value "attempt" handle) expires
        m)

  -- audit
  unfoldable pub audit : Result String → String → String → Assoc Scalar → Action Rows (Unit {0})
  audit drawn action user details = do
    id ← lift drawn
    row ← create env.adapter (
        new_row model_audit_event (
          ("id", text id)
          ∷ ("schemaVersion", scalar (float64 (pos 1)))
          ∷ ("action", text action)
          ∷ ("actorUserId", text user)
          ∷ ("subjectUserId", text user)
          ∷ ("sessionId", text env.session_id)
          ∷ ("occurredAt", instant env.now)
          ∷ ("request", any_map env.request)
          ∷ ("details", any_map details)
          ∷ []))
    pure tt
