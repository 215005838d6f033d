-- ===== src/TwoFactor/SignIn.antt =====
-- plugin/twofactor/plugin.go: the challenge that follows a password sign-in (interceptCredentialSignIn), the trusted
-- device that answers it, and the delivery of a code (sendOTP). The response of the sign-in has been read: the id of its
-- user, the raw session token of its cookie, and the value of the trusted-device cookie.
use Prim.Native.Nat.{◌%◌}
use better_auth_go.Prelude.{
  ℕ, ◌+◌, String, Bool, false, not, ◌&&◌, List, [], ◌∷◌, ◌++◌, Option, none, some, ◌==◌,
  if◌then◌else◌,
}
use better_auth_go.Prelude.Int.{pos, pos_part}
use better_auth_go.Action.{
  not_found, replay, failure, Result, ok, err, Action, pure, throw, lift, ◌>>=◌, with_result,
}
use better_auth_go.Value.{text, instant, nil, field}
use better_auth_go.Database.{equals}
use better_auth_go.Schema.{model_user, model_session, model_verification}
use better_auth_go.Memory.Table.{Rows}
use better_auth_go.Memory.Methods.{find_one, update, delete_many}
use better_auth_go.Memory.Transactions.{atomically}
use better_auth_go.Store.Types.{User}
use better_auth_go.Store.Queries.{change, rows_where, require}
use better_auth_go.Decimal.{zero_padded}
use better_auth_go.TwoFactor.Config.{OtpDelivery, is_none}
use better_auth_go.TwoFactor.Records.{
  TwoFactorRecord, VerificationMetadata, parse_metadata, true_flag,
}
use better_auth_go.TwoFactor.Challenges.{
  Env, verification_pending, verification_attempts, verification_otp, verification_trusted,
  verification_where, ignoring, verification_value, find_two_factor, create_verification,
  consume_verification,
}
use better_auth_go.TwoFactor.Lockout.{
  VerificationState, internal_error, invalid_factor, failing_as, assert_not_locked,
}
use better_auth_go.TwoFactor.Verify.{
  Request, Services, verification_state, find_public_user, create_trusted_device,
}

pub record Login : Type 0 where
  pub user_id : String
  pub raw_session : Option String
  pub trusted_cookie : Option String
  pub ids : ℕ → Result String
  pub tokens : ℕ → Result String

pub data Intercepted : Type 0 where
  -- the sign-in goes on, with a new value for the trusted-device cookie where the device was trusted
  signed_in : Option String → Intercepted
  -- the session is revoked, and a challenge with this handle and these methods takes its place
  challenged : String → List String → Intercepted

abbrev user_only : String → VerificationMetadata
user_only user = record { user_id = user; attempts = pos 0; code_hash = "" }

module _ (env : Env) where
  -- the row `twoFactorEnabled` of a user
  unfoldable pub user_enabled : String → Action Rows Bool
  user_enabled user = do
    row ← find_one env.adapter (record {
      model = model_user;
      predicate = equals "id" (text user) ∷ [];
      select = "twoFactorEnabled" ∷ [];
      joins = [];
    })
    pure (elim row [ none ↦ false | some r ↦ true_flag (field r "twoFactorEnabled") ])

  -- recordErr == nil && record.Verified && !instance.config.DisableTOTP
  unfoldable pub has_totp : Result TwoFactorRecord → Bool
  has_totp (err e) = false
  has_totp (ok r) = r.verified && not env.config.disable_totp

  -- acceptTrustedDevice on the metadata of the consumed record
  unfoldable pub renew_device : Login → VerificationMetadata → Action Rows (Option String)
  renew_device login m =
      if m.user_id == login.user_id
      then (do
        raw ← create_trusted_device env (login.tokens 0) (login.ids 0) (login.ids 1) login.user_id
        pure (some raw))
      else pure none

  abbrev none_on_error : Result (Option String) → Action Rows (Option String)
  none_on_error (ok o) = pure o
  none_on_error (err e) = pure none

  -- acceptTrustedDevice: the new value of the cookie, or none where the device is not trusted
  unfoldable pub accept_trusted_device : Login → Option String → Action Rows (Option String)
  accept_trusted_device login none = pure none
  accept_trusted_device login (some raw) =
      with_result
        (do
          row ← consume_verification env verification_trusted (verification_value env "trusted" raw)
          m ← lift (parse_metadata row)
          renew_device login m)
        none_on_error

  -- the transaction of interceptCredentialSignIn
  unfoldable pub open_challenge : Login → String → String → Action Rows (Unit {0})
  open_challenge login raw_session handle =
      let expires = env.now + pos_part env.config.pending_ttl in
      atomically (do
        pending ←
            create_verification env (login.ids 2) verification_pending
              (verification_value env "pending" handle) expires (user_only login.user_id)
        attempts ←
            create_verification env (login.ids 3) verification_attempts
              (verification_value env "attempt" handle) expires (user_only login.user_id)
        revoked ← update env.adapter (
            change model_session
              (equals "tokenHash" (text (env.hash raw_session)) ∷ equals "revokedAt" nil ∷ [])
              (("revokedAt", instant env.now) ∷ ("updatedAt", instant env.now) ∷ []))
        row ← require replay revoked
        pure tt)

  abbrev methods_of : Bool → Bool → List String
  methods_of totp otp = (if totp then "totp" ∷ [] else []) ++ (if otp then "otp" ∷ [] else [])

  -- the rest of interceptCredentialSignIn where the device is not trusted
  unfoldable pub challenge : Login → Bool → Option String → Action Rows Intercepted
  challenge login totp (some raw) = pure (signed_in (some raw))
  challenge login totp none = do
    raw ← require not_found login.raw_session
    handle ← lift (login.tokens 1)
    opened ← open_challenge login raw handle
    pure (challenged handle (methods_of totp (not (is_none env.config.deliver_otp))))

  unfoldable pub second_factor : Login → Bool → Action Rows Intercepted
  second_factor login totp =
      if not totp && is_none env.config.deliver_otp
      then throw (failure "twofactor: enabled user has no verified configuration")
      else (do
        trusted ← accept_trusted_device login login.trusted_cookie
        challenge login totp trusted)

  -- interceptCredentialSignIn
  unfoldable pub intercept_sign_in : Login → Action Rows Intercepted
  intercept_sign_in login = do
    enabled ← user_enabled login.user_id
    if not enabled
        then pure (signed_in none)
        else with_result (find_two_factor env login.user_id) (λ r. second_factor login (has_totp r))

  -- numericCode
  unfoldable pub numeric_code : Services → Result String → Result String
  numeric_code services (err e) = err e
  numeric_code services (ok raw) = ok (zero_padded 6 (services.hash_number raw % 1000000))

  abbrev drop_otp : String → Action Rows (Unit {0})
  drop_otp value = ignoring (
      delete_many env.adapter
        (rows_where model_verification (verification_where verification_otp value)))

  abbrev delivered : Option OtpDelivery → User → String → Result (Unit {0})
  delivered none user code = err (failure "nil pointer dereference")
  delivered (some deliver) user code = deliver user code

  unfoldable pub otp_sent : String → Result (Unit {0}) → Action Rows (Unit {0})
  otp_sent value (ok u) = pure tt
  otp_sent value (err e) = do dropped ← drop_otp value; throw internal_error

  -- sendOTP, once the user and the code are there
  unfoldable pub store_and_send :
      Request → VerificationState → User → String → Action Rows (Unit {0})
  store_and_send request state user code = do
    let value = verification_value env "otp" state.key
    dropped ← drop_otp value
    stored ← failing_as internal_error (
        create_verification env (request.ids 0) verification_otp value
          (env.now + pos_part env.config.otp_ttl)
          (record { user_id = state.user_id; attempts = pos 0; code_hash = env.hash code }))
    otp_sent value (delivered env.config.deliver_otp user code)

  -- the record that sendOTP needs
  unfoldable pub otp_record :
      VerificationState → Result TwoFactorRecord → Action Rows TwoFactorRecord
  otp_record state (err e) = throw invalid_factor
  otp_record state (ok r) = if state.pending && not r.verified then throw invalid_factor else pure r

  -- sendOTP
  unfoldable pub send_otp : Services → Request → Action Rows (Unit {0})
  send_otp services request =
      if is_none env.config.deliver_otp then throw (failure "OTP is not enabled.") else (do
        state ← verification_state env false request.session request.pending_cookie
        r ← with_result (find_two_factor env state.user_id) (otp_record state)
        unlocked ← assert_not_locked env r state.pending
        user ← failing_as internal_error (find_public_user env state.user_id)
        code ← failing_as internal_error (lift (numeric_code services (request.tokens 0)))
        store_and_send request state user code)
