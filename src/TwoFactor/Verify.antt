-- ===== src/TwoFactor/Verify.antt =====
-- plugin/twofactor/plugin.go: the steps that the checks of a second factor share. A request's body and cookies are read
-- beforehand, into `Request`. The session that the server issues, and cookies on the response, are the server's:
-- `issue_session` stands for HookContext.IssueSession.
use Prim.Native.String.{◌++◌ as append_text}
use better_auth_go.Prelude.{
  ℕ, ◌+◌, String, Bool, true, false, not, ◌&&◌, List, [], ◌∷◌, Option, none, some, ◌==◌,
  if◌then◌else◌,
}
use better_auth_go.Prelude.Int.{pos, pos_part}
use better_auth_go.Action.{
  Error, not_found, conflict, failure, Result, ok, err, Action, pure, throw, lift, ◌>>=◌,
  with_result,
}
use better_auth_go.Value.{str, text, flag, instant, field}
use better_auth_go.Database.{equals}
use better_auth_go.Schema.{model_user}
use better_auth_go.Memory.Table.{Rows}
use better_auth_go.Memory.Methods.{find_one, update}
use better_auth_go.Memory.Transactions.{atomically}
use better_auth_go.Store.Types.{User, Session}
use better_auth_go.Store.Queries.{change, one_row, require}
use better_auth_go.Store.Records.{optional_string, optional_bool}
use better_auth_go.TwoFactor.Config.{Cipher}
use better_auth_go.TwoFactor.Totp.{Primitives}
use better_auth_go.TwoFactor.Records.{
  TwoFactorRecord, VerificationMetadata, model_two_factor, parse_metadata, time_value,
}
use better_auth_go.TwoFactor.Challenges.{
  Env, verification_pending, verification_trusted, verification_value, find_two_factor,
  create_verification, consume_verification, find_verification, begin_attempt, audit,
}
use better_auth_go.TwoFactor.Lockout.{
  VerificationState, internal_error, invalid_factor, invalid_challenge, too_many_attempts,
  failing_as, assert_not_locked, reset_failures, restore_attempt,
}

-- what a handler reads of its request, and its draws of ids and tokens
pub record Request : Type 0 where
  -- the ids of the user and of the session, where one is signed in
  pub session : Option (String × String)
  pub pending_cookie : Option String
  pub code : String
  pub trust_device : Bool
  pub disable_session : Bool
  pub ids : ℕ → Result String
  pub tokens : ℕ → Result String

-- the response: the session issued, with the value of a new trusted-device cookie
pub data Outcome : Type 0 where
  verified_user : User → Outcome
  confirmed : Option Session → Outcome
  signed_in : Session → Option String → Outcome

-- the code of other parts of the server and of the application
pub record Services : Type 0 where
  pub primitives : Primitives
  pub to_lower : String → String
  -- json.Marshal and json.Unmarshal of a []string
  pub marshal : List String → String
  pub unmarshal : String → Option (List String)
  pub issue_session : Option (String → Action Rows Session)
  -- Passwords.Verify: whether the password is right, and the hash that replaces the old one, or ""
  pub verify_password : String → String → Result (Bool × String)
  -- base32 encoding without padding
  pub base32_encode : String → String
  -- the bytes of HashToken as an integer
  pub hash_number : String → ℕ

abbrev no_metadata : VerificationMetadata
no_metadata = record { user_id = ""; attempts = pos 0; code_hash = "" }

abbrev pub opened : Option Cipher → String → Result String
opened none s = err (failure "nil pointer dereference")
opened (some c) s = c.unseal s

abbrev pub sealed : Option Cipher → String → Result String
sealed none s = err (failure "nil pointer dereference")
sealed (some c) s = c.seal s

module _ (env : Env) where
  -- findPublicUser
  unfoldable pub find_public_user : String → Action Rows User
  find_public_user user = do
    found ← find_one env.adapter (one_row model_user (equals "id" (text user) ∷ []))
    row ← require not_found found
    created ← lift (time_value env.parse_time (field row "createdAt"))
    updated ← lift (time_value env.parse_time (field row "updatedAt"))
    pure (record {
      id = optional_string (field row "id");
      email = optional_string (field row "email");
      name = optional_string (field row "name");
      image_url = optional_string (field row "image");
      email_verified = optional_bool (field row "emailVerified");
      created_at = created;
      updated_at = updated;
      disabled_at = none;
    })

  -- verificationState, on the metadata of the pending record
  unfoldable pub pending_state :
      Bool → String → VerificationMetadata → Action Rows VerificationState
  pending_state spend handle m =
      if m.user_id == ""
      then throw invalid_challenge
      else if spend
      then (do
        (attempt, expires) ← failing_as too_many_attempts (begin_attempt env handle)
        pure (record {
          user_id = m.user_id;
          key = handle;
          pending = true;
          attempt = attempt;
          attempt_expiry = expires;
        }))
      else pure (record {
        user_id = m.user_id;
        key = handle;
        pending = true;
        attempt = no_metadata;
        attempt_expiry = 0;
      })

  unfoldable pub challenge_state : Bool → String → Action Rows VerificationState
  challenge_state spend handle = do
    m ← failing_as invalid_challenge (do
      row ← find_verification env verification_pending (verification_value env "pending" handle)
      lift (parse_metadata row))
    pending_state spend handle m

  -- verificationState
  unfoldable pub verification_state :
      Bool → Option (String × String) → Option String → Action Rows VerificationState
  verification_state spend (some (user, session)) cookie = pure (record {
    user_id = user;
    key = append_text user (append_text "!" session);
    pending = false;
    attempt = no_metadata;
    attempt_expiry = 0;
  })
  verification_state spend none none = throw invalid_challenge
  verification_state spend none (some handle) = challenge_state spend handle

  -- an early return after which the attempt is given back
  unfoldable pub restoring : {A : Type 0} → Request → VerificationState → Error → Action Rows A
  restoring request state e = do restored ← restore_attempt env (request.ids 0) state; throw e

  unfoldable pub unlocked_record :
      Request
      → VerificationState
      → TwoFactorRecord
      → Result (Unit {0})
      → Action Rows TwoFactorRecord
  unlocked_record request state r (ok u) = pure r
  unlocked_record request state r (err e) = restoring request state e

  unfoldable pub found_record :
      Request → VerificationState → Result TwoFactorRecord → Action Rows TwoFactorRecord
  found_record request state (err e) = restoring request state invalid_factor
  found_record request state (ok r) =
      if state.pending && not r.verified
      then restoring request state invalid_factor
      else with_result (assert_not_locked env r state.pending) (unlocked_record request state r)

  -- the record of the user, which a challenge needs verified, and its lock
  unfoldable pub checked_record : Request → VerificationState → Action Rows TwoFactorRecord
  checked_record request state =
      with_result (find_two_factor env state.user_id) (found_record request state)

  -- completeEnrollment
  unfoldable pub complete_enrollment : Request → TwoFactorRecord → Action Rows (Unit {0})
  complete_enrollment request r = failing_as internal_error (
      atomically (do
        updated ← update env.adapter (
            change model_two_factor (equals "id" (text r.id) ∷ equals "verified" (flag false) ∷ [])
              (("verified", flag true) ∷ ("updatedAt", instant env.now) ∷ []))
        row ← require conflict updated
        user ← update env.adapter (
            change model_user (equals "id" (text r.user_id) ∷ [])
              (("twoFactorEnabled", flag true) ∷ ("updatedAt", instant env.now) ∷ []))
        found ← require not_found user
        audit env (request.ids 2) "two_factor.enabled" r.user_id (("factor", str "totp") ∷ [])))

  -- createTrustedDevice: the value of the cookie
  unfoldable pub create_trusted_device :
      Result String → Result String → Result String → String → Action Rows String
  create_trusted_device token id audited user = do
    raw ← lift token
    created ←
        create_verification env id verification_trusted (verification_value env "trusted" raw)
          (env.now + pos_part env.config.trusted_device_ttl)
          (record { user_id = user; attempts = pos 0; code_hash = "" })
    logged ← audit env audited "two_factor.trusted_device.created" user []
    pure raw

  -- the first block of completeVerification: the pending record is consumed
  unfoldable pub redeem_challenge : VerificationState → Action Rows (Unit {0})
  redeem_challenge state =
      if state.pending
      then failing_as invalid_challenge (do
        row ←
            consume_verification env verification_pending
              (verification_value env "pending" state.key)
        m ← lift (parse_metadata row)
        if m.user_id == state.user_id then pure tt else throw not_found)
      else pure tt

  module _ (services : Services) where
    -- context.IssueSession
    unfoldable pub issue : String → Action Rows Session
    issue user = elim services.issue_session [
      | none ↦ throw internal_error
      | some run ↦ failing_as internal_error (run user)
    ]

    -- completeVerification, for a challenge that ends in a session
    unfoldable pub sign_in : Request → String → VerificationState → Action Rows Outcome
    sign_in request factor state = do
      session ← issue state.user_id
      trusted ←
          if request.trust_device
          then (do
            raw ← failing_as internal_error (
                create_trusted_device (request.tokens 0) (request.ids 4) (request.ids 5)
                  state.user_id)
            pure (some raw))
          else pure none
      logged ← failing_as internal_error (
          audit env (request.ids 6) "two_factor.sign_in.verified" state.user_id
            (("factor", str factor) ∷ []))
      pure (signed_in session trusted)

    -- completeVerification
    unfoldable pub complete_verification :
        Request → VerificationState → TwoFactorRecord → String → Bool → Action Rows Outcome
    complete_verification request state r factor disable_session = do
      redeemed ← redeem_challenge state
      reset ← failing_as internal_error (reset_failures env r)
      if not state.pending
          then (if r.verified
              then pure (confirmed none)
              else (do session ← issue state.user_id; pure (confirmed (some session))))
          else if disable_session
          then (do
            user ← failing_as internal_error (find_public_user state.user_id)
            pure (verified_user user))
          else sign_in request factor state
