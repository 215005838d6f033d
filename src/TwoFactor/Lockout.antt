-- ===== src/TwoFactor/Lockout.antt =====
-- plugin/twofactor/plugin.go: what a wrong factor costs, and the lock of an account.
use better_auth_go.Prelude.{
  ℕ, ◌+◌, String, Bool, not, ◌&&◌, [], ◌∷◌, Option, none, some, ltb, if◌then◌else◌,
}
use better_auth_go.Prelude.Int.{pos, ◌+ℤ◌, pos_part}
use better_auth_go.Action.{
  Error, not_found, failure, Result, ok, err, Action, pure, throw, lift, ◌>>=◌,
}
use better_auth_go.Value.{Record, text, instant, nil, field, str, scalar, float64}
use better_auth_go.Database.{equals, operator_on, lte}
use better_auth_go.Memory.Table.{Rows}
use better_auth_go.Memory.Methods.{update, increment_one}
use better_auth_go.Store.Queries.{change, require}
use better_auth_go.TwoFactor.Config.{below}
use better_auth_go.TwoFactor.Records.{
  TwoFactorRecord, VerificationMetadata, model_two_factor, integer_value,
}
use better_auth_go.TwoFactor.Challenges.{Env, drop_pending, rearm_attempt, audit}

pub record VerificationState : Type 0 where
  pub user_id : String
  pub key : String
  pub pending : Bool
  pub attempt : VerificationMetadata
  pub attempt_expiry : ℕ

-- the errors that a handler returns to the client
abbrev pub internal_error : Error
internal_error = failure "The request could not be completed."

abbrev pub invalid_factor : Error
invalid_factor = failure "Invalid two-factor code."

abbrev pub invalid_challenge : Error
invalid_challenge = failure "Invalid two-factor challenge."

abbrev pub too_many_attempts : Error
too_many_attempts = failure "Too many verification attempts."

abbrev replaced {ℓ} : {A : Type ℓ} → Error → Result A → Result A
replaced e (ok a) = ok a
replaced e (err x) = err e

-- `if err != nil { return e }`
unfoldable pub failing_as : {S A : Type 0} → Error → Action S A → Action S A
failing_as e m s = (replaced e (m s).0, (m s).1)

module _ (env : Env) where
  -- the update that forgets an account's failures
  abbrev cleared : Record
  cleared =
      ("failedVerificationCount", scalar (float64 (pos 0)))
      ∷ ("lockedUntil", nil)
      ∷ ("updatedAt", instant env.now)
      ∷ []

  unfoldable pub release_lock : TwoFactorRecord → ℕ → Action Rows (Unit {0})
  release_lock r until = if ltb env.now until then throw too_many_attempts else (do
    row ← update env.adapter (
        change model_two_factor
          (equals "id" (text r.id) ∷ operator_on "lockedUntil" lte (instant env.now) ∷ []) cleared)
    pure tt)

  unfoldable pub held_lock : TwoFactorRecord → Bool → Option ℕ → Action Rows (Unit {0})
  held_lock r pending none = pure tt
  held_lock r pending (some until) = if not pending then pure tt else release_lock r until

  -- assertNotLocked
  unfoldable pub assert_not_locked : TwoFactorRecord → Bool → Action Rows (Unit {0})
  assert_not_locked r pending = held_lock r pending r.locked_until

  -- recordFailure, once the account has failed too often
  unfoldable pub lock_account : Result String → TwoFactorRecord → Action Rows (Unit {0})
  lock_account drawn r = do
    let until = env.now + pos_part env.config.account_lockout_duration
    row ← update env.adapter (
        change model_two_factor (equals "id" (text r.id) ∷ [])
          (("lockedUntil", instant until) ∷ ("updatedAt", instant env.now) ∷ []))
    audit env drawn "two_factor.account.locked" r.user_id
        (("until", str (env.format_time until)) ∷ [])

  -- recordFailure
  unfoldable pub record_failure : Result String → TwoFactorRecord → Action Rows (Unit {0})
  record_failure drawn r = do
    found ← increment_one env.adapter (record {
      model = model_two_factor;
      predicate = equals "id" (text r.id) ∷ [];
      increment = ("failedVerificationCount", pos 1) ∷ [];
      set = ("updatedAt", instant env.now) ∷ [];
    })
    row ← require not_found found
    count ← lift (integer_value (field row "failedVerificationCount"))
    if below (pos count) env.config.account_max_failed_attempts
        then pure tt
        else lock_account drawn r

  -- resetFailures
  unfoldable pub reset_failures : TwoFactorRecord → Action Rows (Unit {0})
  reset_failures r = do
    row ← update env.adapter (change model_two_factor (equals "id" (text r.id) ∷ []) cleared)
    pure tt

  -- restoreAttempt
  unfoldable pub restore_attempt : Result String → VerificationState → Action Rows (Unit {0})
  restore_attempt drawn state =
      if state.pending && ltb 0 state.attempt_expiry
      then rearm_attempt env drawn state.key state.attempt state.attempt_expiry
      else pure tt

  -- state.Attempt.Attempts++
  abbrev pub counted_attempt : VerificationMetadata → VerificationMetadata
  counted_attempt m = record m { attempts = m.attempts +ℤ pos 1 }

  -- the first part of failedFactor: the challenge is armed again, or is over
  unfoldable pub charge_attempt : Result String → VerificationState → Action Rows (Unit {0})
  charge_attempt drawn state =
      let m = counted_attempt state.attempt in
      if below m.attempts env.config.challenge_max_attempts
      then rearm_attempt env drawn state.key m state.attempt_expiry
      else drop_pending env state.key

  -- failedFactor, whose result is always an error
  unfoldable pub failed_factor :
      {A : Type 0}
      → Result String
      → Result String
      → VerificationState
      → TwoFactorRecord
      → Action Rows A
  failed_factor drawn audited state r =
      if state.pending
      then (do
        charged ← charge_attempt drawn state
        recorded ← failing_as internal_error (record_failure audited r)
        throw invalid_factor)
      else throw invalid_factor
