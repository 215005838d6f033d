-- ===== src/TwoFactor/Preserved.antt =====
-- What the steps of a challenge preserve: well-formed tables, and properties of the attempts record.
use better_auth_go.Prelude.{ℕ, String, ◌≡◌, refl, lookup}
use better_auth_go.Prelude.Int.{pos, ◌+ℤ◌}
use better_auth_go.Action.{Error, Result, ok, err, Action}
use better_auth_go.Action.Preserves.{
  Preserves, if-Preserves, bind-Preserves, throw-Preserves, pure-Preserves,
}
use better_auth_go.Value.{Record, Scalar, field}
use better_auth_go.Prelude.{Assoc}
use better_auth_go.Schema.{model_verification}
use better_auth_go.Memory.Table.{Rows, Table}
use better_auth_go.Memory.WellFormed.{WellFormed}
use better_auth_go.Memory.Each.{IsAt-Each, create-Each, consume_one-Each}
use better_auth_go.Memory.Untouched.{IsAt, create-IsAt, update-IsAt, increment_one-IsAt}
use better_auth_go.Memory.Increment.{increment_one-WellFormed}
use better_auth_go.Store.Invariant.Rules.{store_rules}
use better_auth_go.TwoFactor.Records.{TwoFactorRecord, VerificationMetadata, parse_metadata}
use better_auth_go.TwoFactor.Metadata.{metadata_of_value-metadata_value}
use better_auth_go.TwoFactor.Challenges.{
  Env, verification_attempts, verification_row, create_verification, consume_verification,
  drop_pending, admit_attempt, begin_attempt, rearm_attempt, ignoring, audit,
}
use better_auth_go.TwoFactor.Lockout.{
  VerificationState, charge_attempt, record_failure, lock_account, failed_factor, restore_attempt,
  failing_as,
}
use better_auth_go.TwoFactor.Attempts.{Tried, OfValue}

module _ {A : Type 0} {P : Rows → Type 0} where
  pub ignoring-Preserves : (m : Action Rows A) → Preserves P m → Preserves P (ignoring m)
  unfolding ignoring
  ignoring-Preserves m p = record { after = p.after }

  pub failing_as-Preserves :
      (e : Error) (m : Action Rows A) → Preserves P m → Preserves P (failing_as e m)
  unfolding failing_as
  failing_as-Preserves e m p = record { after = p.after }

pub ruleset step_rules =
    (store_rules, ignoring-Preserves, failing_as-Preserves, increment_one-WellFormed)

module _ (env : Env) where
  pub create_verification-WellFormed :
      (drawn : Result String) (identifier value : String) (expires : ℕ) (m : VerificationMetadata)
      → Preserves
          (WellFormed env.adapter)
          (create_verification env drawn identifier value expires m)
  unfolding create_verification
  create_verification-WellFormed drawn identifier value expires m = search step_rules

  drop_pending-WellFormed :
      (handle : String) → Preserves (WellFormed env.adapter) (drop_pending env handle)
  unfolding drop_pending
  drop_pending-WellFormed handle = search step_rules

  audit-WellFormed :
      (drawn : Result String) (action user : String) (details : Assoc Scalar)
      → Preserves (WellFormed env.adapter) (audit env drawn action user details)
  unfolding audit
  audit-WellFormed drawn action user details = search step_rules

  lock_account-WellFormed :
      (drawn : Result String) (r : TwoFactorRecord)
      → Preserves (WellFormed env.adapter) (lock_account env drawn r)
  unfolding lock_account
  lock_account-WellFormed drawn r = search (step_rules, audit-WellFormed)

  record_failure-WellFormed :
      (drawn : Result String) (r : TwoFactorRecord)
      → Preserves (WellFormed env.adapter) (record_failure env drawn r)
  unfolding record_failure
  record_failure-WellFormed drawn r = search (step_rules, lock_account-WellFormed)

  rearm_attempt-WellFormed :
      (drawn : Result String) (handle : String) (m : VerificationMetadata) (expires : ℕ)
      → Preserves (WellFormed env.adapter) (rearm_attempt env drawn handle m expires)
  unfolding rearm_attempt
  rearm_attempt-WellFormed drawn handle m expires =
      search (step_rules, create_verification-WellFormed)

  charge_attempt-WellFormed :
      (drawn : Result String) (state : VerificationState)
      → Preserves (WellFormed env.adapter) (charge_attempt env drawn state)
  unfolding charge_attempt
  charge_attempt-WellFormed drawn state =
      search (step_rules, rearm_attempt-WellFormed, drop_pending-WellFormed)

  pub failed_factor-WellFormed :
      {A : Type 0} (drawn audited : Result String) (state : VerificationState) (r : TwoFactorRecord)
      → Preserves (WellFormed env.adapter) (failed_factor env {A = A} drawn audited state r)
  unfolding failed_factor
  failed_factor-WellFormed drawn audited state r =
      search (step_rules, charge_attempt-WellFormed, record_failure-WellFormed)

  pub restore_attempt-WellFormed :
      (drawn : Result String) (state : VerificationState)
      → Preserves (WellFormed env.adapter) (restore_attempt env drawn state)
  unfolding restore_attempt
  restore_attempt-WellFormed drawn state = search (step_rules, rearm_attempt-WellFormed)

  pub consume_verification-WellFormed :
      (identifier value : String)
      → Preserves (WellFormed env.adapter) (consume_verification env identifier value)
  unfolding consume_verification
  consume_verification-WellFormed identifier value = search step_rules

  admit_attempt-WellFormed :
      (handle : String) (row : Record) (parsed : Result VerificationMetadata)
      → Preserves (WellFormed env.adapter) (admit_attempt env handle row parsed)
  unfolding admit_attempt
  admit_attempt-WellFormed handle row (err e) = search (step_rules, drop_pending-WellFormed)
  admit_attempt-WellFormed handle row (ok m) = search (step_rules, drop_pending-WellFormed)

  pub begin_attempt-WellFormed :
      (handle : String) → Preserves (WellFormed env.adapter) (begin_attempt env handle)
  unfolding begin_attempt
  begin_attempt-WellFormed handle =
      search (step_rules, consume_verification-WellFormed, admit_attempt-WellFormed)

  module _ (value : String) (Q : Record → Type 0) where
    drop_pending-OfValue : (handle : String) → Preserves (OfValue value Q) (drop_pending env handle)
    unfolding drop_pending
    drop_pending-OfValue handle = search (step_rules, consume_one-Each, refl)

    consume_verification-OfValue :
        (identifier v : String)
        → Preserves (OfValue value Q) (consume_verification env identifier v)
    unfolding consume_verification
    consume_verification-OfValue identifier v = search (step_rules, consume_one-Each, refl)

    admit_attempt-OfValue :
        (handle : String) (row : Record) (parsed : Result VerificationMetadata)
        → Preserves (OfValue value Q) (admit_attempt env handle row parsed)
    unfolding admit_attempt
    admit_attempt-OfValue handle row (err e) = search (step_rules, drop_pending-OfValue)
    admit_attempt-OfValue handle row (ok m) = search (step_rules, drop_pending-OfValue)

    -- beginAttempt adds no attempts record.
    pub begin_attempt-OfValue :
        (handle : String) → Preserves (OfValue value Q) (begin_attempt env handle)
    unfolding begin_attempt
    begin_attempt-OfValue handle =
        search (step_rules, consume_verification-OfValue, admit_attempt-OfValue)

    pub create_verification-OfValue :
        (drawn : Result String) (identifier v : String) (expires : ℕ) (m : VerificationMetadata)
        → ((id : String) → Q (verification_row env id identifier v expires m))
        → Preserves (OfValue value Q) (create_verification env drawn identifier v expires m)
    unfolding create_verification
    create_verification-OfValue drawn identifier v expires m new =
        search (step_rules, create-Each, new, refl)

  audit-IsAt :
      (t : Table) (drawn : Result String) (action user : String) (details : Assoc Scalar)
      → Preserves (IsAt model_verification t) (audit env drawn action user details)
  unfolding audit
  audit-IsAt t drawn action user details = search (step_rules, create-IsAt, refl)

  lock_account-IsAt :
      (t : Table) (drawn : Result String) (r : TwoFactorRecord)
      → Preserves (IsAt model_verification t) (lock_account env drawn r)
  unfolding lock_account
  lock_account-IsAt t drawn r = search (step_rules, update-IsAt, audit-IsAt, refl)

  record_failure-IsAt :
      (t : Table) (drawn : Result String) (r : TwoFactorRecord)
      → Preserves (IsAt model_verification t) (record_failure env drawn r)
  unfolding record_failure
  record_failure-IsAt t drawn r = search (step_rules, increment_one-IsAt, lock_account-IsAt, refl)

  pub verification_row-Tried :
      (id identifier value : String) (expires n : ℕ) (m : VerificationMetadata)
      → m.attempts ≡ pos n
      → Tried n (verification_row env id identifier value expires m)
  unfolding parse_metadata field lookup
  verification_row-Tried id identifier value expires n m count =
      (m, metadata_of_value-metadata_value m, count)

  module _ (value : String) (n : ℕ) where
    rearm_attempt-OfValue :
        (drawn : Result String) (handle : String) (m : VerificationMetadata) (expires : ℕ)
        → m.attempts ≡ pos n
        → Preserves (OfValue value (Tried n)) (rearm_attempt env drawn handle m expires)
    unfolding rearm_attempt
    rearm_attempt-OfValue drawn handle m expires count = ignoring-Preserves _ (
        create_verification-OfValue value (Tried n) drawn verification_attempts _ expires m
          (λ id. verification_row-Tried id _ _ expires n m count))

    charge_attempt-OfValue :
        (drawn : Result String) (state : VerificationState)
        → state.attempt.attempts +ℤ pos 1 ≡ pos n
        → Preserves (OfValue value (Tried n)) (charge_attempt env drawn state)
    unfolding charge_attempt
    charge_attempt-OfValue drawn state count =
        if-Preserves _ _ _ (rearm_attempt-OfValue drawn state.key _ state.attempt_expiry count)
          (drop_pending-OfValue value (Tried n) state.key)

    -- failedFactor arms the challenge with one attempt more, or not at all.
    pub failed_factor-OfValue :
        {A : Type 0} (drawn audited : Result String) (state : VerificationState)
        (r : TwoFactorRecord)
        → state.attempt.attempts +ℤ pos 1 ≡ pos n
        → Preserves (OfValue value (Tried n)) (failed_factor env {A = A} drawn audited state r)
    unfolding failed_factor
    failed_factor-OfValue drawn audited state r count =
        if-Preserves _ _ _
          (bind-Preserves _ _ (charge_attempt-OfValue drawn state count) λ c.
            bind-Preserves _ _
              (failing_as-Preserves _ _ (
                IsAt-Each model_verification "value" value (Tried n) _
                  (λ t. record_failure-IsAt t audited r)))
              (λ u. throw-Preserves _))
          (throw-Preserves _)

    -- restoreAttempt arms the challenge with the attempts that it had.
    pub restore_attempt-OfValue :
        (drawn : Result String) (state : VerificationState)
        → state.attempt.attempts ≡ pos n
        → Preserves (OfValue value (Tried n)) (restore_attempt env drawn state)
    unfolding restore_attempt
    restore_attempt-OfValue drawn state count =
        if-Preserves _ _ _
          (rearm_attempt-OfValue drawn state.key state.attempt state.attempt_expiry count)
          (pure-Preserves _)
