-- ===== src/TwoFactor/Handlers.antt =====
-- plugin/twofactor/plugin.go: the handlers verifyTOTP, verifyOTP and verifyBackupCode. The result of a call that
-- may fail is an argument of the step that follows, where the handler goes on after an error.
use better_auth_go.Prelude.{
  ℕ, String, true, false, not, ◌&&◌, List, [], ◌∷◌, Option, none, some, length, ltb, ◌==◌,
  if◌then◌else◌,
}
use better_auth_go.Prelude.Int.{pos_part}
use better_auth_go.Action.{failure, Result, ok, err, Action, pure, throw, lift, ◌>>=◌, with_result}
use better_auth_go.Value.{Record, text, instant, field}
use better_auth_go.Database.{equals}
use better_auth_go.Memory.Table.{Rows}
use better_auth_go.Memory.Methods.{update}
use better_auth_go.Store.Queries.{change}
use better_auth_go.TwoFactor.Config.{is_none}
use better_auth_go.TwoFactor.Totp.{verify_totp}
use better_auth_go.TwoFactor.Codes.{backup_code_index, remaining_codes}
use better_auth_go.TwoFactor.Records.{
  TwoFactorRecord, VerificationMetadata, model_two_factor, parse_metadata, time_value,
}
use better_auth_go.TwoFactor.Challenges.{
  Env, verification_otp, ignoring, verification_value, create_verification, consume_verification,
  audit,
}
use better_auth_go.TwoFactor.Lockout.{
  VerificationState, internal_error, invalid_factor, failing_as, failed_factor,
}
use better_auth_go.TwoFactor.Verify.{
  Request, Outcome, Services, opened, sealed, verification_state, restoring, checked_record,
  complete_enrollment, complete_verification,
}

module _ (env : Env) (services : Services) where
  -- verifyTOTP, once the secret is open
  unfoldable pub judge_totp :
      Request → VerificationState → TwoFactorRecord → String → Action Rows Outcome
  judge_totp request state r secret =
      if not (
        verify_totp services.primitives secret request.code env.now
          (pos_part env.config.totp_period) (pos_part env.config.totp_digits))
      then failed_factor env (request.ids 0) (request.ids 1) state r
      else (do
        enrolled ←
            if not state.pending && not r.verified
            then complete_enrollment env request r
            else pure tt
        complete_verification env services request state r "totp" false)

  unfoldable pub totp_opened :
      Request → VerificationState → TwoFactorRecord → Result String → Action Rows Outcome
  totp_opened request state r (err e) = restoring env request state internal_error
  totp_opened request state r (ok secret) = judge_totp request state r secret

  -- verifyTOTP, the handler
  unfoldable pub verify_totp_handler : Request → Action Rows Outcome
  verify_totp_handler request = if env.config.disable_totp then throw invalid_factor else (do
    state ← verification_state env true request.session request.pending_cookie
    r ← checked_record env request state
    totp_opened request state r (opened env.config.cipher r.secret))

  unfoldable pub backup_code_stored :
      Request → VerificationState → TwoFactorRecord → Result (Option Record) → Action Rows Outcome
  backup_code_stored request state r (err e) =
      restoring env request state (failure "Backup code was already used.")
  backup_code_stored request state r (ok none) =
      restoring env request state (failure "Backup code was already used.")
  backup_code_stored request state r (ok (some row)) = do
    logged ←
        failing_as internal_error
          (audit env (request.ids 3) "two_factor.backup_code.used" state.user_id [])
    complete_verification env services request state r "backup_code" request.disable_session

  -- verifyBackupCode, once the code is found and the rest of the codes sealed
  unfoldable pub spend_backup_code :
      Request → VerificationState → TwoFactorRecord → String → Action Rows Outcome
  spend_backup_code request state r sealed_rest =
      with_result
        (update env.adapter (
          change model_two_factor
            (equals "id" (text r.id) ∷ equals "backupCodes" (text r.backup_codes) ∷ [])
            (("backupCodes", text sealed_rest) ∷ ("updatedAt", instant env.now) ∷ [])))
        (backup_code_stored request state r)

  unfoldable pub backup_code_sealed :
      Request → VerificationState → TwoFactorRecord → Result String → Action Rows Outcome
  backup_code_sealed request state r (err e) = restoring env request state internal_error
  backup_code_sealed request state r (ok rest) = spend_backup_code request state r rest

  -- openBackupCodes
  unfoldable pub open_backup_codes : String → Result (List String)
  open_backup_codes encoded = elim (opened env.config.cipher encoded) [
    | err e ↦ err e
    | ok plaintext ↦ elim (services.unmarshal plaintext) [
      | none ↦ err (failure "twofactor: invalid backup-code record")
      | some codes ↦
          if ltb 50 (length codes)
          then err (failure "twofactor: invalid backup-code record")
          else ok codes
    ]
  ]

  unfoldable pub judge_backup_code :
      Request → VerificationState → TwoFactorRecord → List String → Option ℕ → Action Rows Outcome
  judge_backup_code request state r codes none =
      failed_factor env (request.ids 0) (request.ids 1) state r
  judge_backup_code request state r codes (some i) =
      backup_code_sealed request state r
        (sealed env.config.cipher (services.marshal (remaining_codes i codes)))

  unfoldable pub backup_codes_opened :
      Request → VerificationState → TwoFactorRecord → Result (List String) → Action Rows Outcome
  backup_codes_opened request state r (err e) = restoring env request state internal_error
  backup_codes_opened request state r (ok codes) =
      judge_backup_code request state r codes
        (backup_code_index services.to_lower codes request.code)

  -- verifyBackupCode
  unfoldable pub verify_backup_code : Request → Action Rows Outcome
  verify_backup_code request = do
    state ← verification_state env true request.session request.pending_cookie
    r ← checked_record env request state
    backup_codes_opened request state r (open_backup_codes r.backup_codes)

  -- verifyOTP, on the record of the code that was sent
  unfoldable pub judge_otp :
      Request
      → VerificationState
      → TwoFactorRecord
      → Record
      → VerificationMetadata
      → Action Rows Outcome
  judge_otp request state r row m =
      if not (m.user_id == state.user_id)
      then restoring env request state invalid_factor
      else if m.code_hash == env.hash request.code
      then complete_verification env services request state r "otp" false
      else (do
        kept ← ignoring (do
          expires ← lift (time_value env.parse_time (field row "expiresAt"))
          create_verification env (request.ids 7) verification_otp
              (verification_value env "otp" state.key) expires m)
        failed_factor env (request.ids 0) (request.ids 1) state r)

  unfoldable pub otp_row :
      Request
      → VerificationState
      → TwoFactorRecord
      → Result (Record × VerificationMetadata)
      → Action Rows Outcome
  otp_row request state r (err e) = restoring env request state invalid_factor
  otp_row request state r (ok (row, m)) = judge_otp request state r row m

  -- verifyOTP
  unfoldable pub verify_otp : Request → Action Rows Outcome
  verify_otp request = if is_none env.config.deliver_otp then throw invalid_factor else (do
    state ← verification_state env true request.session request.pending_cookie
    r ← checked_record env request state
    with_result
        (do
          row ← consume_verification env verification_otp (verification_value env "otp" state.key)
          m ← lift (parse_metadata row)
          pure (row, m))
        (otp_row request state r))
