-- ===== src/TwoFactor/Code.antt =====
-- One name for the code of the two-factor plugin, for the computations on concrete rows.
use better_auth_go.Action.{with_result}
use better_auth_go.Prelude.Int.{◌+ℤ◌}
use better_auth_go.Scopes.{trim_space}
use better_auth_go.Memory.Code.{memory_code}
use better_auth_go.Memory.Rules.{rules_from_schema}
use better_auth_go.Schema.{core_schema, plain, needed, key, owner, shown, entered, model}
use better_auth_go.Schema.Merge.{
  contains_index, renamed_field, merged_field, merge_fields, merge_indexes, merged_name,
  merged_model, merge_extension, merge_schema,
}
use better_auth_go.Store.Queries.{require}
use better_auth_go.TwoFactor.Records.{
  filled_text, integer_value, time_value, true_flag, locked_value, two_factor_from_record,
  metadata_value, read_metadata, parse_metadata,
}
use better_auth_go.TwoFactor.Challenges.{
  ignoring, verification_value, find_two_factor, create_verification, consume_verification,
  find_verification, drop_pending, admit_attempt, begin_attempt, rearm_attempt, audit,
}
use better_auth_go.TwoFactor.Lockout.{
  failing_as, release_lock, held_lock, assert_not_locked, lock_account, record_failure,
  reset_failures, restore_attempt, charge_attempt, failed_factor,
}
use better_auth_go.TwoFactor.Verify.{
  pending_state, challenge_state, verification_state, restoring, unlocked_record, found_record,
  checked_record, redeem_challenge,
}
use better_auth_go.TwoFactor.Model.{base_schema}

unfoldable pub two_factor_code : Unit {0}
unfolding memory_code with_result ◌+ℤ◌ trim_space core_schema plain needed key owner shown entered
    model contains_index renamed_field merged_field merge_fields merge_indexes merged_name
    merged_model merge_extension merge_schema require filled_text integer_value time_value true_flag
    locked_value two_factor_from_record metadata_value read_metadata parse_metadata ignoring
    verification_value find_two_factor create_verification consume_verification find_verification
    drop_pending admit_attempt begin_attempt rearm_attempt audit failing_as release_lock held_lock
    assert_not_locked lock_account record_failure reset_failures restore_attempt charge_attempt
    failed_factor pending_state challenge_state verification_state restoring unlocked_record
    found_record checked_record redeem_challenge base_schema rules_from_schema
two_factor_code = tt
