-- ===== src/Store/Code.antt =====
-- One name for the code of the store, for the computations on concrete rows.
use better_auth_go.Memory.Code.{memory_code}
use better_auth_go.Scopes.{
  fields_of, trim_space, join_words, add_scopes, merged_scopes, merge_oauth_scopes,
}
use better_auth_go.Store.Types.{purpose_text}
use better_auth_go.Store.Records.{
  record_string, record_time, optional_string, optional_bool, optional_time_ptr, optional_time,
  nullable_time, nullable_time_value, record_string_map, entry, merge_string_maps, user_record,
  user_of_row, user_from_record, session_record, session_of_row, session_from_record,
  account_of_row, account_from_record, domain_event_record, audit_event_record, token_columns,
  tokens_of_row,
}
use better_auth_go.Store.Queries.{forgiven, forgive_not_found, require}
use better_auth_go.Store.Sessions.{
  find_user_by_id, find_user_by_email, create_session, session_by_token_hash, revoke_live,
  rotate_session, revoke_session, revoke_user_sessions, list_sessions, revoke_session_by_id,
  revoke_other_sessions, update_session, rotate_session_with_audit,
}
use better_auth_go.Store.Users.{
  create_session_if, create_email_user, password_credential, replace_password_hash,
  write_password_hash, set_password_hash, revoke_for_change, change_password_and_rotate,
  update_user, verify_user_email, delete_user,
}
use better_auth_go.Store.Accounts.{
  list_accounts, check_not_last, unlink_account, unlink_account_by_id, find_account_by_key,
  adopt_legacy, or_legacy, find_profile_account, refresh_tokens, link_found, link_oauth_account,
  oauth_account_tokens, oauth_account_tokens_by_id, update_oauth_account_tokens, verify_same_email,
  refresh_if, sign_in_account, copy_profile, add_account, sign_up_profile, link_implicitly,
  upsert_unknown, upsert_user, open_session, upsert_oauth_user,
}
use better_auth_go.Store.Tokens.{
  token_identifier, token_record, oauth_state_record, oauth_state_of_row, metadata_of,
  put_one_time_token, has_one_time_token, consume_token, consume_user_deletion,
  consume_email_change, consume_email_change_confirmation, create_if_missing, reset_password,
  consume_password_reset, consume_email_verification, put_oauth_state, consume_oauth_state,
}

unfoldable pub store_code : Unit {0}
unfolding memory_code fields_of trim_space join_words add_scopes merged_scopes merge_oauth_scopes
    purpose_text record_string record_time optional_string optional_bool optional_time_ptr
    optional_time nullable_time nullable_time_value record_string_map entry merge_string_maps
    user_record user_of_row user_from_record session_record session_of_row session_from_record
    account_of_row account_from_record domain_event_record audit_event_record token_columns
    tokens_of_row forgiven forgive_not_found require find_user_by_id find_user_by_email
    create_session session_by_token_hash revoke_live rotate_session revoke_session
    revoke_user_sessions list_sessions revoke_session_by_id revoke_other_sessions update_session
    rotate_session_with_audit create_session_if create_email_user password_credential
    replace_password_hash write_password_hash set_password_hash revoke_for_change
    change_password_and_rotate update_user verify_user_email delete_user list_accounts
    check_not_last unlink_account unlink_account_by_id find_account_by_key adopt_legacy or_legacy
    find_profile_account refresh_tokens link_found link_oauth_account oauth_account_tokens
    oauth_account_tokens_by_id update_oauth_account_tokens verify_same_email refresh_if
    sign_in_account copy_profile add_account sign_up_profile link_implicitly upsert_unknown
    upsert_user open_session upsert_oauth_user token_identifier token_record oauth_state_record
    oauth_state_of_row metadata_of put_one_time_token has_one_time_token consume_token
    consume_user_deletion consume_email_change consume_email_change_confirmation create_if_missing
    reset_password consume_password_reset consume_email_verification put_oauth_state
    consume_oauth_state
store_code = tt
