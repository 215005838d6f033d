-- ===== src/Store/Invariant/Tokens.antt =====
-- The operations of the store on one-time tokens and OAuth states keep the tables well formed.
use better_auth_go.Prelude.{ℕ, String, Option, none, some}
use better_auth_go.Action.Preserves.{Preserves}
use better_auth_go.Value.{Record}
use better_auth_go.Database.{Where}
use better_auth_go.Memory.Table.{Adapter}
use better_auth_go.Memory.WellFormed.{WellFormed}
use better_auth_go.Store.Types.{OneTimePurpose, OneTimeToken, OauthState}
use better_auth_go.Store.Tokens.{
  put_one_time_token, has_one_time_token, consume_token, consume_user_deletion,
  consume_email_change, consume_email_change_confirmation, create_if_missing, reset_password,
  consume_password_reset, consume_email_verification, put_oauth_state, consume_oauth_state,
}
use better_auth_go.Store.Invariant.Rules.{store_rules}
use better_auth_go.Store.Invariant.Sessions.{find_user_by_id-WellFormed}

module _ (a : Adapter) where
  pub put_one_time_token-WellFormed :
      (x : OneTimeToken) → Preserves (WellFormed a) (put_one_time_token a x)
  unfolding put_one_time_token
  put_one_time_token-WellFormed x = search store_rules

  pub has_one_time_token-WellFormed :
      (x1 : OneTimePurpose) (x2 : String) (x3 : ℕ)
      → Preserves (WellFormed a) (has_one_time_token a x1 x2 x3)
  unfolding has_one_time_token
  has_one_time_token-WellFormed x1 x2 x3 = search store_rules

  pub consume_token-WellFormed :
      (x1 : Where) (x2 : String) (x3 : ℕ) → Preserves (WellFormed a) (consume_token a x1 x2 x3)
  unfolding consume_token
  consume_token-WellFormed x1 x2 x3 = search store_rules

  pub consume_user_deletion-WellFormed :
      (x1 : String) (x2 : String) (x3 : ℕ)
      → Preserves (WellFormed a) (consume_user_deletion a x1 x2 x3)
  unfolding consume_user_deletion
  consume_user_deletion-WellFormed x1 x2 x3 = search (store_rules, consume_token-WellFormed)

  pub consume_email_change-WellFormed :
      (x1 : String) (x2 : ℕ) → Preserves (WellFormed a) (consume_email_change a x1 x2)
  unfolding consume_email_change
  consume_email_change-WellFormed x1 x2 = search (store_rules, consume_token-WellFormed) depth 9

  pub consume_email_change_confirmation-WellFormed :
      (x1 : String) (x2 : ℕ) → Preserves (WellFormed a) (consume_email_change_confirmation a x1 x2)
  unfolding consume_email_change_confirmation
  consume_email_change_confirmation-WellFormed x1 x2 =
      search (store_rules, consume_token-WellFormed, find_user_by_id-WellFormed a)

  pub create_if_missing-WellFormed :
      (x1 : String) (x2 : String) (x3 : ℕ) (x4 : Option Record)
      → Preserves (WellFormed a) (create_if_missing a x1 x2 x3 x4)
  unfolding create_if_missing
  create_if_missing-WellFormed x1 x2 x3 none = search store_rules
  create_if_missing-WellFormed x1 x2 x3 (some r) = search store_rules

  pub reset_password-WellFormed :
      (x1 : String) (x2 : String) (x3 : ℕ) → Preserves (WellFormed a) (reset_password a x1 x2 x3)
  unfolding reset_password
  reset_password-WellFormed x1 x2 x3 =
      search (store_rules, create_if_missing-WellFormed, find_user_by_id-WellFormed a)

  pub consume_password_reset-WellFormed :
      (x1 : String) (x2 : String) (x3 : ℕ)
      → Preserves (WellFormed a) (consume_password_reset a x1 x2 x3)
  unfolding consume_password_reset
  consume_password_reset-WellFormed x1 x2 x3 =
      search (store_rules, consume_token-WellFormed, reset_password-WellFormed)

  pub consume_email_verification-WellFormed :
      (x1 : String) (x2 : ℕ) → Preserves (WellFormed a) (consume_email_verification a x1 x2)
  unfolding consume_email_verification
  consume_email_verification-WellFormed x1 x2 =
      search (store_rules, consume_token-WellFormed, find_user_by_id-WellFormed a)

  pub put_oauth_state-WellFormed : (x : OauthState) → Preserves (WellFormed a) (put_oauth_state a x)
  unfolding put_oauth_state
  put_oauth_state-WellFormed x = search store_rules

  pub consume_oauth_state-WellFormed :
      (x1 : String) (x2 : ℕ) → Preserves (WellFormed a) (consume_oauth_state a x1 x2)
  unfolding consume_oauth_state
  consume_oauth_state-WellFormed x1 x2 = search (store_rules, consume_token-WellFormed)
