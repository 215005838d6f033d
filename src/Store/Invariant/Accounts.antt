-- ===== src/Store/Invariant/Accounts.antt =====
-- The operations of the store on provider accounts keep the tables well formed.
use better_auth_go.Prelude.{ℕ, String, Bool, true, false, Option, none, some}
use better_auth_go.Action.Preserves.{Preserves}
use better_auth_go.Value.{Record}
use better_auth_go.Memory.Table.{Adapter}
use better_auth_go.Memory.WellFormed.{WellFormed}
use better_auth_go.Store.Types.{
  User, Session, OauthProfile, ProviderTokens, DomainEvent, OauthUpsertPolicy,
}
use better_auth_go.Store.Accounts.{
  list_accounts, check_not_last, unlink_account, unlink_account_by_id, find_account_by_key,
  adopt_legacy, or_legacy, find_profile_account, refresh_tokens, link_found, link_oauth_account,
  oauth_account_tokens, oauth_account_tokens_by_id, update_oauth_account_tokens, verify_same_email,
  refresh_if, sign_in_account, copy_profile, add_account, sign_up_profile, link_implicitly,
  upsert_unknown, upsert_user, open_session, upsert_oauth_user,
}
use better_auth_go.Store.Invariant.Rules.{store_rules}
use better_auth_go.Store.Invariant.Sessions.{find_user_by_id-WellFormed}

module _ (a : Adapter) where
  pub list_accounts-WellFormed : (x : String) → Preserves (WellFormed a) (list_accounts a x)
  unfolding list_accounts
  list_accounts-WellFormed x = search store_rules

  pub check_not_last-WellFormed :
      (x1 : String) (x2 : Bool) → Preserves (WellFormed a) (check_not_last a x1 x2)
  unfolding check_not_last
  check_not_last-WellFormed x1 false = search store_rules
  check_not_last-WellFormed x1 true = search store_rules

  pub unlink_account-WellFormed :
      (x1 : String) (x2 : String) (x3 : String) (x4 : Bool)
      → Preserves (WellFormed a) (unlink_account a x1 x2 x3 x4)
  unfolding unlink_account
  unlink_account-WellFormed x1 x2 x3 x4 = search (store_rules, check_not_last-WellFormed) depth 9

  pub unlink_account_by_id-WellFormed :
      (x1 : String) (x2 : String) (x3 : Bool)
      → Preserves (WellFormed a) (unlink_account_by_id a x1 x2 x3)
  unfolding unlink_account_by_id
  unlink_account_by_id-WellFormed x1 x2 x3 = search (store_rules, check_not_last-WellFormed)

  pub find_account_by_key-WellFormed :
      (x1 : String) (x2 : String) → Preserves (WellFormed a) (find_account_by_key a x1 x2)
  unfolding find_account_by_key
  find_account_by_key-WellFormed x1 x2 = search store_rules

  pub adopt_legacy-WellFormed :
      (x1 : OauthProfile) (x2 : String) (x3 : ℕ) (x4 : Option Record)
      → Preserves (WellFormed a) (adopt_legacy a x1 x2 x3 x4)
  unfolding adopt_legacy
  adopt_legacy-WellFormed x1 x2 x3 none = search store_rules
  adopt_legacy-WellFormed x1 x2 x3 (some r) = search store_rules

  pub or_legacy-WellFormed :
      (x1 : OauthProfile) (x2 : ℕ) (x3 : Option Record)
      → Preserves (WellFormed a) (or_legacy a x1 x2 x3)
  unfolding or_legacy
  or_legacy-WellFormed x1 x2 none =
      search (store_rules, find_account_by_key-WellFormed, adopt_legacy-WellFormed)
  or_legacy-WellFormed x1 x2 (some r) =
      search (store_rules, find_account_by_key-WellFormed, adopt_legacy-WellFormed)

  pub find_profile_account-WellFormed :
      (x1 : OauthProfile) (x2 : ℕ) → Preserves (WellFormed a) (find_profile_account a x1 x2)
  unfolding find_profile_account
  find_profile_account-WellFormed x1 x2 =
      search (store_rules, find_account_by_key-WellFormed, or_legacy-WellFormed)

  pub refresh_tokens-WellFormed :
      (x1 : Record) (x2 : String) (x3 : ProviderTokens) (x4 : ℕ)
      → Preserves (WellFormed a) (refresh_tokens a x1 x2 x3 x4)
  unfolding refresh_tokens
  refresh_tokens-WellFormed x1 x2 x3 x4 = search store_rules

  pub link_found-WellFormed :
      (x1 : String) (x2 : String) (x3 : OauthProfile) (x4 : ProviderTokens) (x5 : ℕ)
      (x6 : Option Record)
      → Preserves (WellFormed a) (link_found a x1 x2 x3 x4 x5 x6)
  unfolding link_found
  link_found-WellFormed x1 x2 x3 x4 x5 none = search (store_rules, refresh_tokens-WellFormed)
  link_found-WellFormed x1 x2 x3 x4 x5 (some r) = search (store_rules, refresh_tokens-WellFormed)

  pub link_oauth_account-WellFormed :
      (x1 : String) (x2 : String) (x3 : OauthProfile) (x4 : ProviderTokens) (x5 : ℕ)
      → Preserves (WellFormed a) (link_oauth_account a x1 x2 x3 x4 x5)
  unfolding link_oauth_account
  link_oauth_account-WellFormed x1 x2 x3 x4 x5 =
      search (store_rules, find_profile_account-WellFormed, link_found-WellFormed)

  pub oauth_account_tokens-WellFormed :
      (x1 : String) (x2 : String) (x3 : String)
      → Preserves (WellFormed a) (oauth_account_tokens a x1 x2 x3)
  unfolding oauth_account_tokens
  oauth_account_tokens-WellFormed x1 x2 x3 = search store_rules

  pub oauth_account_tokens_by_id-WellFormed :
      (x1 : String) (x2 : String) → Preserves (WellFormed a) (oauth_account_tokens_by_id a x1 x2)
  unfolding oauth_account_tokens_by_id
  oauth_account_tokens_by_id-WellFormed x1 x2 = search store_rules

  pub update_oauth_account_tokens-WellFormed :
      (x1 : String) (x2 : String) (x3 : ProviderTokens) (x4 : ℕ)
      → Preserves (WellFormed a) (update_oauth_account_tokens a x1 x2 x3 x4)
  unfolding update_oauth_account_tokens
  update_oauth_account_tokens-WellFormed x1 x2 x3 x4 = search store_rules

  pub verify_same_email-WellFormed :
      (x1 : OauthProfile) (x2 : ℕ) (x3 : User)
      → Preserves (WellFormed a) (verify_same_email a x1 x2 x3)
  unfolding verify_same_email
  verify_same_email-WellFormed x1 x2 x3 = search store_rules

  pub refresh_if-WellFormed :
      (x1 : Bool) (x2 : Record) (x3 : String) (x4 : ProviderTokens) (x5 : ℕ)
      → Preserves (WellFormed a) (refresh_if a x1 x2 x3 x4 x5)
  unfolding refresh_if
  refresh_if-WellFormed false x2 x3 x4 x5 = search (store_rules, refresh_tokens-WellFormed)
  refresh_if-WellFormed true x2 x3 x4 x5 = search (store_rules, refresh_tokens-WellFormed)

  pub sign_in_account-WellFormed :
      (x1 : OauthProfile) (x2 : ProviderTokens) (x3 : ℕ) (x4 : OauthUpsertPolicy) (x5 : Record)
      → Preserves (WellFormed a) (sign_in_account a x1 x2 x3 x4 x5)
  unfolding sign_in_account
  sign_in_account-WellFormed x1 x2 x3 x4 x5 = search (
    store_rules,
    verify_same_email-WellFormed,
    refresh_if-WellFormed,
    find_user_by_id-WellFormed a,
  )

  pub copy_profile-WellFormed :
      (x1 : OauthProfile) (x2 : ℕ) (x3 : OauthUpsertPolicy) (x4 : User)
      → Preserves (WellFormed a) (copy_profile a x1 x2 x3 x4)
  unfolding copy_profile
  copy_profile-WellFormed x1 x2 x3 x4 = search store_rules

  pub add_account-WellFormed :
      (x1 : OauthProfile) (x2 : ProviderTokens) (x3 : ℕ) (x4 : DomainEvent) (x5 : String)
      → Preserves (WellFormed a) (add_account a x1 x2 x3 x4 x5)
  unfolding add_account
  add_account-WellFormed x1 x2 x3 x4 x5 = search store_rules

  pub sign_up_profile-WellFormed :
      (x1 : OauthProfile) (x2 : ProviderTokens) (x3 : Session) (x4 : DomainEvent)
      (x5 : OauthUpsertPolicy)
      → Preserves (WellFormed a) (sign_up_profile a x1 x2 x3 x4 x5)
  unfolding sign_up_profile
  sign_up_profile-WellFormed x1 x2 x3 x4 x5 = search (store_rules, add_account-WellFormed)

  pub link_implicitly-WellFormed :
      (x1 : OauthProfile) (x2 : ProviderTokens) (x3 : Session) (x4 : DomainEvent)
      (x5 : OauthUpsertPolicy) (x6 : User)
      → Preserves (WellFormed a) (link_implicitly a x1 x2 x3 x4 x5 x6)
  unfolding link_implicitly
  link_implicitly-WellFormed x1 x2 x3 x4 x5 x6 =
      search
        (store_rules, verify_same_email-WellFormed, copy_profile-WellFormed, add_account-WellFormed)

  pub upsert_unknown-WellFormed :
      (x1 : OauthProfile) (x2 : ProviderTokens) (x3 : Session) (x4 : DomainEvent)
      (x5 : OauthUpsertPolicy) (x6 : Option Record)
      → Preserves (WellFormed a) (upsert_unknown a x1 x2 x3 x4 x5 x6)
  unfolding upsert_unknown
  upsert_unknown-WellFormed x1 x2 x3 x4 x5 none =
      search (store_rules, sign_up_profile-WellFormed, link_implicitly-WellFormed)
  upsert_unknown-WellFormed x1 x2 x3 x4 x5 (some r) =
      search (store_rules, sign_up_profile-WellFormed, link_implicitly-WellFormed)

  pub upsert_user-WellFormed :
      (x1 : OauthProfile) (x2 : ProviderTokens) (x3 : Session) (x4 : DomainEvent)
      (x5 : OauthUpsertPolicy) (x6 : Option Record)
      → Preserves (WellFormed a) (upsert_user a x1 x2 x3 x4 x5 x6)
  unfolding upsert_user
  upsert_user-WellFormed x1 x2 x3 x4 x5 none =
      search (store_rules, sign_in_account-WellFormed, upsert_unknown-WellFormed)
  upsert_user-WellFormed x1 x2 x3 x4 x5 (some r) =
      search (store_rules, sign_in_account-WellFormed, upsert_unknown-WellFormed)

  pub open_session-WellFormed :
      (x1 : Session) (x2 : User × Bool) → Preserves (WellFormed a) (open_session a x1 x2)
  unfolding open_session
  open_session-WellFormed x1 (u, n) = search store_rules

  pub upsert_oauth_user-WellFormed :
      (x1 : OauthProfile) (x2 : ProviderTokens) (x3 : Session) (x4 : DomainEvent)
      (x5 : OauthUpsertPolicy)
      → Preserves (WellFormed a) (upsert_oauth_user a x1 x2 x3 x4 x5)
  unfolding upsert_oauth_user
  upsert_oauth_user-WellFormed x1 x2 x3 x4 x5 = search (
    store_rules, find_profile_account-WellFormed, upsert_user-WellFormed, open_session-WellFormed,
  )
