-- ===== src/Store/Accounts.antt =====
-- store.go and account_identity.go: provider accounts.
use Prim.Native.String.{◌++◌ as append_text}
use better_auth_go.Prelude.{
  ℕ, String, Bool, true, false, not, ◌&&◌, ◌||◌, List, [], ◌∷◌, ◌++◌, Option, none, some, ◌==◌, leb,
  if◌then◌else◌,
}
use better_auth_go.Prelude.Int.{pos}
use better_auth_go.Action.{
  not_found, conflict, sign_up_disabled, account_not_linked, ambiguous_account, Result, ok, err,
  Action, pure, throw, lift, ◌>>=◌, ◌>>◌,
}
use better_auth_go.Value.{Record, text, flag, instant, field}
use better_auth_go.Database.{Where, equals}
use better_auth_go.Schema.{model_user, model_account, model_session, model_outbox_event}
use better_auth_go.Scopes.{merge_oauth_scopes, trim_space}
use better_auth_go.Memory.Table.{Adapter, Rows}
use better_auth_go.Memory.Methods.{create, find_one, find_many, count, update, delete}
use better_auth_go.Memory.Transactions.{atomically}
use better_auth_go.Store.Types.{
  User, Session, OauthAccount, OauthProfile, ProviderTokens, StoredOauthAccount, DomainEvent,
  OauthUpsertPolicy,
}
use better_auth_go.Store.Records.{
  user_record, user_of_row, user_from_record, session_record, session_of_row, account_of_row,
  domain_event_record, record_string, optional_string, token_columns, tokens_of_row,
}
use better_auth_go.Store.Queries.{
  new_row, one_row, rows_where, counted, change, require, forgive_not_found, account_key_where,
}
use better_auth_go.Store.Sessions.{find_user_by_id}

accounts_of_rows : List Record → Result (List OauthAccount)
accounts_of_rows [] = ok []
accounts_of_rows (r ∷ rs) = gather (account_of_row r) (accounts_of_rows rs)
  where
    gather : Result OauthAccount → Result (List OauthAccount) → Result (List OauthAccount)
    gather (err e) rest = err e
    gather (ok x) (err e) = err e
    gather (ok x) (ok xs) = ok (x ∷ xs)

-- `if accountID != "" { where = append(where, Eq("accountId", accountID)) }`
abbrev provider_where : String → String → String → List Where
provider_where user provider account =
    equals "userId" (text user)
    ∷ equals "providerId" (text provider)
    ∷ (if account == "" then [] else equals "accountId" (text account) ∷ [])

stored_of_row : Option Record → Result StoredOauthAccount
stored_of_row none = err not_found
stored_of_row (some r) = with_tokens (account_of_row r)
  where
    with_tokens : Result OauthAccount → Result StoredOauthAccount
    with_tokens (err e) = err e
    with_tokens (ok x) = ok (record { account = x; tokens = tokens_of_row r })

-- the one row of FindAccountByKey, or an error where there are two
only_row : List Record → Result (Option Record)
only_row [] = ok none
only_row (r ∷ []) = ok (some r)
only_row (r ∷ s ∷ rs) = err ambiguous_account

module _ (a : Adapter) where
  -- ListAccounts
  unfoldable pub list_accounts : String → Action Rows (List OauthAccount)
  unfolding accounts_of_rows
  list_accounts user = do
    rows ← find_many a (record {
      model = model_account;
      predicate = equals "userId" (text user) ∷ [];
      limit = pos 0;
      offset = pos 0;
      select = [];
      joins = [];
      sort = some (record { on_field = "createdAt"; direction = "asc" });
    })
    lift (accounts_of_rows rows)

  -- `if count <= 1 { return ErrConflict }`, which `allow_last` switches off
  unfoldable pub check_not_last : String → Bool → Action Rows (Unit {0})
  check_not_last user true = pure tt
  check_not_last user false = do
    n ← count a (counted model_account (equals "userId" (text user) ∷ []))
    if leb n 1 then throw conflict else pure tt

  -- UnlinkAccount
  unfoldable pub unlink_account : String → String → String → Bool → Action Rows (Unit {0})
  unlink_account user provider account allow_last = atomically (do
    check_not_last user allow_last
    row ← find_one a (one_row model_account (provider_where user provider account))
    r ← require not_found row
    id ← lift (record_string r "id")
    delete a (rows_where model_account (equals "id" (text id) ∷ equals "userId" (text user) ∷ [])))

  -- UnlinkAccountByID
  unfoldable pub unlink_account_by_id : String → String → Bool → Action Rows (Unit {0})
  unlink_account_by_id user account_record allow_last = atomically (do
    check_not_last user allow_last
    row ← find_one a (record {
      model = model_account;
      predicate = equals "id" (text account_record) ∷ equals "userId" (text user) ∷ [];
      select = "id" ∷ [];
      joins = [];
    })
    r ← require not_found row
    delete a (
        rows_where model_account
          (equals "id" (text account_record) ∷ equals "userId" (text user) ∷ [])))

  -- FindAccountByKey
  unfoldable pub find_account_by_key : String → String → Action Rows (Option Record)
  unfolding only_row
  find_account_by_key provider account = do
    rows ← find_many a (record {
      model = model_account;
      predicate = account_key_where provider account;
      limit = pos 2;
      offset = pos 0;
      select = [];
      sort = none;
      joins = [];
    })
    lift (only_row rows)

  -- the switch of a legacy account to the profile's current id
  unfoldable pub adopt_legacy :
      OauthProfile → String → ℕ → Option Record → Action Rows (Option Record)
  adopt_legacy profile previous now none = pure none
  adopt_legacy profile previous now (some legacy) = do
    id ← lift (record_string legacy "id")
    row ← update a (
        change model_account
          (equals "id" (text id)
            ∷ equals "providerId" (text profile.provider)
            ∷ equals "accountId" (text previous)
            ∷ [])
          (("accountId", text profile.provider_account_id) ∷ ("updatedAt", instant now) ∷ []))
    updated ← require conflict row
    pure (some updated)

  unfoldable pub or_legacy : OauthProfile → ℕ → Option Record → Action Rows (Option Record)
  or_legacy profile now (some account) = pure (some account)
  or_legacy profile now none =
      let previous = trim_space profile.previous_provider_account_id in
      if previous == "" || previous == profile.provider_account_id then pure none else do
        legacy ← find_account_by_key profile.provider previous
        adopt_legacy profile previous now legacy

  -- findProfileAccount
  unfoldable pub find_profile_account : OauthProfile → ℕ → Action Rows (Option Record)
  find_profile_account profile now = do
    account ← find_account_by_key profile.provider profile.provider_account_id
    or_legacy profile now account

  -- the update of an account's tokens, whose scopes are merged with the stored ones
  unfoldable pub refresh_tokens : Record → String → ProviderTokens → ℕ → Action Rows (Unit {0})
  refresh_tokens account user tokens now = do
    id ← lift (record_string account "id")
    let merged = record tokens {
      scope = merge_oauth_scopes (optional_string (field account "scope")) tokens.scope;
    }
    row ← update a (
        change model_account (equals "id" (text id) ∷ equals "userId" (text user) ∷ [])
          (token_columns merged ++ ("updatedAt", instant now) ∷ []))
    pure tt

  abbrev account_row : String → String → OauthProfile → ProviderTokens → ℕ → Record
  account_row id user profile tokens now =
      (("id", text id)
        ∷ ("userId", text user)
        ∷ ("providerId", text profile.provider)
        ∷ ("accountId", text profile.provider_account_id)
        ∷ [])
      ++ (token_columns tokens ++ ("createdAt", instant now) ∷ ("updatedAt", instant now) ∷ [])

  -- the two branches of LinkOAuthAccount
  unfoldable pub link_found :
      String → String → OauthProfile → ProviderTokens → ℕ → Option Record → Action Rows (Unit {0})
  link_found account user profile tokens now none = do
    row ← create a (new_row model_account (account_row account user profile tokens now))
    pure tt
  link_found account user profile tokens now (some existing) = do
    owner ← lift (record_string existing "userId")
    if owner == user then refresh_tokens existing user tokens now else throw conflict

  -- LinkOAuthAccount
  unfoldable pub link_oauth_account :
      String → String → OauthProfile → ProviderTokens → ℕ → Action Rows (Unit {0})
  link_oauth_account account user profile tokens now = atomically (do
    existing ← find_profile_account profile now
    link_found account user profile tokens now existing)

  -- OAuthAccountTokens
  unfoldable pub oauth_account_tokens : String → String → String → Action Rows StoredOauthAccount
  unfolding stored_of_row
  oauth_account_tokens user provider account = do
    row ← find_one a (one_row model_account (provider_where user provider account))
    lift (stored_of_row row)

  -- OAuthAccountTokensByID
  unfoldable pub oauth_account_tokens_by_id : String → String → Action Rows StoredOauthAccount
  unfolding stored_of_row
  oauth_account_tokens_by_id user account_record = do
    row ← find_one a (
        one_row model_account
          (equals "id" (text account_record) ∷ equals "userId" (text user) ∷ []))
    lift (stored_of_row row)

  -- UpdateOAuthAccountTokens
  unfoldable pub update_oauth_account_tokens :
      String → String → ProviderTokens → ℕ → Action Rows (Unit {0})
  update_oauth_account_tokens user account tokens now = do
    row ← update a (
        change model_account (equals "id" (text account) ∷ equals "userId" (text user) ∷ [])
          (token_columns tokens ++ ("updatedAt", instant now) ∷ []))
    updated ← require not_found row
    pure tt

  -- a verified profile email verifies the user's equal email
  unfoldable pub verify_same_email : OauthProfile → ℕ → User → Action Rows User
  verify_same_email profile now user =
      if profile.email_verified && not user.email_verified && profile.email == user.email
      then (do
        row ← update a (
            change model_user (equals "id" (text user.id) ∷ [])
              (("emailVerified", flag true) ∷ ("updatedAt", instant now) ∷ []))
        lift (user_from_record row))
      else pure user

  unfoldable pub refresh_if : Bool → Record → String → ProviderTokens → ℕ → Action Rows (Unit {0})
  refresh_if false account user tokens now = pure tt
  refresh_if true account user tokens now = refresh_tokens account user tokens now

  -- UpsertOAuthUser where the account is known
  unfoldable pub sign_in_account :
      OauthProfile → ProviderTokens → ℕ → OauthUpsertPolicy → Record → Action Rows (User × Bool)
  sign_in_account profile tokens now policy account = do
    owner ← lift (record_string account "userId")
    user ← find_user_by_id a owner
    refreshed ← refresh_if policy.update_account_on_sign_in account user.id tokens now
    verified ← verify_same_email profile now user
    pure (verified, false)

  abbrev profile_update : OauthProfile → ℕ → Record
  profile_update profile now =
      ("updatedAt", instant now)
      ∷ ((if profile.name == "" then [] else ("name", text profile.name) ∷ [])
          ++ (if profile.image_url == "" then [] else ("image", text profile.image_url) ∷ []))

  -- `if !isNew && policy.UpdateUserInfoOnLink`, with an update of at least one column besides the time
  unfoldable pub copy_profile : OauthProfile → ℕ → OauthUpsertPolicy → User → Action Rows User
  copy_profile profile now policy user =
      if policy.update_user_info_on_link && not (profile.name == "" && profile.image_url == "")
      then (do
        row ←
            update a
              (change model_user (equals "id" (text user.id) ∷ []) (profile_update profile now))
        lift (user_from_record row))
      else pure user

  -- the account row that UpsertOAuthUser adds
  unfoldable pub add_account :
      OauthProfile → ProviderTokens → ℕ → DomainEvent → String → Action Rows (Unit {0})
  add_account profile tokens now event user = do
    row ← create a (
        new_row model_account
          (account_row (append_text event.id ":account") user profile tokens now))
    pure tt

  -- UpsertOAuthUser where neither the account nor the email is known
  unfoldable pub sign_up_profile :
      OauthProfile
      → ProviderTokens
      → Session
      → DomainEvent
      → OauthUpsertPolicy
      → Action Rows (User × Bool)
  sign_up_profile profile tokens session event policy =
      if not policy.allow_sign_up then throw sign_up_disabled else do
        let user : User = record {
          id = session.user_id;
          email = profile.email;
          name = profile.name;
          image_url = profile.image_url;
          email_verified = profile.email_verified;
          created_at = session.created_at;
          updated_at = session.created_at;
          disabled_at = none;
        }
        row ← create a (new_row model_user (user_record user))
        logged ← create a (new_row model_outbox_event (domain_event_record event))
        account ← add_account profile tokens session.created_at event user.id
        pure (user, true)

  -- UpsertOAuthUser where a user has the profile's email
  unfoldable pub link_implicitly :
      OauthProfile
      → ProviderTokens
      → Session
      → DomainEvent
      → OauthUpsertPolicy
      → User
      → Action Rows (User × Bool)
  link_implicitly profile tokens session event policy user =
      if not policy.allow_implicit_link
        || (policy.require_local_verification && not user.email_verified)
      then throw account_not_linked
      else do
        account ← add_account profile tokens session.created_at event user.id
        verified ← verify_same_email profile session.created_at user
        copied ← copy_profile profile session.created_at policy verified
        pure (copied, false)

  unfoldable pub upsert_unknown :
      OauthProfile
      → ProviderTokens
      → Session
      → DomainEvent
      → OauthUpsertPolicy
      → Option Record
      → Action Rows (User × Bool)
  upsert_unknown profile tokens session event policy none =
      sign_up_profile profile tokens session event policy
  upsert_unknown profile tokens session event policy (some row) = do
    user ← lift (user_of_row row)
    link_implicitly profile tokens session event policy user

  unfoldable pub upsert_user :
      OauthProfile
      → ProviderTokens
      → Session
      → DomainEvent
      → OauthUpsertPolicy
      → Option Record
      → Action Rows (User × Bool)
  upsert_user profile tokens session event policy (some account) =
      sign_in_account profile tokens session.created_at policy account
  upsert_user profile tokens session event policy none = do
    row ←
        forgive_not_found
          (find_one a (one_row model_user (equals "email" (text profile.email) ∷ [])))
    upsert_unknown profile tokens session event policy row

  -- the session that UpsertOAuthUser opens for the user
  unfoldable pub open_session : Session → User × Bool → Action Rows (User × Session × Bool)
  open_session session (user, is_new) = do
    row ← create a (new_row model_session (session_record (record session { user_id = user.id })))
    created ← lift (session_of_row row)
    pure (user, created, is_new)

  -- UpsertOAuthUser
  unfoldable pub upsert_oauth_user :
      OauthProfile
      → ProviderTokens
      → Session
      → DomainEvent
      → OauthUpsertPolicy
      → Action Rows (User × Session × Bool)
  upsert_oauth_user profile tokens session event policy = atomically (do
    account ← find_profile_account profile session.created_at
    result ← upsert_user profile tokens session event policy account
    open_session session result)
