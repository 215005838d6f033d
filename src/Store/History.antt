-- ===== src/Store/History.antt =====
-- The operations of store.go and account_identity.go as calls, and what holds after any sequence of them.
use better_auth_go.Prelude.{ℕ, String, ◌≡◌, Bool, List, [], ◌∷◌, some, lookup}
use better_auth_go.Action.{Action, pure, ◌>>=◌}
use better_auth_go.Action.Preserves.{Preserves}
use better_auth_go.Value.{Record, text, field}
use better_auth_go.Schema.{model_user, model_session, model_account, model_verification}
use better_auth_go.Memory.Match.{Printer}
use better_auth_go.Memory.Table.{Adapter, Rows, table}
use better_auth_go.Memory.WellFormed.{WellFormed}
use better_auth_go.Memory.History.{empty-WellFormed}
use better_auth_go.Store.Types.{
  Session, AuditEvent, CreateEmailUserParams, ChangePasswordParams, OauthProfile, ProviderTokens,
  DomainEvent, OauthUpsertPolicy, OneTimePurpose, OneTimeToken, OauthState,
}
use better_auth_go.Store.Sessions
use better_auth_go.Store.Users
use better_auth_go.Store.Accounts
use better_auth_go.Store.Tokens
use better_auth_go.Store.Invariant.Sessions as SessionsKept
use better_auth_go.Store.Invariant.Users as UsersKept
use better_auth_go.Store.Invariant.Accounts as AccountsKept
use better_auth_go.Store.Invariant.Tokens as TokensKept
use better_auth_go.Store.Invariant.Rules.{store_rules}
use better_auth_go.Store.Core.{
  core_memory, unique_keys-user, unique_keys-session, unique_keys-account, unique_keys-verification,
  same_text-same_id, same_texts-same_id,
}

pub data StoreCall : Type 0 where
  find_user_by_id : String → StoreCall
  find_user_by_email : String → StoreCall
  create_session : Session → StoreCall
  session_by_token_hash : String → StoreCall
  rotate_session : String → Session → StoreCall
  revoke_session : String → ℕ → StoreCall
  revoke_user_sessions : String → ℕ → StoreCall
  list_sessions : String → ℕ → StoreCall
  revoke_session_by_id : String → String → ℕ → StoreCall
  revoke_other_sessions : String → String → ℕ → StoreCall
  update_session : String → String → Record → ℕ → StoreCall
  rotate_session_with_audit : String → Session → AuditEvent → StoreCall
  create_email_user : CreateEmailUserParams → StoreCall
  password_credential : String → StoreCall
  replace_password_hash : String → String → String → ℕ → StoreCall
  set_password_hash : String → String → ℕ → StoreCall
  change_password_and_rotate : ChangePasswordParams → StoreCall
  update_user : String → Record → ℕ → StoreCall
  verify_user_email : String → ℕ → StoreCall
  delete_user : String → StoreCall
  list_accounts : String → StoreCall
  unlink_account : String → String → String → Bool → StoreCall
  unlink_account_by_id : String → String → Bool → StoreCall
  link_oauth_account : String → String → OauthProfile → ProviderTokens → ℕ → StoreCall
  oauth_account_tokens : String → String → String → StoreCall
  oauth_account_tokens_by_id : String → String → StoreCall
  update_oauth_account_tokens : String → String → ProviderTokens → ℕ → StoreCall
  upsert_oauth_user :
      OauthProfile → ProviderTokens → Session → DomainEvent → OauthUpsertPolicy → StoreCall
  put_one_time_token : OneTimeToken → StoreCall
  has_one_time_token : OneTimePurpose → String → ℕ → StoreCall
  consume_user_deletion : String → String → ℕ → StoreCall
  consume_email_change : String → ℕ → StoreCall
  consume_email_change_confirmation : String → ℕ → StoreCall
  consume_password_reset : String → String → ℕ → StoreCall
  consume_email_verification : String → ℕ → StoreCall
  put_oauth_state : OauthState → StoreCall
  consume_oauth_state : String → ℕ → StoreCall

abbrev discard : {A : Type 0} → Action Rows A → Action Rows (Unit {0})
discard m = do x ← m; pure tt

-- the call, less the value that it returns
unfoldable pub run_store_call : Adapter → StoreCall → Action Rows (Unit {0})
run_store_call a (find_user_by_id x) = discard (Sessions.find_user_by_id a x)
run_store_call a (find_user_by_email x) = discard (Sessions.find_user_by_email a x)
run_store_call a (create_session x) = discard (Sessions.create_session a x)
run_store_call a (session_by_token_hash x) = discard (Sessions.session_by_token_hash a x)
run_store_call a (rotate_session x1 x2) = discard (Sessions.rotate_session a x1 x2)
run_store_call a (revoke_session x1 x2) = discard (Sessions.revoke_session a x1 x2)
run_store_call a (revoke_user_sessions x1 x2) = discard (Sessions.revoke_user_sessions a x1 x2)
run_store_call a (list_sessions x1 x2) = discard (Sessions.list_sessions a x1 x2)
run_store_call a (revoke_session_by_id x1 x2 x3) =
    discard (Sessions.revoke_session_by_id a x1 x2 x3)
run_store_call a (revoke_other_sessions x1 x2 x3) =
    discard (Sessions.revoke_other_sessions a x1 x2 x3)
run_store_call a (update_session x1 x2 x3 x4) = discard (Sessions.update_session a x1 x2 x3 x4)
run_store_call a (rotate_session_with_audit x1 x2 x3) =
    discard (Sessions.rotate_session_with_audit a x1 x2 x3)
run_store_call a (create_email_user x) = discard (Users.create_email_user a x)
run_store_call a (password_credential x) = discard (Users.password_credential a x)
run_store_call a (replace_password_hash x1 x2 x3 x4) =
    discard (Users.replace_password_hash a x1 x2 x3 x4)
run_store_call a (set_password_hash x1 x2 x3) = discard (Users.set_password_hash a x1 x2 x3)
run_store_call a (change_password_and_rotate x) = discard (Users.change_password_and_rotate a x)
run_store_call a (update_user x1 x2 x3) = discard (Users.update_user a x1 x2 x3)
run_store_call a (verify_user_email x1 x2) = discard (Users.verify_user_email a x1 x2)
run_store_call a (delete_user x) = discard (Users.delete_user a x)
run_store_call a (list_accounts x) = discard (Accounts.list_accounts a x)
run_store_call a (unlink_account x1 x2 x3 x4) = discard (Accounts.unlink_account a x1 x2 x3 x4)
run_store_call a (unlink_account_by_id x1 x2 x3) =
    discard (Accounts.unlink_account_by_id a x1 x2 x3)
run_store_call a (link_oauth_account x1 x2 x3 x4 x5) =
    discard (Accounts.link_oauth_account a x1 x2 x3 x4 x5)
run_store_call a (oauth_account_tokens x1 x2 x3) =
    discard (Accounts.oauth_account_tokens a x1 x2 x3)
run_store_call a (oauth_account_tokens_by_id x1 x2) =
    discard (Accounts.oauth_account_tokens_by_id a x1 x2)
run_store_call a (update_oauth_account_tokens x1 x2 x3 x4) =
    discard (Accounts.update_oauth_account_tokens a x1 x2 x3 x4)
run_store_call a (upsert_oauth_user x1 x2 x3 x4 x5) =
    discard (Accounts.upsert_oauth_user a x1 x2 x3 x4 x5)
run_store_call a (put_one_time_token x) = discard (Tokens.put_one_time_token a x)
run_store_call a (has_one_time_token x1 x2 x3) = discard (Tokens.has_one_time_token a x1 x2 x3)
run_store_call a (consume_user_deletion x1 x2 x3) =
    discard (Tokens.consume_user_deletion a x1 x2 x3)
run_store_call a (consume_email_change x1 x2) = discard (Tokens.consume_email_change a x1 x2)
run_store_call a (consume_email_change_confirmation x1 x2) =
    discard (Tokens.consume_email_change_confirmation a x1 x2)
run_store_call a (consume_password_reset x1 x2 x3) =
    discard (Tokens.consume_password_reset a x1 x2 x3)
run_store_call a (consume_email_verification x1 x2) =
    discard (Tokens.consume_email_verification a x1 x2)
run_store_call a (put_oauth_state x) = discard (Tokens.put_oauth_state a x)
run_store_call a (consume_oauth_state x1 x2) = discard (Tokens.consume_oauth_state a x1 x2)

-- the rows after a sequence of calls, whether or not they succeed
unfoldable pub run_store_calls : Adapter → List StoreCall → Rows → Rows
run_store_calls a [] rows = rows
run_store_calls a (c ∷ cs) rows = run_store_calls a cs (run_store_call a c rows).1

module _ (a : Adapter) where
  run_store_call-WellFormed : (c : StoreCall) → Preserves (WellFormed a) (run_store_call a c)
  unfolding run_store_call
  run_store_call-WellFormed (find_user_by_id x) =
      search (store_rules, SessionsKept.find_user_by_id-WellFormed)
  run_store_call-WellFormed (find_user_by_email x) =
      search (store_rules, SessionsKept.find_user_by_email-WellFormed)
  run_store_call-WellFormed (create_session x) =
      search (store_rules, SessionsKept.create_session-WellFormed)
  run_store_call-WellFormed (session_by_token_hash x) =
      search (store_rules, SessionsKept.session_by_token_hash-WellFormed)
  run_store_call-WellFormed (rotate_session x1 x2) =
      search (store_rules, SessionsKept.rotate_session-WellFormed)
  run_store_call-WellFormed (revoke_session x1 x2) =
      search (store_rules, SessionsKept.revoke_session-WellFormed)
  run_store_call-WellFormed (revoke_user_sessions x1 x2) =
      search (store_rules, SessionsKept.revoke_user_sessions-WellFormed)
  run_store_call-WellFormed (list_sessions x1 x2) =
      search (store_rules, SessionsKept.list_sessions-WellFormed)
  run_store_call-WellFormed (revoke_session_by_id x1 x2 x3) =
      search (store_rules, SessionsKept.revoke_session_by_id-WellFormed)
  run_store_call-WellFormed (revoke_other_sessions x1 x2 x3) =
      search (store_rules, SessionsKept.revoke_other_sessions-WellFormed)
  run_store_call-WellFormed (update_session x1 x2 x3 x4) =
      search (store_rules, SessionsKept.update_session-WellFormed)
  run_store_call-WellFormed (rotate_session_with_audit x1 x2 x3) =
      search (store_rules, SessionsKept.rotate_session_with_audit-WellFormed)
  run_store_call-WellFormed (create_email_user x) =
      search (store_rules, UsersKept.create_email_user-WellFormed)
  run_store_call-WellFormed (password_credential x) =
      search (store_rules, UsersKept.password_credential-WellFormed)
  run_store_call-WellFormed (replace_password_hash x1 x2 x3 x4) =
      search (store_rules, UsersKept.replace_password_hash-WellFormed)
  run_store_call-WellFormed (set_password_hash x1 x2 x3) =
      search (store_rules, UsersKept.set_password_hash-WellFormed)
  run_store_call-WellFormed (change_password_and_rotate x) =
      search (store_rules, UsersKept.change_password_and_rotate-WellFormed)
  run_store_call-WellFormed (update_user x1 x2 x3) =
      search (store_rules, UsersKept.update_user-WellFormed)
  run_store_call-WellFormed (verify_user_email x1 x2) =
      search (store_rules, UsersKept.verify_user_email-WellFormed)
  run_store_call-WellFormed (delete_user x) = search (store_rules, UsersKept.delete_user-WellFormed)
  run_store_call-WellFormed (list_accounts x) =
      search (store_rules, AccountsKept.list_accounts-WellFormed)
  run_store_call-WellFormed (unlink_account x1 x2 x3 x4) =
      search (store_rules, AccountsKept.unlink_account-WellFormed)
  run_store_call-WellFormed (unlink_account_by_id x1 x2 x3) =
      search (store_rules, AccountsKept.unlink_account_by_id-WellFormed)
  run_store_call-WellFormed (link_oauth_account x1 x2 x3 x4 x5) =
      search (store_rules, AccountsKept.link_oauth_account-WellFormed)
  run_store_call-WellFormed (oauth_account_tokens x1 x2 x3) =
      search (store_rules, AccountsKept.oauth_account_tokens-WellFormed)
  run_store_call-WellFormed (oauth_account_tokens_by_id x1 x2) =
      search (store_rules, AccountsKept.oauth_account_tokens_by_id-WellFormed)
  run_store_call-WellFormed (update_oauth_account_tokens x1 x2 x3 x4) =
      search (store_rules, AccountsKept.update_oauth_account_tokens-WellFormed)
  run_store_call-WellFormed (upsert_oauth_user x1 x2 x3 x4 x5) =
      search (store_rules, AccountsKept.upsert_oauth_user-WellFormed)
  run_store_call-WellFormed (put_one_time_token x) =
      search (store_rules, TokensKept.put_one_time_token-WellFormed)
  run_store_call-WellFormed (has_one_time_token x1 x2 x3) =
      search (store_rules, TokensKept.has_one_time_token-WellFormed)
  run_store_call-WellFormed (consume_user_deletion x1 x2 x3) =
      search (store_rules, TokensKept.consume_user_deletion-WellFormed)
  run_store_call-WellFormed (consume_email_change x1 x2) =
      search (store_rules, TokensKept.consume_email_change-WellFormed)
  run_store_call-WellFormed (consume_email_change_confirmation x1 x2) =
      search (store_rules, TokensKept.consume_email_change_confirmation-WellFormed)
  run_store_call-WellFormed (consume_password_reset x1 x2 x3) =
      search (store_rules, TokensKept.consume_password_reset-WellFormed)
  run_store_call-WellFormed (consume_email_verification x1 x2) =
      search (store_rules, TokensKept.consume_email_verification-WellFormed)
  run_store_call-WellFormed (put_oauth_state x) =
      search (store_rules, TokensKept.put_oauth_state-WellFormed)
  run_store_call-WellFormed (consume_oauth_state x1 x2) =
      search (store_rules, TokensKept.consume_oauth_state-WellFormed)

  pub run_store_calls-WellFormed :
      (cs : List StoreCall) (rows : Rows)
      → WellFormed a rows
      → WellFormed a (run_store_calls a cs rows)
  unfolding run_store_calls
  run_store_calls-WellFormed [] rows v = v
  run_store_calls-WellFormed (c ∷ cs) rows v =
      run_store_calls-WellFormed cs (run_store_call a c rows).1
        ((run_store_call-WellFormed c).after rows v)

-- No two rows of the table have the same text in the field.
abbrev pub OnePer : String → String → Rows → Type 0
OnePer m f rows =
    (i j s : String) (l r : Record)
    → lookup i (table rows m) ≡ some l
    → lookup j (table rows m) ≡ some r
    → field l f ≡ text s
    → field r f ≡ text s
    → i ≡ j

abbrev pub OnePerPair : String → String → String → Rows → Type 0
OnePerPair m f g rows =
    (i j s t : String) (l r : Record)
    → lookup i (table rows m) ≡ some l
    → lookup j (table rows m) ≡ some r
    → field l f ≡ text s
    → field r f ≡ text s
    → field l g ≡ text t
    → field r g ≡ text t
    → i ≡ j

-- After any sequence of calls of the store from the empty database, whether they fail or not, no two users have
-- one email, no two sessions or one-time records one token hash, and no two accounts one provider and account id.
pub run_store_calls_unique :
    (p : Printer) (cs : List StoreCall)
    → let rows = run_store_calls (core_memory p) cs [] in
      OnePer model_user "email" rows
      × OnePer model_session "tokenHash" rows
      × OnePer model_verification "value" rows
      × OnePerPair model_account "providerId" "accountId" rows
run_store_calls_unique p cs =
    let a = core_memory p in
    let rows = run_store_calls a cs [] in
    let v = run_store_calls-WellFormed a cs [] (empty-WellFormed a) in
    (
      (λ i j s l r el er fl fr.
          same_text-same_id a rows v model_user "email" s i j l r (unique_keys-user p) el er fl fr),
      (λ i j s l r el er fl fr.
          same_text-same_id a rows v model_session "tokenHash" s i j l r (unique_keys-session p) el
            er fl fr),
      (λ i j s l r el er fl fr.
          same_text-same_id a rows v model_verification "value" s i j l r
            (unique_keys-verification p) el er fl fr),
      λ i j s t l r el er fl fr gl gr.
          same_texts-same_id a rows v model_account "providerId" "accountId" s t i j l r
            (unique_keys-account p) el er fl fr gl gr,
    )
