-- ===== src/Store/Users.antt =====
-- store.go: users and their password credential.
use better_auth_go.Prelude.{ℕ, String, Bool, true, false, [], ◌∷◌, Option, none, some, put}
use better_auth_go.Action.{not_found, replay, Result, ok, err, Action, pure, lift, ◌>>=◌}
use better_auth_go.Value.{Record, text, flag, instant, nil}
use better_auth_go.Database.{equals}
use better_auth_go.Schema.{model_user, model_session, model_account, model_outbox_event}
use better_auth_go.Memory.Table.{Adapter, Rows}
use better_auth_go.Memory.Methods.{create, find_one, update, update_many, delete, delete_many}
use better_auth_go.Memory.Transactions.{atomically}
use better_auth_go.Store.Types.{
  User, Session, PasswordCredential, CreateEmailUserParams, ChangePasswordParams,
}
use better_auth_go.Store.Records.{
  user_record, user_of_row, session_record, domain_event_record, record_string, record_time,
}
use better_auth_go.Store.Queries.{
  new_row, one_row, rows_where, change, require, forgive_not_found, account_key_where,
  credential_where, credential_row, credential_provider,
}
use better_auth_go.Store.Sessions.{create_session, revocation}

credential_of_row : String → Record → Result PasswordCredential
credential_of_row user r = gather (record_string r "password") (record_time r "updatedAt")
  where
    gather : Result String → Result ℕ → Result PasswordCredential
    gather (err e) t = err e
    gather (ok p) (err e) = err e
    gather (ok p) (ok t) = ok (record { user_id = user; password_hash = p; updated_at = t })

-- the nil record reads as an empty one
credential_from_record : String → Option Record → Result PasswordCredential
unfolding credential_of_row
credential_from_record user none = credential_of_row user []
credential_from_record user (some r) = credential_of_row user r

module _ (a : Adapter) where
  unfoldable pub create_session_if : Bool → Session → Action Rows (Unit {0})
  create_session_if false s = pure tt
  create_session_if true s = do row ← create a (new_row model_session (session_record s)); pure tt

  -- CreateEmailUser
  unfoldable pub create_email_user : CreateEmailUserParams → Action Rows User
  create_email_user p = atomically (do
    row ← create a (new_row model_user (user_record p.user))
    created ← lift (user_of_row row)
    account ← create a (
        new_row model_account (
          credential_row p.user.id p.password_hash (instant p.user.created_at)
            (instant p.user.updated_at)))
    session ← create_session_if p.create_session p.session
    event ← create a (new_row model_outbox_event (domain_event_record p.event))
    pure created)

  -- PasswordCredential
  unfoldable pub password_credential : String → Action Rows PasswordCredential
  unfolding credential_from_record
  password_credential user = do
    row ← find_one a (one_row model_account (account_key_where credential_provider user))
    lift (credential_from_record user row)

  -- ReplacePasswordHash
  unfoldable pub replace_password_hash : String → String → String → ℕ → Action Rows (Unit {0})
  replace_password_hash user previous replacement now = do
    row ← update a (
        change model_account (credential_where user (equals "password" (text previous)))
          (("password", text replacement) ∷ ("updatedAt", instant now) ∷ []))
    pure tt

  -- the two branches of SetPasswordHash on the account that it found
  unfoldable pub write_password_hash : String → String → ℕ → Option Record → Action Rows (Unit {0})
  write_password_hash user hash now none = do
    row ← create a (new_row model_account (credential_row user hash (instant now) (instant now)))
    pure tt
  write_password_hash user hash now (some account) = do
    row ← update a (
        change model_account (credential_where user (equals "userId" (text user)))
          (("password", text hash) ∷ ("updatedAt", instant now) ∷ []))
    updated ← require replay row
    pure tt

  -- SetPasswordHash
  unfoldable pub set_password_hash : String → String → ℕ → Action Rows (Unit {0})
  set_password_hash user hash now = atomically (do
    account ←
        forgive_not_found
          (find_one a (one_row model_account (credential_where user (equals "userId" (text user)))))
    write_password_hash user hash now account)

  -- the sessions that ChangePasswordAndRotate revokes
  unfoldable pub revoke_for_change : ChangePasswordParams → Bool → Action Rows (Unit {0})
  revoke_for_change p true = do
    n ← update_many a (
        change model_session (equals "userId" (text p.user_id) ∷ equals "revokedAt" nil ∷ [])
          (revocation p.replacement_session.created_at))
    pure tt
  revoke_for_change p false = do
    row ← update a (
        change model_session
          (equals "userId" (text p.user_id)
            ∷ equals "tokenHash" (text p.current_token_hash)
            ∷ equals "revokedAt" nil
            ∷ [])
          (revocation p.replacement_session.created_at))
    current ← require replay row
    pure tt

  -- ChangePasswordAndRotate
  unfoldable pub change_password_and_rotate : ChangePasswordParams → Action Rows Session
  change_password_and_rotate p = atomically (do
    row ← update a (
        change model_account
          (equals "providerId" (text credential_provider)
            ∷ equals "accountId" (text p.user_id)
            ∷ equals "userId" (text p.user_id)
            ∷ equals "password" (text p.previous_hash)
            ∷ [])
          (("password", text p.replacement_hash)
            ∷ ("updatedAt", instant p.replacement_session.created_at)
            ∷ []))
    account ← require replay row
    revoked ← revoke_for_change p p.revoke_other_sessions
    create_session a p.replacement_session)

  -- UpdateUser
  unfoldable pub update_user : String → Record → ℕ → Action Rows User
  unfolding put
  update_user user fields now = do
    row ←
        update a
          (change model_user (equals "id" (text user) ∷ []) (put "updatedAt" (instant now) fields))
    r ← require not_found row
    lift (user_of_row r)

  -- VerifyUserEmail
  unfoldable pub verify_user_email : String → ℕ → Action Rows User
  verify_user_email user now = update_user user (("emailVerified", flag true) ∷ []) now

  -- DeleteUser
  unfoldable pub delete_user : String → Action Rows (Unit {0})
  delete_user user = atomically (do
    sessions ← delete_many a (rows_where model_session (equals "userId" (text user) ∷ []))
    accounts ← delete_many a (rows_where model_account (equals "userId" (text user) ∷ []))
    delete a (rows_where model_user (equals "id" (text user) ∷ [])))
