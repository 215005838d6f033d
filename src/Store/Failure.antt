-- ===== src/Store/Failure.antt =====
-- The operations of store.go that only read, or run in a transaction: what they leave where they fail.
use better_auth_go.Prelude.{
  ◌≡◌, refl, sym, ◌∙◌, Bool, true, false, ◌||◌, arith, Bool-cases, inl, inr,
}
use better_auth_go.Action.{Error, Result, ok, err, Action, pure, ◌>>=◌, proceed}
use better_auth_go.Action.Preserves.{Preserves, landed}
use better_auth_go.Store.Invariant.Rules.{store_rules}
use better_auth_go.Memory.Table.{Adapter, Rows}
use better_auth_go.Memory.Transactions.{atomically, atomically_rollback}
use better_auth_go.Store.Users
use better_auth_go.Store.Sessions
use better_auth_go.Store.Accounts
use better_auth_go.Store.Tokens
use better_auth_go.Store.Tokens.{is_email_change}
use better_auth_go.Store.History.{
  StoreCall, run_store_call, find_user_by_id, find_user_by_email, create_session,
  session_by_token_hash, rotate_session, revoke_session, revoke_user_sessions, list_sessions,
  revoke_session_by_id, revoke_other_sessions, update_session, rotate_session_with_audit,
  create_email_user, password_credential, replace_password_hash, set_password_hash,
  change_password_and_rotate, update_user, verify_user_email, delete_user, list_accounts,
  unlink_account, unlink_account_by_id, link_oauth_account, oauth_account_tokens,
  oauth_account_tokens_by_id, update_oauth_account_tokens, upsert_oauth_user, put_one_time_token,
  has_one_time_token, consume_user_deletion, consume_email_change,
  consume_email_change_confirmation, consume_password_reset, consume_email_verification,
  put_oauth_state, consume_oauth_state,
}

-- the calls that the store makes in one transaction, putOneTimeToken for the change of an email address included
abbrev pub is_transaction : StoreCall → Bool
is_transaction (create_email_user _) = true
is_transaction (set_password_hash _ _ _) = true
is_transaction (change_password_and_rotate _) = true
is_transaction (delete_user _) = true
is_transaction (rotate_session _ _) = true
is_transaction (rotate_session_with_audit _ _ _) = true
is_transaction (unlink_account _ _ _ _) = true
is_transaction (unlink_account_by_id _ _ _) = true
is_transaction (link_oauth_account _ _ _ _ _) = true
is_transaction (upsert_oauth_user _ _ _ _ _) = true
is_transaction (put_one_time_token token) = is_email_change token.purpose
is_transaction (consume_email_change _ _) = true
is_transaction (consume_password_reset _ _ _) = true
is_transaction _ = false

module _ {A : Type 0} where
  discarded_error :
      (r : Result A × Rows) (e : Error) (after : Rows)
      → proceed r.0 (λ x. pure {S = Rows} (tt {0})) r.1 ≡ (err e, after)
      → (r.0 ≡ err e) × (r.1 ≡ after)
  unfolding pure
  discarded_error (ok x, t) e after h = ground arith
  discarded_error (err f, t) e after h = (ground arith, ground arith)

  failed_transaction :
      (m : Action Rows A) (rows after : Rows) (e : Error)
      → (do x ← atomically m; pure tt) rows ≡ (err e, after)
      → after ≡ rows
  unfolding ◌>>=◌
  failed_transaction m rows after e h =
      let (failed, same) = discarded_error (atomically m rows) e after h in
      sym same ∙ atomically_rollback m rows e failed

-- The calls that only read.
abbrev pub is_read : StoreCall → Bool
is_read (find_user_by_id _) = true
is_read (find_user_by_email _) = true
is_read (session_by_token_hash _) = true
is_read (list_sessions _ _) = true
is_read (password_credential _) = true
is_read (list_accounts _) = true
is_read (oauth_account_tokens _ _ _) = true
is_read (oauth_account_tokens_by_id _ _) = true
is_read (has_one_time_token _ _ _) = true
is_read _ = false

module _ (a : Adapter) (P : Rows → Type 0) where
  read-Preserves : (c : StoreCall) → is_read c ≡ true → Preserves P (run_store_call a c)
  unfolding run_store_call Sessions.find_user_by_id Sessions.find_user_by_email
      Sessions.session_by_token_hash Sessions.list_sessions Users.password_credential
      Accounts.list_accounts Accounts.oauth_account_tokens Accounts.oauth_account_tokens_by_id
      Tokens.has_one_time_token
  read-Preserves (find_user_by_id x) r = search store_rules
  read-Preserves (find_user_by_email x) r = search store_rules
  read-Preserves (session_by_token_hash x) r = search store_rules depth 9
  read-Preserves (list_sessions x y) r = search store_rules
  read-Preserves (password_credential x) r = search store_rules
  read-Preserves (list_accounts x) r = search store_rules
  read-Preserves (oauth_account_tokens x y z) r = search store_rules
  read-Preserves (oauth_account_tokens_by_id x y) r = search store_rules
  read-Preserves (has_one_time_token x y z) r = search store_rules
  read-Preserves _ r = absurd (cc r)

transaction_rollback :
    (a : Adapter) (c : StoreCall) (rows after : Rows) (e : Error)
    → is_transaction c ≡ true
    → run_store_call a c rows ≡ (err e, after)
    → after ≡ rows
unfolding run_store_call Users.create_email_user Users.set_password_hash
    Users.change_password_and_rotate Users.delete_user Sessions.rotate_session
    Sessions.rotate_session_with_audit Accounts.unlink_account Accounts.unlink_account_by_id
    Accounts.link_oauth_account Accounts.upsert_oauth_user Tokens.consume_email_change
    Tokens.consume_password_reset Tokens.put_one_time_token
transaction_rollback a (find_user_by_id x) rows after e t h = ground arith
transaction_rollback a (find_user_by_email x) rows after e t h = ground arith
transaction_rollback a (create_session x) rows after e t h = ground arith
transaction_rollback a (session_by_token_hash x) rows after e t h = ground arith
transaction_rollback a (rotate_session x1 x2) rows after e t h = failed_transaction _ rows after e h
transaction_rollback a (revoke_session x1 x2) rows after e t h = ground arith
transaction_rollback a (revoke_user_sessions x1 x2) rows after e t h = ground arith
transaction_rollback a (list_sessions x1 x2) rows after e t h = ground arith
transaction_rollback a (revoke_session_by_id x1 x2 x3) rows after e t h = ground arith
transaction_rollback a (revoke_other_sessions x1 x2 x3) rows after e t h = ground arith
transaction_rollback a (update_session x1 x2 x3 x4) rows after e t h = ground arith
transaction_rollback a (rotate_session_with_audit x1 x2 x3) rows after e t h =
    failed_transaction _ rows after e h
transaction_rollback a (create_email_user x) rows after e t h = failed_transaction _ rows after e h
transaction_rollback a (password_credential x) rows after e t h = ground arith
transaction_rollback a (replace_password_hash x1 x2 x3 x4) rows after e t h = ground arith
transaction_rollback a (set_password_hash x1 x2 x3) rows after e t h =
    failed_transaction _ rows after e h
transaction_rollback a (change_password_and_rotate x) rows after e t h =
    failed_transaction _ rows after e h
transaction_rollback a (update_user x1 x2 x3) rows after e t h = ground arith
transaction_rollback a (verify_user_email x1 x2) rows after e t h = ground arith
transaction_rollback a (delete_user x) rows after e t h = failed_transaction _ rows after e h
transaction_rollback a (list_accounts x) rows after e t h = ground arith
transaction_rollback a (unlink_account x1 x2 x3 x4) rows after e t h =
    failed_transaction _ rows after e h
transaction_rollback a (unlink_account_by_id x1 x2 x3) rows after e t h =
    failed_transaction _ rows after e h
transaction_rollback a (link_oauth_account x1 x2 x3 x4 x5) rows after e t h =
    failed_transaction _ rows after e h
transaction_rollback a (oauth_account_tokens x1 x2 x3) rows after e t h = ground arith
transaction_rollback a (oauth_account_tokens_by_id x1 x2) rows after e t h = ground arith
transaction_rollback a (update_oauth_account_tokens x1 x2 x3 x4) rows after e t h = ground arith
transaction_rollback a (upsert_oauth_user x1 x2 x3 x4 x5) rows after e t h =
    failed_transaction _ rows after e h
transaction_rollback a (put_one_time_token x) rows after e t h =
    failed_transaction _ rows after e (rw t at h)
transaction_rollback a (has_one_time_token x1 x2 x3) rows after e t h = ground arith
transaction_rollback a (consume_user_deletion x1 x2 x3) rows after e t h = ground arith
transaction_rollback a (consume_email_change x1 x2) rows after e t h =
    failed_transaction _ rows after e h
transaction_rollback a (consume_email_change_confirmation x1 x2) rows after e t h = ground arith
transaction_rollback a (consume_password_reset x1 x2 x3) rows after e t h =
    failed_transaction _ rows after e h
transaction_rollback a (consume_email_verification x1 x2) rows after e t h = ground arith
transaction_rollback a (put_oauth_state x) rows after e t h = ground arith
transaction_rollback a (consume_oauth_state x1 x2) rows after e t h = ground arith

-- An operation of the store that only reads, or that runs in a transaction (PutOneTimeToken does so for the two
-- tokens of an email change), and that returns an error has changed nothing.
pub run_store_call_rollback :
    (a : Adapter) (c : StoreCall) (rows after : Rows) (e : Error)
    → is_read c || is_transaction c ≡ true
    → run_store_call a c rows ≡ (err e, after)
    → after ≡ rows
run_store_call_rollback a c rows after e t h = elim (Bool-cases (is_read c)) [
  | inl r ↦ landed (read-Preserves a (λ s. s ≡ rows) c r) h refl
  | inr r ↦ transaction_rollback a c rows after e (rw r at t) h
]
