-- ===== src/Store/Sessions.antt =====
-- store.go: sessions.
use better_auth_go.Prelude.{ℕ, String, Bool, true, false, List, [], ◌∷◌, Option, none, some, put}
use better_auth_go.Prelude.Int.{pos}
use better_auth_go.Action.{not_found, replay, Result, ok, err, Action, pure, lift, ◌>>=◌}
use better_auth_go.Value.{Record, text, instant, nil}
use better_auth_go.Database.{equals, operator_on, ne, gt}
use better_auth_go.Schema.{model_user, model_session, model_audit_event}
use better_auth_go.Memory.Table.{Adapter, Rows}
use better_auth_go.Memory.Methods.{create, find_one, find_many, update, update_many}
use better_auth_go.Memory.Transactions.{atomically}
use better_auth_go.Store.Types.{User, Session, AuditEvent}
use better_auth_go.Store.Records.{
  session_record, session_of_row, session_from_record, user_from_record, audit_event_record,
}
use better_auth_go.Store.Queries.{new_row, one_row, change, require, forgive_not_found}

-- {"revokedAt": at, "updatedAt": at}
abbrev pub revocation : ℕ → Record
revocation at = ("revokedAt", instant at) ∷ ("updatedAt", instant at) ∷ []

-- sessionFromRecord over the rows of a query
sessions_of_rows : List Record → Result (List Session)
sessions_of_rows [] = ok []
sessions_of_rows (r ∷ rs) = gather (session_of_row r) (sessions_of_rows rs)
  where
    gather : Result Session → Result (List Session) → Result (List Session)
    gather (err e) rest = err e
    gather (ok s) (err e) = err e
    gather (ok s) (ok ss) = ok (s ∷ ss)

module _ (a : Adapter) where
  -- FindUserByID
  unfoldable pub find_user_by_id : String → Action Rows User
  find_user_by_id id = do
    row ← find_one a (one_row model_user (equals "id" (text id) ∷ []))
    lift (user_from_record row)

  -- FindUserByEmail
  unfoldable pub find_user_by_email : String → Action Rows User
  find_user_by_email email = do
    row ← find_one a (one_row model_user (equals "email" (text email) ∷ []))
    lift (user_from_record row)

  -- CreateSession
  unfoldable pub create_session : Session → Action Rows Session
  create_session s = do
    row ← create a (new_row model_session (session_record s))
    lift (session_of_row row)

  -- SessionByTokenHash
  unfoldable pub session_by_token_hash : String → Action Rows (Session × User)
  session_by_token_hash hash = do
    row ← find_one a (one_row model_session (equals "tokenHash" (text hash) ∷ []))
    session ← lift (session_from_record row)
    user ← find_user_by_id session.user_id
    pure (session, user)

  -- revokes the one live session with the token hash
  unfoldable pub revoke_live : String → ℕ → Action Rows (Option Record)
  revoke_live hash at = update a (
      change model_session (equals "tokenHash" (text hash) ∷ equals "revokedAt" nil ∷ [])
        (revocation at))

  -- RotateSession
  unfoldable pub rotate_session : String → Session → Action Rows Session
  rotate_session old_hash replacement = atomically (do
    old ← revoke_live old_hash replacement.created_at
    revoked ← require replay old
    create_session replacement)

  -- RevokeSession
  unfoldable pub revoke_session : String → ℕ → Action Rows (Unit {0})
  revoke_session hash at = do row ← forgive_not_found (revoke_live hash at); pure tt

  -- RevokeUserSessions
  unfoldable pub revoke_user_sessions : String → ℕ → Action Rows (Unit {0})
  revoke_user_sessions user at = do
    n ← update_many a (
        change model_session (equals "userId" (text user) ∷ equals "revokedAt" nil ∷ [])
          (revocation at))
    pure tt

  -- ListSessions
  unfoldable pub list_sessions : String → ℕ → Action Rows (List Session)
  unfolding sessions_of_rows
  list_sessions user now = do
    rows ← find_many a (record {
      model = model_session;
      predicate =
          equals "userId" (text user)
          ∷ equals "revokedAt" nil
          ∷ operator_on "expiresAt" gt (instant now)
          ∷ [];
      limit = pos 0;
      offset = pos 0;
      select = [];
      joins = [];
      sort = some (record { on_field = "createdAt"; direction = "desc" });
    })
    lift (sessions_of_rows rows)

  -- RevokeSessionByID
  unfoldable pub revoke_session_by_id : String → String → ℕ → Action Rows Bool
  revoke_session_by_id user session at = do
    row ← update a (
        change model_session
          (equals "id" (text session) ∷ equals "userId" (text user) ∷ equals "revokedAt" nil ∷ [])
          (revocation at))
    pure (elim row [ none ↦ false | some r ↦ true ])

  -- RevokeOtherSessions
  unfoldable pub revoke_other_sessions : String → String → ℕ → Action Rows (Unit {0})
  revoke_other_sessions user current at = do
    n ← update_many a (
        change model_session
          (equals "userId" (text user)
            ∷ operator_on "id" ne (text current)
            ∷ equals "revokedAt" nil
            ∷ [])
          (revocation at))
    pure tt

  -- UpdateSession
  unfoldable pub update_session : String → String → Record → ℕ → Action Rows Session
  unfolding put
  update_session user hash fields now = do
    row ← update a (
        change model_session
          (equals "userId" (text user)
            ∷ equals "tokenHash" (text hash)
            ∷ equals "revokedAt" nil
            ∷ [])
          (put "updatedAt" (instant now) fields))
    r ← require not_found row
    lift (session_of_row r)

  -- RotateSessionWithAudit
  unfoldable pub rotate_session_with_audit : String → Session → AuditEvent → Action Rows Session
  rotate_session_with_audit actor_hash session audit = atomically (do
    rotated ← revoke_live actor_hash session.created_at
    revoked ← require replay rotated
    created ← create_session session
    event ← create a (new_row model_audit_event (audit_event_record audit))
    pure created)
