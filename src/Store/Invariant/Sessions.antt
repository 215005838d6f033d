-- ===== src/Store/Invariant/Sessions.antt =====
-- The operations of the store on sessions keep the tables well formed.
use better_auth_go.Prelude.{ℕ, String}
use better_auth_go.Action.Preserves.{Preserves}
use better_auth_go.Value.{Record}
use better_auth_go.Memory.Table.{Adapter}
use better_auth_go.Memory.WellFormed.{WellFormed}
use better_auth_go.Store.Types.{Session, AuditEvent}
use better_auth_go.Store.Sessions.{
  find_user_by_id, find_user_by_email, create_session, session_by_token_hash, revoke_live,
  rotate_session, revoke_session, revoke_user_sessions, list_sessions, revoke_session_by_id,
  revoke_other_sessions, update_session, rotate_session_with_audit,
}
use better_auth_go.Store.Invariant.Rules.{store_rules}

module _ (a : Adapter) where
  pub find_user_by_id-WellFormed : (x : String) → Preserves (WellFormed a) (find_user_by_id a x)
  unfolding find_user_by_id
  find_user_by_id-WellFormed x = search store_rules

  pub find_user_by_email-WellFormed :
      (x : String) → Preserves (WellFormed a) (find_user_by_email a x)
  unfolding find_user_by_email
  find_user_by_email-WellFormed x = search store_rules

  pub create_session-WellFormed : (x : Session) → Preserves (WellFormed a) (create_session a x)
  unfolding create_session
  create_session-WellFormed x = search store_rules

  pub session_by_token_hash-WellFormed :
      (x : String) → Preserves (WellFormed a) (session_by_token_hash a x)
  unfolding session_by_token_hash
  session_by_token_hash-WellFormed x = search (store_rules, find_user_by_id-WellFormed)

  pub revoke_live-WellFormed :
      (x1 : String) (x2 : ℕ) → Preserves (WellFormed a) (revoke_live a x1 x2)
  unfolding revoke_live
  revoke_live-WellFormed x1 x2 = search store_rules

  pub rotate_session-WellFormed :
      (x1 : String) (x2 : Session) → Preserves (WellFormed a) (rotate_session a x1 x2)
  unfolding rotate_session
  rotate_session-WellFormed x1 x2 =
      search (store_rules, create_session-WellFormed, revoke_live-WellFormed)

  pub revoke_session-WellFormed :
      (x1 : String) (x2 : ℕ) → Preserves (WellFormed a) (revoke_session a x1 x2)
  unfolding revoke_session
  revoke_session-WellFormed x1 x2 = search (store_rules, revoke_live-WellFormed)

  pub revoke_user_sessions-WellFormed :
      (x1 : String) (x2 : ℕ) → Preserves (WellFormed a) (revoke_user_sessions a x1 x2)
  unfolding revoke_user_sessions
  revoke_user_sessions-WellFormed x1 x2 = search store_rules

  pub list_sessions-WellFormed :
      (x1 : String) (x2 : ℕ) → Preserves (WellFormed a) (list_sessions a x1 x2)
  unfolding list_sessions
  list_sessions-WellFormed x1 x2 = search store_rules

  pub revoke_session_by_id-WellFormed :
      (x1 : String) (x2 : String) (x3 : ℕ)
      → Preserves (WellFormed a) (revoke_session_by_id a x1 x2 x3)
  unfolding revoke_session_by_id
  revoke_session_by_id-WellFormed x1 x2 x3 = search store_rules

  pub revoke_other_sessions-WellFormed :
      (x1 : String) (x2 : String) (x3 : ℕ)
      → Preserves (WellFormed a) (revoke_other_sessions a x1 x2 x3)
  unfolding revoke_other_sessions
  revoke_other_sessions-WellFormed x1 x2 x3 = search store_rules

  pub update_session-WellFormed :
      (x1 : String) (x2 : String) (x3 : Record) (x4 : ℕ)
      → Preserves (WellFormed a) (update_session a x1 x2 x3 x4)
  unfolding update_session
  update_session-WellFormed x1 x2 x3 x4 = search store_rules

  pub rotate_session_with_audit-WellFormed :
      (x1 : String) (x2 : Session) (x3 : AuditEvent)
      → Preserves (WellFormed a) (rotate_session_with_audit a x1 x2 x3)
  unfolding rotate_session_with_audit
  rotate_session_with_audit-WellFormed x1 x2 x3 =
      search (store_rules, create_session-WellFormed, revoke_live-WellFormed) depth 9
