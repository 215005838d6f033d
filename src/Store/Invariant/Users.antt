-- ===== src/Store/Invariant/Users.antt =====
-- The operations of the store on users and credentials keep the tables well formed.
use better_auth_go.Prelude.{ℕ, String, Bool, true, false, Option, none, some}
use better_auth_go.Action.Preserves.{Preserves}
use better_auth_go.Value.{Record}
use better_auth_go.Memory.Table.{Adapter}
use better_auth_go.Memory.WellFormed.{WellFormed}
use better_auth_go.Store.Types.{Session, CreateEmailUserParams, ChangePasswordParams}
use better_auth_go.Store.Users.{
  create_session_if, create_email_user, password_credential, replace_password_hash,
  write_password_hash, set_password_hash, revoke_for_change, change_password_and_rotate,
  update_user, verify_user_email, delete_user,
}
use better_auth_go.Store.Invariant.Rules.{store_rules}
use better_auth_go.Store.Invariant.Sessions.{create_session-WellFormed}

module _ (a : Adapter) where
  pub create_session_if-WellFormed :
      (x1 : Bool) (x2 : Session) → Preserves (WellFormed a) (create_session_if a x1 x2)
  unfolding create_session_if
  create_session_if-WellFormed false x2 = search store_rules
  create_session_if-WellFormed true x2 = search store_rules

  pub create_email_user-WellFormed :
      (x : CreateEmailUserParams) → Preserves (WellFormed a) (create_email_user a x)
  unfolding create_email_user
  create_email_user-WellFormed x = search (store_rules, create_session_if-WellFormed) depth 9

  pub password_credential-WellFormed :
      (x : String) → Preserves (WellFormed a) (password_credential a x)
  unfolding password_credential
  password_credential-WellFormed x = search store_rules

  pub replace_password_hash-WellFormed :
      (x1 : String) (x2 : String) (x3 : String) (x4 : ℕ)
      → Preserves (WellFormed a) (replace_password_hash a x1 x2 x3 x4)
  unfolding replace_password_hash
  replace_password_hash-WellFormed x1 x2 x3 x4 = search store_rules

  pub write_password_hash-WellFormed :
      (x1 : String) (x2 : String) (x3 : ℕ) (x4 : Option Record)
      → Preserves (WellFormed a) (write_password_hash a x1 x2 x3 x4)
  unfolding write_password_hash
  write_password_hash-WellFormed x1 x2 x3 none = search store_rules
  write_password_hash-WellFormed x1 x2 x3 (some r) = search store_rules

  pub set_password_hash-WellFormed :
      (x1 : String) (x2 : String) (x3 : ℕ) → Preserves (WellFormed a) (set_password_hash a x1 x2 x3)
  unfolding set_password_hash
  set_password_hash-WellFormed x1 x2 x3 = search (store_rules, write_password_hash-WellFormed)

  pub revoke_for_change-WellFormed :
      (x1 : ChangePasswordParams) (x2 : Bool) → Preserves (WellFormed a) (revoke_for_change a x1 x2)
  unfolding revoke_for_change
  revoke_for_change-WellFormed x1 false = search store_rules
  revoke_for_change-WellFormed x1 true = search store_rules

  pub change_password_and_rotate-WellFormed :
      (x : ChangePasswordParams) → Preserves (WellFormed a) (change_password_and_rotate a x)
  unfolding change_password_and_rotate
  change_password_and_rotate-WellFormed x =
      search (store_rules, revoke_for_change-WellFormed, create_session-WellFormed a)

  pub update_user-WellFormed :
      (x1 : String) (x2 : Record) (x3 : ℕ) → Preserves (WellFormed a) (update_user a x1 x2 x3)
  unfolding update_user
  update_user-WellFormed x1 x2 x3 = search store_rules

  pub verify_user_email-WellFormed :
      (x1 : String) (x2 : ℕ) → Preserves (WellFormed a) (verify_user_email a x1 x2)
  unfolding verify_user_email
  verify_user_email-WellFormed x1 x2 = search (store_rules, update_user-WellFormed)

  pub delete_user-WellFormed : (x : String) → Preserves (WellFormed a) (delete_user a x)
  unfolding delete_user
  delete_user-WellFormed x = search store_rules
