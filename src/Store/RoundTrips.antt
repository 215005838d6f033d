-- ===== src/Store/RoundTrips.antt =====
-- Records that the store writes, read back.
use better_auth_go.Prelude.{
  ℕ, zero, suc, ◌≡◌, ◌≢◌, ne→eq_false, refl, ◌∙◌, Option, none, some, lookup,
}
use better_auth_go.Action.{ok}
use better_auth_go.Store.Types.{User, Session, ProviderTokens}
use better_auth_go.Store.Records.{
  user_record, user_of_row, session_record, session_of_row, token_columns, tokens_of_row,
  nullable_time, nullable_time_value, optional_time, optional_time_ptr,
}

nullable_time-round : (t : Option ℕ) → optional_time_ptr (nullable_time t) ≡ t
unfolding nullable_time optional_time_ptr
nullable_time-round none = refl
nullable_time-round (some t) = refl

nullable_time_value-round : (t : ℕ) → optional_time (nullable_time_value t) ≡ t
unfolding nullable_time_value optional_time
nullable_time_value-round zero = refl
nullable_time_value-round (suc t) = refl

-- a user and a session whose times are not Go's zero time
abbrev pub dated_user : User → ℕ → ℕ → User
dated_user u c d = record u { created_at = suc c; updated_at = suc d }

abbrev pub dated_session : Session → ℕ → ℕ → ℕ → ℕ → Session
dated_session s x c d l = record s {
  expires_at = suc x;
  created_at = suc c;
  updated_at = suc d;
  last_seen_at = suc l;
}

-- userFromRecord reads back the user that userRecord wrote, where its id and its email are not empty and its times not
-- zero.
pub user_of_row-user_record :
    (u : User) (c d : ℕ)
    → u.id ≢ ""
    → u.email ≢ ""
    → user_of_row (user_record (dated_user u c d)) ≡ ok (dated_user u c d)
unfolding user_record user_of_row lookup
user_of_row-user_record u c d has_id has_email =
    let written : user_of_row (user_record (dated_user u c d))
        ≡ ok (record (dated_user u c d) {
          disabled_at = optional_time_ptr (nullable_time u.disabled_at);
        }) =
      rw (ne→eq_false _ _ has_id, ne→eq_false _ _ has_email) refl in
    written ∙ λ i.
    ok (record (dated_user u c d) { disabled_at = nullable_time-round u.disabled_at i })

-- sessionFromRecord reads back the session that sessionRecord wrote, where its id, its user's id and its token hash are
-- not empty and its times not zero.
pub session_of_row-session_record :
    (s : Session) (x c d l : ℕ)
    → s.id ≢ ""
    → s.user_id ≢ ""
    → s.token_hash ≢ ""
    → session_of_row (session_record (dated_session s x c d l)) ≡ ok (dated_session s x c d l)
unfolding session_record session_of_row lookup
session_of_row-session_record s x c d l has_id has_user has_hash =
    let written : session_of_row (session_record (dated_session s x c d l))
        ≡ ok (record (dated_session s x c d l) {
          revoked_at = optional_time_ptr (nullable_time s.revoked_at);
        }) =
      rw (ne→eq_false _ _ has_id, ne→eq_false _ _ has_user, ne→eq_false _ _ has_hash) refl in
    written ∙ λ i.
    ok (record (dated_session s x c d l) { revoked_at = nullable_time-round s.revoked_at i })

-- The tokens of an account row are those of the provider's tokens whose columns it holds.
pub tokens_of_row-token_columns : (t : ProviderTokens) → tokens_of_row (token_columns t) ≡ t
unfolding token_columns tokens_of_row lookup
tokens_of_row-token_columns t = λ i. record t {
  access_token_expires_at = nullable_time_value-round t.access_token_expires_at i;
  refresh_token_expires_at = nullable_time_value-round t.refresh_token_expires_at i;
}
