-- ===== src/Store/Authentication.antt =====
-- SessionByTokenHash of store.go: the session that a cookie's token stands for.
use better_auth_go.Prelude.{
  String, ◌≡◌, refl, sym, ap, ◌∙◌, true, ◌&&◌, List, [], ◌∷◌, some, lookup, arith, eq_refl,
}
use better_auth_go.Action.{ok, lift, pure, ◌>>=◌}
use better_auth_go.Action.Inversion.{>>=-ok, >>=-run, lift-ok}
use better_auth_go.Value.{Record, text, field}
use better_auth_go.Value.Equality.{deep_equal}
use better_auth_go.Database.{Where, equals, validate_where, validate_items, validate_item}
use better_auth_go.Schema.{model_session}
use better_auth_go.Memory.Match.{Printer, matches, project}
use better_auth_go.Memory.Table.{Rows, table, ensure_model}
use better_auth_go.Memory.WellFormed.{WellFormed}
use better_auth_go.Memory.Effects.{create-Created, table-write}
use better_auth_go.Memory.Reads.{find_one_unique}
use better_auth_go.Memory.Semantics.{matches-ands, holds-equals, deep_equal-text, text-deep_equal}
use better_auth_go.Store.Core.{core_memory, unique_keys-session, same_text-same_id}
use better_auth_go.Store.Types.{User, Session}
use better_auth_go.Store.Records.{session_record, session_of_row, session_from_record}
use better_auth_go.Store.Queries.{new_row}
use better_auth_go.Store.Sessions.{create_session, find_user_by_id, session_by_token_hash}
use better_auth_go.Store.Rotation.{create_session-written, field-session_record}
use better_auth_go.Store.Invariant.Sessions.{create_session-WellFormed}

abbrev with_hash : String → List Where
with_hash hash = equals "tokenHash" (text hash) ∷ []

with_hash-valid : (hash : String) → validate_where (with_hash hash) true ≡ ok (with_hash hash)
unfolding validate_where validate_items validate_item
with_hash-valid hash = refl

module _ (p : Printer) where
  matches-with_hash :
      (r : Record) (hash : String)
      → matches p r (with_hash hash) ≡ (deep_equal (field r "tokenHash") (text hash) && true)
  matches-with_hash r hash =
      matches-ands p r (with_hash hash) refl ∙ rw (holds-equals p r "tokenHash" (text hash))

  -- A session row with the token hash is the one that SessionByTokenHash reads; it fails as the user's lookup does.
  pub session_by_token_hash-row :
      (hash id : String) (r : Record) (s : Session) (rows : Rows)
      → WellFormed (core_memory p) rows
      → lookup id (table rows model_session) ≡ some r
      → field r "tokenHash" ≡ text hash
      → session_of_row r ≡ ok s
      → session_by_token_hash (core_memory p) hash rows
        ≡ (do user ← find_user_by_id (core_memory p) s.user_id; pure (s, user)) rows
  unfolding session_by_token_hash session_from_record lift
  session_by_token_hash-row hash id r s rows v here h read =
      >>=-run _ _ rows rows (some r) (
        find_one_unique (core_memory p) model_session (with_hash hash) rows v id r
          (with_hash-valid hash)
          (record {
            here = here;
            hit = rw (matches-with_hash r hash, h, text-deep_equal hash) refl;
          })
          (λ j q sel.
            same_text-same_id (core_memory p) rows v model_session "tokenHash" hash j id q r
              (unique_keys-session p) sel.here here
              (deep_equal-text _ hash (ground (arith, sel.hit, matches-with_hash q hash))) h))
      ∙ >>=-run _ _ rows rows s (λ i. (read i, rows))

  -- From well-formed tables, where CreateSession has returned a session and its user can be found,
  -- SessionByTokenHash of the stored hash returns that session and that user, and changes nothing.
  pub session_by_token_hash-create_session :
      (s t : Session) (u : User) (rows after : Rows)
      → WellFormed (core_memory p) rows
      → create_session (core_memory p) s rows ≡ (ok t, after)
      → find_user_by_id (core_memory p) t.user_id after ≡ (ok u, after)
      → session_by_token_hash (core_memory p) s.token_hash after ≡ (ok (t, u), after)
  unfolding create_session pure project
  session_by_token_hash-create_session s t u rows after v h found =
      let (row, mid, made, rest) = >>=-ok _ _ rows after t h in
      let (_, shown) =
        create-Created (core_memory p) (new_row model_session (session_record s)) rows mid row
          made in
      let (read, _) = lift-ok _ t mid after rest in
      session_by_token_hash-row s.token_hash s.id (session_record s) t after
        (rw h at ((create_session-WellFormed (core_memory p) s).after rows v))
        (ap (λ x. lookup s.id (table x model_session)) (create_session-written p s t rows after h)
          ∙ table-write model_session model_session s.id (session_record s)
              (ensure_model rows model_session) s.id
          ∙ rw (eq_refl s.id) refl)
        (field-session_record s).0 (ap session_of_row (sym shown) ∙ read)
      ∙ >>=-run _ _ after after u found
