-- ===== src/Store/SignOut.antt =====
-- RevokeUserSessions of store.go: signing a user out everywhere.
use better_auth_go.Prelude.{
  ℕ, String, ◌≡◌, refl, sym, ap, ◌∙◌, ◌≢◌, inl, inr, true, false, ◌&&◌, List, [], ◌∷◌, Option, none,
  some, lookup, arith, Bool-cases,
}
use better_auth_go.Action.{ok}
use better_auth_go.Action.Inversion.{>>=-ok, pure-ok}
use better_auth_go.Value.{Record, text, nil, field}
use better_auth_go.Value.Equality.{deep_equal}
use better_auth_go.Database.{
  Where, UpdateQuery, equals, validate_where, validate_items, validate_item,
}
use better_auth_go.Schema.{model_session}
use better_auth_go.Memory.Match.{Printer, matches}
use better_auth_go.Memory.Table.{Rows, table}
use better_auth_go.Memory.WellFormed.{WellFormed}
use better_auth_go.Memory.Bulk.{updated_by, updated_row, update_many-ok}
use better_auth_go.Memory.Semantics.{matches-ands, holds-equals, text-deep_equal, nil-deep_equal}
use better_auth_go.Store.Core.{core_memory, id_field-session}
use better_auth_go.Store.Queries.{change}
use better_auth_go.Store.Sessions.{revocation, revoke_user_sessions}
use better_auth_go.Store.Revocation.{field-revocation}

abbrev live_of : String → List Where
live_of user = equals "userId" (text user) ∷ equals "revokedAt" nil ∷ []

live_of-valid : (user : String) → validate_where (live_of user) false ≡ ok (live_of user)
unfolding validate_where validate_items validate_item
live_of-valid user = refl

abbrev sign_out : String → ℕ → UpdateQuery
sign_out user at = change model_session (live_of user) (revocation at)

module _ (p : Printer) (user : String) (at : ℕ) where
  matches-live_of :
      (r : Record)
      → matches p r (live_of user) ≡ (
          deep_equal (field r "userId") (text user)
          && (deep_equal (field r "revokedAt") nil && true))
  matches-live_of r =
      matches-ands p r (live_of user) refl
      ∙ rw (holds-equals p r "userId" (text user), holds-equals p r "revokedAt" nil)

  live-matches :
      (r : Record)
      → field r "userId" ≡ text user
      → field r "revokedAt" ≡ nil
      → matches p r (live_of user) ≡ true
  live-matches r owner live =
      matches-live_of r
      ∙ ground (
        arith,
        text-deep_equal user,
        nil-deep_equal,
        ap (λ v. deep_equal v (text user)) owner,
        ap (λ v. deep_equal v nil) live,
      )

  updated-not_live :
      (s : Record)
      → field (updated_by (core_memory p) (sign_out user at) s) "userId" ≡ text user
      → field (updated_by (core_memory p) (sign_out user at) s) "revokedAt" ≢ nil
  updated-not_live s = elim (Bool-cases (matches p s (live_of user))) [
    | inl hit ↦ rw (hit, id_field-session p, (field-revocation at s).0) (λ owner live. ground arith)
    | inr miss ↦ rw miss (λ owner live. ground (arith, miss, live-matches s owner live))
  ]

  row-not_live :
      (o : Option Record) (r : Record)
      → updated_row (core_memory p) (sign_out user at) o ≡ some r
      → field r "userId" ≡ text user
      → field r "revokedAt" ≢ nil
  row-not_live none r e owner live = ground arith
  row-not_live (some s) r e owner live =
      let same : updated_by (core_memory p) (sign_out user at) s ≡ r = cc e in
      updated-not_live s (ap (λ x. field x "userId") same ∙ owner)
        (ap (λ x. field x "revokedAt") same ∙ live)

  -- From well-formed tables, after a RevokeUserSessions that returns no error, every session of the user has
  -- `revokedAt` set.
  pub revoke_user_sessions-ok :
      (rows after : Rows)
      → WellFormed (core_memory p) rows
      → revoke_user_sessions (core_memory p) user at rows ≡ (ok tt, after)
      → (j : String) (r : Record) → lookup j (table after model_session) ≡ some r
      → field r "userId" ≡ text user
      → field r "revokedAt" ≢ nil
  unfolding revoke_user_sessions
  revoke_user_sessions-ok rows after v h j r e owner live =
      let (k, mid, ran, last) = >>=-ok _ _ rows after tt h in
      let rows_after : lookup j (table mid model_session) ≡ _ =
        update_many-ok (core_memory p) (sign_out user at) rows mid k (live_of-valid user)
          (v.at model_session).distinct ran model_session j in
      row-not_live (lookup j (table rows model_session)) r
        (sym rows_after
          ∙ ap (λ x. lookup j (table x model_session)) (pure-ok tt tt mid after last).1
          ∙ e)
        owner live
