-- ===== src/Store/Revocation.antt =====
-- A revoked or rotated session token is never live again.
use better_auth_go.Prelude.{
  ℕ, String, ◌≡◌, refl, sym, ap, ◌∙◌, ◌≢◌, inl, inr, true, false, ◌&&◌, List, [], ◌∷◌, none, some,
  lookup, arith, text_cases, ◌==◌, eq_refl, eq_iff, Bool-cases, if◌then◌else◌,
}
use better_auth_go.Action.{ok}
use better_auth_go.Value.{Record, text, nil, instant, field}
use better_auth_go.Value.Equality.{deep_equal}
use better_auth_go.Database.{Where, equals, validate_where, validate_items, validate_item}
use better_auth_go.Schema.{model_session}
use better_auth_go.Memory.Match.{Printer, matches}
use better_auth_go.Memory.Table.{Rows, table, assign}
use better_auth_go.Memory.WellFormed.{WellFormed, field-put}
use better_auth_go.Memory.Effects.{
  NoneSelected, Updated, update-Updated, update-none, update-NoneSelected, table-write,
}
use better_auth_go.Memory.Semantics.{
  matches-ands, holds-equals, deep_equal-text, deep_equal-nil, text-deep_equal, nil-deep_equal,
}
use better_auth_go.Store.Core.{
  core_memory, id_field-session, unique_keys-session, same_text-same_id,
}
use better_auth_go.Store.Queries.{change}
use better_auth_go.Store.Sessions.{revoke_live, revocation}

abbrev pub live_with : String → List Where
live_with hash = equals "tokenHash" (text hash) ∷ equals "revokedAt" nil ∷ []

-- No session with the token hash is live: each is revoked.
abbrev pub NoLive : String → Rows → Type 0
NoLive hash rows =
    (id : String) (r : Record)
    → lookup id (table rows model_session) ≡ some r
    → field r "tokenHash" ≡ text hash
    → field r "revokedAt" ≢ nil

pub live_with-valid : (hash : String) → validate_where (live_with hash) false ≡ ok (live_with hash)
unfolding validate_where validate_items validate_item
live_with-valid hash = refl

matches-live_with :
    (p : Printer) (r : Record) (hash : String)
    → matches p r (live_with hash) ≡ (
        deep_equal (field r "tokenHash") (text hash)
        && (deep_equal (field r "revokedAt") nil && true))
matches-live_with p r hash =
    matches-ands p r (live_with hash) refl
    ∙ rw (holds-equals p r "tokenHash" (text hash), holds-equals p r "revokedAt" nil)

pub field-revocation :
    (at : ℕ) (r : Record)
    → (field (assign "id" (revocation at) r) "revokedAt" ≡ instant at)
      × (field (assign "id" (revocation at) r) "tokenHash" ≡ field r "tokenHash")
unfolding assign
field-revocation at r = (simp field-put, simp field-put)

module _ (p : Printer) (hash : String) where
  NoLive-NoneSelected :
      (rows : Rows) → NoLive hash rows → NoneSelected p (live_with hash) (table rows model_session)
  NoLive-NoneSelected rows n id r e = elim (Bool-cases (matches p r (live_with hash))) [
    | inl hit ↦
        let both = sym (matches-live_with p r hash) ∙ hit in
        absurd (n id r e (deep_equal-text _ hash (ground arith)) (deep_equal-nil _ (ground arith)))
    | inr miss ↦ miss
  ]

  NoneSelected-NoLive :
      (rows : Rows) → NoneSelected p (live_with hash) (table rows model_session) → NoLive hash rows
  NoneSelected-NoLive rows n id r e h live = ground (
    arith,
    n id r e,
    matches-live_with p r hash,
    h,
    live,
    text-deep_equal hash,
    ap (λ v. deep_equal v (text hash)) h,
    ap (λ v. deep_equal v nil) live,
    nil-deep_equal,
  )

  -- A write of a revocation over the row that was live leaves none live.
  revoked-NoLive :
      (at : ℕ) (rows after : Rows) (u : Record)
      → WellFormed (core_memory p) rows
      → Updated (core_memory p) model_session (live_with hash) (revocation at) rows u after
      → NoLive hash after
  revoked-NoLive at rows after u v up j r e h = elim (text_cases up.id j) [
    | inl same ↦ ground (arith, at_id, later, eq_refl model_session, same, eq_iff up.id j)
    | inr other ↦ absurd (
        ground (
          arith,
          other,
          eq_refl j,
          ap (λ x. x == j)
              (same_text-same_id (core_memory p) rows v model_session "tokenHash" hash up.id j
                up.old r (unique_keys-session p) up.selected.here
                (ground (arith, sym later ∙ e, other, eq_refl model_session)) old_hash h),
        ))
  ]
    where
      at_id : field u "revokedAt" ≡ instant at
      at_id =
          ap (λ x. field x "revokedAt") up.new_row
          ∙ rw (id_field-session p) (field-revocation at up.old).0

      later : lookup j (table after model_session) ≡ (
          if model_session == model_session
          then (if up.id == j then some u else lookup j (table rows model_session))
          else lookup j (table rows model_session))
      later =
          ap (λ x. lookup j (table x model_session)) up.written
          ∙ table-write model_session model_session up.id u rows j

      old_hash : field up.old "tokenHash" ≡ text hash
      old_hash =
          deep_equal-text _ hash (ground (arith, matches-live_with p up.old hash, up.selected.hit))

  pub revoke_live-some :
      (at : ℕ) (rows after : Rows) (u : Record)
      → WellFormed (core_memory p) rows
      → revoke_live (core_memory p) hash at rows ≡ (ok (some u), after)
      → NoLive hash after
  unfolding revoke_live
  revoke_live-some at rows after u v h = revoked-NoLive at rows after u v (
      update-Updated (core_memory p) (change model_session (live_with hash) (revocation at)) rows
        after u (live_with-valid hash) (v.at model_session).distinct h)

  pub revoke_live-none :
      (at : ℕ) (rows after : Rows)
      → revoke_live (core_memory p) hash at rows ≡ (ok none, after)
      → NoLive hash after
  unfolding revoke_live
  revoke_live-none at rows after h =
      let (miss, same) =
        update-none (core_memory p) (change model_session (live_with hash) (revocation at)) rows
          after (live_with-valid hash) h in
      rw same (NoneSelected-NoLive rows miss)

  -- Where the token is not live, nothing is revoked.
  pub NoLive-revoke_live :
      (at : ℕ) (rows : Rows)
      → WellFormed (core_memory p) rows
      → NoLive hash rows
      → revoke_live (core_memory p) hash at rows ≡ (ok none, rows)
  unfolding revoke_live
  NoLive-revoke_live at rows v n =
      update-NoneSelected (core_memory p) (change model_session (live_with hash) (revocation at))
        rows (live_with-valid hash) (v.at model_session).distinct (NoLive-NoneSelected rows n)
