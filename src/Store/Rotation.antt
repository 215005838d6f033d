-- ===== src/Store/Rotation.antt =====
-- RotateSession and RevokeSession of store.go: a token is used for one rotation.
use better_auth_go.Prelude.{
  ℕ, String, ◌≡◌, refl, sym, ap, ◌∙◌, ◌≢◌, inl, inr, Option, none, some, lookup, arith, text_cases,
  ◌==◌, eq_refl, eq_iff, if◌then◌else◌,
}
use better_auth_go.Action.{Error, conflict, replay, Result, ok, err}
use better_auth_go.Action.Inversion.{>>=-ok, >>=-run, >>=-err, pure-ok, lift-ok}
use better_auth_go.Value.{Record, text, field}
use better_auth_go.Schema.{model_session}
use better_auth_go.Memory.Match.{Printer}
use better_auth_go.Memory.Table.{Rows, table, ensure_model}
use better_auth_go.Memory.Methods.{write}
use better_auth_go.Memory.WellFormed.{WellFormed}
use better_auth_go.Memory.Invariant.{table-ensure_model}
use better_auth_go.Memory.Effects.{create-Created, update-error, table-write}
use better_auth_go.Memory.Transactions.{atomically-ok, atomically-err}
use better_auth_go.Store.Core.{core_memory, id_field-session}
use better_auth_go.Store.Types.{Session}
use better_auth_go.Store.Records.{session_record}
use better_auth_go.Store.Queries.{
  require-ok, require-none, forgive_not_found, forgiven, new_row, change,
}
use better_auth_go.Store.Sessions.{
  revocation, create_session, revoke_live, rotate_session, revoke_session,
}
use better_auth_go.Store.Invariant.Sessions.{rotate_session-WellFormed, revoke_session-WellFormed}
use better_auth_go.Store.Revocation.{
  NoLive, live_with, live_with-valid, revoke_live-some, revoke_live-none, NoLive-revoke_live,
}

pub field-session_record :
    (s : Session)
    → (field (session_record s) "tokenHash" ≡ text s.token_hash)
      × (field (session_record s) "id" ≡ text s.id)
unfolding session_record field lookup
field-session_record s = (refl, refl)

module _ (p : Printer) where
  -- CreateSession writes the row of its session, under a new id.
  pub create_session-written :
      (s t : Session) (rows after : Rows)
      → create_session (core_memory p) s rows ≡ (ok t, after)
      → after ≡ write model_session s.id (session_record s) (ensure_model rows model_session)
  unfolding create_session
  create_session-written s t rows after h =
      let (row, mid, made, rest) = >>=-ok _ _ rows after t h in
      let (c, _) =
        create-Created (core_memory p) (new_row model_session (session_record s)) rows mid row
          made in
      let (_, same) = lift-ok _ t mid after rest in
      let named : text s.id ≡ text c.id =
        sym (field-session_record s).1
        ∙ ap (field (session_record s)) (sym (id_field-session p))
        ∙ c.named in
      cc (same, c.written, named)

  create_session-row :
      (s t : Session) (rows after : Rows)
      → create_session (core_memory p) s rows ≡ (ok t, after)
      → lookup s.id (table after model_session) ≡ some (session_record s)
  create_session-row s t rows after h =
      ap (λ x. lookup s.id (table x model_session)) (create_session-written s t rows after h)
      ∙ table-write model_session model_session s.id (session_record s)
          (ensure_model rows model_session) s.id
      ∙ rw (eq_refl s.id) refl

  create_session-NoLive :
      (hash : String) (s t : Session) (rows after : Rows)
      → s.token_hash ≢ hash
      → NoLive hash rows
      → create_session (core_memory p) s rows ≡ (ok t, after)
      → NoLive hash after
  create_session-NoLive hash s t rows after other n h id r e f = elim (text_cases s.id id) [
    | inl same ↦
        let row_of : r ≡ session_record s =
          ground (arith, sym later ∙ e, same, eq_refl model_session, eq_iff s.id id) in
        let hashes : text s.token_hash ≡ text hash =
          sym (field-session_record s).0 ∙ ap (λ v. field v "tokenHash") (sym row_of) ∙ f in
        absurd (other (cc hashes))
    | inr apart ↦
        n id r
          (ground (
            arith,
            sym later ∙ e,
            apart,
            eq_refl model_session,
            table-ensure_model (core_memory p) model_session model_session rows,
          ))
          f
  ]
    where
      later : lookup id (table after model_session) ≡ (
          if model_session == model_session
          then (if s.id == id
              then some (session_record s)
              else lookup id (table (ensure_model rows model_session) model_session))
          else lookup id (table (ensure_model rows model_session) model_session))
      later =
          ap (λ x. lookup id (table x model_session)) (create_session-written s t rows after h)
          ∙ table-write model_session model_session s.id (session_record s)
              (ensure_model rows model_session) id

  -- Where no session with the token hash is live, RotateSession fails with ErrReplay and writes nothing.
  pub NoLive-rotate_session :
      (old : String) (t : Session) (rows : Rows)
      → WellFormed (core_memory p) rows
      → NoLive old rows
      → rotate_session (core_memory p) old t rows ≡ (err replay, rows)
  unfolding rotate_session
  NoLive-rotate_session old t rows v n = atomically-err _ rows rows replay (
      >>=-run _ _ rows rows none (NoLive-revoke_live p old t.created_at rows v n)
      ∙ >>=-err _ _ rows rows replay (require-none replay rows))

  -- From well-formed tables, where the new session has another token hash, a rotation that succeeds stores the new
  -- session under its id and leaves no live session with the old hash, and rotating the old hash again returns
  -- ErrReplay and changes nothing.
  pub rotate_session-once :
      (old : String) (s t : Session) (x : Session) (rows after : Rows)
      → WellFormed (core_memory p) rows
      → s.token_hash ≢ old
      → rotate_session (core_memory p) old s rows ≡ (ok x, after)
      → (lookup s.id (table after model_session) ≡ some (session_record s))
        × NoLive old after
        × (rotate_session (core_memory p) old t after ≡ (err replay, after))
  unfolding rotate_session
  rotate_session-once old s t x rows after v other h =
      let (row, mid, revoked, rest) = >>=-ok _ _ rows after x (atomically-ok _ rows after x h) in
      let (r, mid2, there, made) = >>=-ok _ _ mid after x rest in
      let (some_row, same) = require-ok replay row mid mid2 r there in
      let gone : NoLive old mid =
        revoke_live-some p old s.created_at rows mid r v (rw some_row at revoked) in
      let gone_after = create_session-NoLive old s x mid2 after other (rw same at gone) made in
      let safe : WellFormed (core_memory p) after =
        rw (h) at ((rotate_session-WellFormed (core_memory p) old s).after rows v) in
      (
        create_session-row s x mid2 after made,
        gone_after,
        NoLive-rotate_session old t after safe gone_after,
      )

  forgiven-NoLive :
      (hash : String) (at : ℕ) (rows after : Rows) (o : Option Record)
      (r : Result (Option Record) × Rows)
      → WellFormed (core_memory p) rows
      → revoke_live (core_memory p) hash at rows ≡ r
      → ((e : Error) → r.0 ≡ err e → e ≡ conflict)
      → ◌≡◌ {A = Result (Option Record) × Rows} (forgiven r.0, r.1) (ok o, after)
      → NoLive hash after
  unfolding forgive_not_found forgiven
  forgiven-NoLive hash at rows after o (ok (some u), t) v e c h =
      revoke_live-some p hash at rows after u v (ground (arith, e))
  forgiven-NoLive hash at rows after o (ok none, t) v e c h =
      revoke_live-none p hash at rows after (ground (arith, e))
  forgiven-NoLive hash at rows after o (err f, t) v e c h = absurd (
      let bad : forgiven {A = Record} (err conflict) ≡ ok o =
        ap (λ g. forgiven {A = Record} (err g)) (sym (c f refl))
        ∙ ap (λ (x : Result (Option Record) × Rows). x.0) h in
      ground (arith, bad))

  -- From well-formed tables, after a RevokeSession that returns no error, no session with the token hash is live,
  -- and rotating the hash returns ErrReplay and changes nothing.
  pub revoke_session-NoLive :
      (hash : String) (at : ℕ) (s : Session) (rows after : Rows)
      → WellFormed (core_memory p) rows
      → revoke_session (core_memory p) hash at rows ≡ (ok tt, after)
      → NoLive hash after × (rotate_session (core_memory p) hash s after ≡ (err replay, after))
  unfolding revoke_session revoke_live forgive_not_found
  revoke_session-NoLive hash at s rows after v h =
      let (o, mid, ran, last) = >>=-ok _ _ rows after tt h in
      let gone =
        forgiven-NoLive hash at rows mid o _ v refl
          (λ e.
            update-error (core_memory p) (change model_session (live_with hash) (revocation at))
              rows e (live_with-valid hash))
          ran in
      let gone_after : NoLive hash after = rw ((pure-ok tt tt mid after last).1) at gone in
      (
        gone_after,
        NoLive-rotate_session hash s after
            (rw h at ((revoke_session-WellFormed (core_memory p) hash at).after rows v)) gone_after,
      )
