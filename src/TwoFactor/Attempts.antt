-- ===== src/TwoFactor/Attempts.antt =====
-- The attempts record of a challenge: what beginAttempt takes, and what the other steps leave.
use better_auth_go.Prelude.{
  ℕ, ◌<◌, String, ◌≡◌, refl, sym, ap, ◌∙◌, inl, inr, true, [], ◌∷◌, none, some, lookup, arith,
  text_cases, ◌==◌, eq_refl, eq_iff, Bool-cases, if◌then◌else◌,
}
use better_auth_go.Prelude.Int.{pos}
use better_auth_go.Action.{Error, not_found, replay, ok, throw}
use better_auth_go.Action.Inversion.{>>=-ok, pure-ok, lift-ok}
use better_auth_go.Value.{Record, text, instant, field}
use better_auth_go.Database.{equals, validate_item}
use better_auth_go.Schema.{model_verification}
use better_auth_go.Memory.Table.{Adapter, Rows, table, unique_keys}
use better_auth_go.Memory.WellFormed.{WellFormed}
use better_auth_go.Memory.Effects.{Consumed, consume-Consumed, table-erase}
use better_auth_go.Memory.Each.{Each}
use better_auth_go.Memory.Semantics.{deep_equal-text}
use better_auth_go.Store.Core.{same_text-same_id}
use better_auth_go.Store.Queries.{rows_where, live_token, require-ok}
use better_auth_go.Store.SingleUse.{checked_token, live_token-valid, matches-token}
use better_auth_go.TwoFactor.Config.{below}
use better_auth_go.TwoFactor.Records.{VerificationMetadata, parse_metadata}
use better_auth_go.TwoFactor.Challenges.{
  Env, verification_attempts, verification_value, consume_verification, admit_attempt,
  begin_attempt,
}

-- A record that says how often the challenge was tried.
abbrev pub Tried : ℕ → Record → Type 0
Tried n r = (m : VerificationMetadata) × (parse_metadata r ≡ ok m) × (m.attempts ≡ pos n)

-- a property of the verification record with a value
abbrev pub OfValue : String → (Record → Type 0) → Rows → Type 0
OfValue value = Each model_verification "value" value

module _ (a : Adapter) (keys : unique_keys a model_verification ≡ ("value" ∷ []) ∷ []) where
  Consumed-OfValue :
      (identifier value : String) (now : ℕ) (Q : Record → Type 0) (rows after : Rows) (r : Record)
      → WellFormed a rows
      → Consumed a model_verification
          (checked_token (equals "identifier" (text identifier)) value now)
          rows
          r
          after
      → field r "value" ≡ text value
      → OfValue value Q after
  Consumed-OfValue identifier value now Q rows after r v c has = record {
    at = λ id s e f. absurd (gone id s e f);
  }
    where
      later :
          (id : String)
          → lookup id (table after model_verification)
            ≡ (if c.id == id then none else lookup id (table rows model_verification))
      later id =
          ap (λ x. lookup id (table x model_verification)) c.erased
          ∙ ground (
            arith,
            table-erase model_verification model_verification c.id rows id,
            eq_refl model_verification,
          )

      gone :
          (id : String) (s : Record)
          → lookup id (table after model_verification) ≡ some s
          → field s "value" ≡ text value
          → ⊥
      gone id s e f = elim (text_cases c.id id) [
        | inl same ↦ ground (arith, sym (later id) ∙ e, eq_iff c.id id, same)
        | inr other ↦ ground (
          arith,
          other,
          eq_refl id,
          ap (λ x. x == id)
              (same_text-same_id a rows v model_verification "value" value c.id id r s keys
                c.selected.here (ground (arith, sym (later id) ∙ e, other)) has f),
        )
      ]

module _ (env : Env) (keys : unique_keys env.adapter model_verification ≡ ("value" ∷ []) ∷ []) where
  -- what consumeVerification has found, and that nothing with the value is left
  pub consume_verification-ok :
      (identifier value : String) (rows after : Rows) (r : Record)
      → WellFormed env.adapter rows
      → consume_verification env identifier value rows ≡ (ok r, after)
      → (id : String) × (lookup id (table rows model_verification) ≡ some r)
        × (field r "value" ≡ text value)
        × ((Q : Record → Type 0) → OfValue value Q after)
  unfolding consume_verification validate_item
  consume_verification-ok identifier value rows after r v h =
      let (o, mid, ran, last) = >>=-ok _ _ rows after r h in
      let (found, same) = require-ok not_found o mid after r last in
      let c =
        consume-Consumed env.adapter
          (rows_where model_verification
            (live_token (equals "identifier" (text identifier)) value (instant env.now)))
          (checked_token (equals "identifier" (text identifier)) value env.now) rows mid r
          (live_token-valid (equals "identifier" (text identifier)) value env.now refl)
          (v.at model_verification).distinct (rw found at ran) in
      let has : field r "value" ≡ text value = deep_equal-text _ value (
        ground (
          arith,
          c.selected.hit,
          matches-token env.adapter.printer (equals "identifier" (text identifier)) value env.now r,
        )) in
      (
        c.id,
        c.selected.here,
        has,
        λ Q.
            rw same at
              (Consumed-OfValue env.adapter keys identifier value env.now Q rows mid r v c has),
      )

  pub throw-never_ok : {A : Type 0} (x : A) (e : Error) (s t : Rows) → throw e s ≡ (ok x, t) → ⊥
  unfolding throw
  throw-never_ok x e s t h = ground arith

  pub admit_attempt-ok :
      (handle : String) (row : Record) (n m : VerificationMetadata) (expires : ℕ) (mid after : Rows)
      → admit_attempt env handle row (ok n) mid ≡ (ok (m, expires), after)
      → (below n.attempts env.config.challenge_max_attempts ≡ true) × (n ≡ m) × (mid ≡ after)
  unfolding admit_attempt
  admit_attempt-ok handle row n m expires mid after h =
      elim (Bool-cases (below n.attempts env.config.challenge_max_attempts)) [
        | inl e ↦
            let (x, t, ran, last) = >>=-ok _ _ mid after (m, expires) (rw e at h) in
            let (parsed, same_t) = lift-ok _ x mid t ran in
            let (same, same_after) = pure-ok _ (m, expires) t after last in
            (e, ap (λ (p : VerificationMetadata × ℕ). p.0) same, same_t ∙ same_after)
        | inr e ↦
            let (x, t, ran, last) = >>=-ok _ _ mid after (m, expires) (rw e at h) in
            absurd (throw-never_ok (m, expires) replay t after last)
      ]

  -- A successful beginAttempt had a record with its count, below the limit, and leaves none of the value.
  pub begin_attempt-ok :
      (handle : String) (k limit : ℕ) (rows after : Rows) (m : VerificationMetadata) (expires : ℕ)
      → env.config.challenge_max_attempts ≡ pos limit
      → WellFormed env.adapter rows
      → OfValue (verification_value env "attempt" handle) (Tried k) rows
      → begin_attempt env handle rows ≡ (ok (m, expires), after)
      → (m.attempts ≡ pos k)
        × (k < limit)
        × ((Q : Record → Type 0) → OfValue (verification_value env "attempt" handle) Q after)
  unfolding begin_attempt
  begin_attempt-ok handle k limit rows after m expires most v tried h =
      let (row, mid, ran, last) = >>=-ok _ _ rows after (m, expires) h in
      let (id, here, has, clear) =
        consume_verification-ok verification_attempts (verification_value env "attempt" handle) rows
          mid row v ran in
      let (n, parsed, count) = tried.at id row here has in
      let (below_limit, same_m, same) =
        admit_attempt-ok handle row n m expires mid after (rw parsed at last) in
      (
        cc (same_m, count),
        ground (arith, below_limit, same_m, count, most),
        λ Q. rw same at (clear Q),
      )
