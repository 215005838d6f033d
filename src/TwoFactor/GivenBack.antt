-- ===== src/TwoFactor/GivenBack.antt =====
-- restoreAttempt after a beginAttempt: the attempts record is stored again, as it was.
use better_auth_go.Prelude.{
  ◌<◌, String, ◌≡◌, ◌≢◌, refl, ap, ◌∙◌, true, false, [], ◌∷◌, none, some, lookup, ltb, arith,
  Bool-cases, inl, inr, eq_iff, eq_refl, DistinctKeys,
}
use better_auth_go.Action.{Result, ok, pure, lift}
use better_auth_go.Action.Inversion.{>>=-run}
use better_auth_go.Value.{Record, text, instant, field}
use better_auth_go.Value.Equality.{deep_equal}
use better_auth_go.Schema.{model_verification}
use better_auth_go.Memory.Table.{
  Rows, Table, table, ensure_model, id_field, unique_keys, same_unique_key, shares_key, clashes,
  conflicts,
}
use better_auth_go.Memory.Methods.{write}
use better_auth_go.Memory.WellFormed.{WellFormed}
use better_auth_go.Memory.Semantics.{deep_equal-text}
use better_auth_go.Memory.Outcomes.{create-run}
use better_auth_go.Store.Queries.{new_row}
use better_auth_go.TwoFactor.Records.{metadata_value}
use better_auth_go.TwoFactor.Challenges.{
  Env, verification_value, create_verification, rearm_attempt, ignoring,
}
use better_auth_go.TwoFactor.Lockout.{VerificationState, restore_attempt}
use better_auth_go.TwoFactor.Attempts.{OfValue}

-- No row of a table clashes with a record whose value no row has.
clashes_free :
    (value : String) (row : Record) (t : Table)
    → DistinctKeys t
    → field row "value" ≡ text value
    → ((id : String) (r : Record)
        → lookup id t ≡ some r
        → deep_equal (field r "value") (text value) ≡ false)
    → clashes (("value" ∷ []) ∷ []) row "" t ≡ false
unfolding clashes shares_key same_unique_key lookup
clashes_free value row [] d has free = refl
clashes_free value row ((id, r) ∷ t) d has free =
    let other : deep_equal (field r "value") (field row "value") ≡ false =
      ap (deep_equal (field r "value")) has ∙ free id r (rw eq_refl refl) in
    let rest =
      clashes_free value row t d.1 has (λ j s e. free j s (ground (arith, eq_iff id j, d.0, e))) in
    ground (arith, other, rest)

module _ (env : Env) where
  -- the record that a challenge's attempts are kept in
  abbrev pub attempt_row : String → VerificationState → Record
  attempt_row id state =
      ("id", text id)
      ∷ ("identifier", text "two_factor_attempts")
      ∷ ("value", text (verification_value env "attempt" state.key))
      ∷ ("expiresAt", instant state.attempt_expiry)
      ∷ ("createdAt", instant env.now)
      ∷ ("metadata", metadata_value state.attempt)
      ∷ []

module _ (env : Env) (keys : unique_keys env.adapter model_verification ≡ ("value" ∷ []) ∷ [])
    (ids : id_field env.adapter model_verification ≡ "id") where
  pub restore_attempt-run :
      (id : String) (state : VerificationState) (rows : Rows)
      → WellFormed env.adapter rows
      → OfValue (verification_value env "attempt" state.key) (λ r. ⊥) rows
      → state.pending ≡ true
      → 0 < state.attempt_expiry
      → id ≢ ""
      → lookup id (table rows model_verification) ≡ none
      → restore_attempt env (ok id) state rows ≡ (
        ok tt,
        write model_verification id
            (attempt_row env id state)
            (ensure_model rows model_verification),
      )
  unfolding restore_attempt rearm_attempt ignoring create_verification verification_value conflicts
      lookup field lift pure
  restore_attempt-run id state rows v clear pending later filled fresh =
      let nonzero : ltb 0 state.attempt_expiry ≡ true = ground (arith, later) in
      rw (pending, nonzero)
        (ap (λ (x : Result (Unit {0}) × Rows). (ok tt, x.1))
          (>>=-run _ _ rows rows id refl
            ∙ >>=-run _ _ rows _ _ (
                create-run env.adapter (new_row model_verification (attempt_row env id state)) id
                  rows (rw ids refl) filled fresh unshared)))
    where
      value_free :
          (j : String) (r : Record)
          → lookup j (table rows model_verification) ≡ some r
          → deep_equal (field r "value") (text (verification_value env "attempt" state.key)) ≡ false
      value_free j r e =
          elim (Bool-cases
            (deep_equal (field r "value") (text (verification_value env "attempt" state.key)))) [
              | inl same ↦ absurd (clear.at j r e (deep_equal-text _ _ same))
              | inr other ↦ other
            ]

      unshared : conflicts env.adapter rows model_verification (attempt_row env id state) "" ≡ false
      unshared = rw keys (
          clashes_free (verification_value env "attempt" state.key) (attempt_row env id state)
            (table rows model_verification) (v.at model_verification).distinct refl value_free)
