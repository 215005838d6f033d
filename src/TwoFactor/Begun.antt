-- ===== src/TwoFactor/Begun.antt =====
-- What verificationState leaves, once it has found the user of a request.
use better_auth_go.Prelude.{
  ℕ, String, ◌≡◌, ◌≢◌, refl, sym, ap, ◌∙◌, subst, Bool, true, false, [], ◌∷◌, Option, none, some,
  lookup, arith, Bool-cases, inl, inr, ◌==◌,
}
use better_auth_go.Action.{Error, not_found, replay, Result, ok, err, Action, lift, ◌>>=◌}
use better_auth_go.Action.Preserves.{
  Preserves, if-Preserves, bind-Preserves, throw-Preserves, pure-Preserves, landed,
}
use better_auth_go.Action.Inversion.{>>=-ok, >>=-run, >>=-err, pure-ok, unless-ok}
use better_auth_go.Value.{Record, text, field}
use better_auth_go.Value.Equality.{deep_equal}
use better_auth_go.Database.{equals, validate_where, validate_items, validate_item}
use better_auth_go.Schema.{model_verification}
use better_auth_go.Memory.Table.{Rows, Table, table, unique_keys}
use better_auth_go.Memory.WellFormed.{WellFormed}
use better_auth_go.Memory.Effects.{NoneSelected}
use better_auth_go.Memory.Semantics.{deep_equal-text, matches-ands, holds-equals}
use better_auth_go.Memory.Untouched.{IsAt, consume_one-IsAt}
use better_auth_go.Memory.Reads.{find_one-NoneSelected}
use better_auth_go.Store.Queries.{require-none}
use better_auth_go.TwoFactor.Records.{VerificationMetadata, model_two_factor, parse_metadata}
use better_auth_go.TwoFactor.Challenges.{
  Env, verification_pending, verification_attempts, verification_value, find_verification,
  find_two_factor, consume_verification, drop_pending, admit_attempt, begin_attempt,
}
use better_auth_go.TwoFactor.Lockout.{VerificationState, invalid_challenge, failing_as}
use better_auth_go.TwoFactor.Verify.{pending_state, challenge_state, verification_state}
use better_auth_go.TwoFactor.Attempts.{
  OfValue, consume_verification-ok, admit_attempt-ok, throw-never_ok,
}
use better_auth_go.TwoFactor.Preserved.{step_rules, failing_as-Preserves, begin_attempt-WellFormed}

-- No two-factor record is a user's.
abbrev pub NoFactor : String → Rows → Type 0
NoFactor user rows =
    (id : String) (r : Record)
    → lookup id (table rows model_two_factor) ≡ some r
    → field r "userId" ≢ text user

module _ {S A : Type 0} where
  pub failing_as-ok :
      (e : Error) (m : Action S A) (s t : S) (x : A)
      → failing_as e m s ≡ (ok x, t)
      → m s ≡ (ok x, t)
  unfolding failing_as
  failing_as-ok e m s t x h = result_kept (m s) h
    where
      result_kept : (p : Result A × S) → failing_as e (λ u. p) s ≡ (ok x, t) → p ≡ (ok x, t)
      result_kept (ok y, u) k = k
      result_kept (err f, u) k = absurd (ground (arith, k))

module _ (env : Env) where
  -- Every property of the rows that beginAttempt preserves, verificationState preserves.
  module _ (P : Rows → Type 0) where
    find_verification-Preserves :
        (identifier value : String) → Preserves P (find_verification env identifier value)
    unfolding find_verification
    find_verification-Preserves identifier value = search step_rules

    pub read_pending-Preserves :
        (handle : String)
        → Preserves P (
            failing_as invalid_challenge (do
              row ←
                  find_verification env verification_pending
                    (verification_value env "pending" handle)
              lift (parse_metadata row)))
    read_pending-Preserves handle = search (step_rules, find_verification-Preserves)

    pending_state-Preserves :
        (spend : Bool) (handle : String) (m : VerificationMetadata)
        → (spend ≡ true → Preserves P (begin_attempt env handle))
        → Preserves P (pending_state env spend handle m)
    unfolding pending_state
    pending_state-Preserves true handle m begins =
        if-Preserves (m.user_id == "") _ _ (throw-Preserves _)
          (bind-Preserves _ _ (failing_as-Preserves _ _ (begins refl)) (λ x. pure-Preserves _))
    pending_state-Preserves false handle m begins = search step_rules

    pub verification_state-Preserves :
        (spend : Bool) (session : Option (String × String)) (cookie : Option String)
        → ((handle : String) → spend ≡ true → Preserves P (begin_attempt env handle))
        → Preserves P (verification_state env spend session cookie)
    unfolding verification_state challenge_state
    verification_state-Preserves spend (some (user, session)) cookie begins = search step_rules
    verification_state-Preserves spend none none begins = search step_rules
    verification_state-Preserves spend none (some handle) begins =
        search (step_rules, find_verification-Preserves, pending_state-Preserves, begins)

  drop_pending-IsAt :
      (t : Table) (handle : String) → Preserves (IsAt model_two_factor t) (drop_pending env handle)
  unfolding drop_pending
  drop_pending-IsAt t handle = search (step_rules, consume_one-IsAt, refl)

  admit_attempt-IsAt :
      (t : Table) (handle : String) (row : Record) (parsed : Result VerificationMetadata)
      → Preserves (IsAt model_two_factor t) (admit_attempt env handle row parsed)
  unfolding admit_attempt
  admit_attempt-IsAt t handle row (err e) = search (step_rules, drop_pending-IsAt)
  admit_attempt-IsAt t handle row (ok m) = search (step_rules, drop_pending-IsAt)

  begin_attempt-IsAt :
      (t : Table) (handle : String) → Preserves (IsAt model_two_factor t) (begin_attempt env handle)
  unfolding begin_attempt consume_verification
  begin_attempt-IsAt t handle = search (step_rules, consume_one-IsAt, admit_attempt-IsAt, refl)

  find_two_factor-none :
      (user : String) (rows : Rows)
      → WellFormed env.adapter rows
      → NoFactor user rows
      → find_two_factor env user rows ≡ (err not_found, rows)
  unfolding find_two_factor validate_where validate_items validate_item
  find_two_factor-none user rows v unowned =
      >>=-run _ _ rows rows none (
        find_one-NoneSelected env.adapter model_two_factor (equals "userId" (text user) ∷ []) rows v
          refl none_selected)
      ∙ >>=-err _ _ rows rows not_found (require-none not_found rows)
    where
      none_selected :
          NoneSelected env.adapter.printer
            (equals "userId" (text user) ∷ [])
            (table rows model_two_factor)
      none_selected id r here = elim (Bool-cases (deep_equal (field r "userId") (text user))) [
        | inl hit ↦ absurd (unowned id r here (deep_equal-text _ _ hit))
        | inr miss ↦
            matches-ands env.adapter.printer r (equals "userId" (text user) ∷ []) refl
            ∙ rw (holds-equals env.adapter.printer r "userId" (text user), miss) refl
      ]

  -- The request of a user without a two-factor record: the record cannot be read, once verificationState has found the
  -- user.
  pub verification_state-NoFactor :
      (spend : Bool) (session : Option (String × String)) (cookie : Option String) (user : String)
      (state : VerificationState) (rows after : Rows)
      → WellFormed env.adapter rows
      → NoFactor user rows
      → verification_state env spend session cookie rows ≡ (ok state, after)
      → find_two_factor env user after ≡ (err not_found, after)
  verification_state-NoFactor spend session cookie user state rows after v unowned h =
      find_two_factor-none user after
        (landed
          (verification_state-Preserves (WellFormed env.adapter) spend session cookie
            (λ handle e. begin_attempt-WellFormed env handle))
          h v)
        (λ id r here. unowned id r (
          sym (
            ap (lookup id)
              (landed
                (verification_state-Preserves (IsAt model_two_factor (table rows model_two_factor))
                  spend session cookie
                  (λ handle e. begin_attempt-IsAt (table rows model_two_factor) handle))
                h (record { same = refl })).same)
          ∙ here))

  -- Without an attempt to spend, it changes nothing.
  pub verification_state-same :
      (session : Option (String × String)) (cookie : Option String) (state : VerificationState)
      (rows after : Rows)
      → verification_state env false session cookie rows ≡ (ok state, after)
      → after ≡ rows
  verification_state-same session cookie state rows after h =
      landed
        (verification_state-Preserves (λ s. s ≡ rows) false session cookie
          (λ handle e. absurd (cc e)))
        h refl

module _ (env : Env) (keys : unique_keys env.adapter model_verification ≡ ("value" ∷ []) ∷ []) where
  admit_attempt-same :
      (handle : String) (row : Record) (parsed : Result VerificationMetadata)
      (m : VerificationMetadata) (expires : ℕ) (mid after : Rows)
      → admit_attempt env handle row parsed mid ≡ (ok (m, expires), after)
      → mid ≡ after
  unfolding admit_attempt
  admit_attempt-same handle row (ok n) m expires mid after h =
      let (limited, read, same) = admit_attempt-ok env keys handle row n m expires mid after h in
      same
  admit_attempt-same handle row (err e) m expires mid after h =
      let (x, t, ran, last) = >>=-ok _ _ mid after (m, expires) h in
      absurd (throw-never_ok env keys (m, expires) replay t after last)

  -- After a beginAttempt that succeeded, no record has the challenge's attempt value.
  begin_attempt-cleared :
      (handle : String) (rows after : Rows) (m : VerificationMetadata) (expires : ℕ)
      → WellFormed env.adapter rows
      → begin_attempt env handle rows ≡ (ok (m, expires), after)
      → OfValue (verification_value env "attempt" handle) (λ r. ⊥) after
  unfolding begin_attempt
  begin_attempt-cleared handle rows after m expires v h =
      let (row, mid, ran, last) = >>=-ok _ _ rows after (m, expires) h in
      let (id, here, has, clear) =
        consume_verification-ok env keys verification_attempts
          (verification_value env "attempt" handle) rows mid row v ran in
      let same = admit_attempt-same handle row (parse_metadata row) m expires mid after last in
      rw same at (clear (λ r. ⊥))

  pending_state-cleared :
      (handle : String) (m : VerificationMetadata) (state : VerificationState) (rows after : Rows)
      → WellFormed env.adapter rows
      → pending_state env true handle m rows ≡ (ok state, after)
      → OfValue (verification_value env "attempt" state.key) (λ r. ⊥) after
  unfolding pending_state verification_value
  pending_state-cleared handle m state rows after v h =
      let (named, ran) = unless-ok (m.user_id == "") _ _ state rows after h in
      let ((attempt, expires), mid, begun, last) = >>=-ok _ _ rows after state ran in
      let (same, same_rows) = pure-ok _ state mid after last in
      let clear =
        begin_attempt-cleared handle rows mid attempt expires v
          (failing_as-ok _ _ rows mid (attempt, expires) begun) in
      subst (λ s. OfValue (verification_value env "attempt" s.key) (λ r. ⊥) after) same
        (subst (OfValue (verification_value env "attempt" handle) (λ r. ⊥)) same_rows clear)

  -- A pending challenge whose attempt was taken has no attempts record left.
  pub verification_state-cleared :
      (session : Option (String × String)) (cookie : Option String) (state : VerificationState)
      (rows after : Rows)
      → WellFormed env.adapter rows
      → state.pending ≡ true
      → verification_state env true session cookie rows ≡ (ok state, after)
      → OfValue (verification_value env "attempt" state.key) (λ r. ⊥) after
  unfolding verification_state challenge_state verification_value
  verification_state-cleared (some (user, session)) cookie state rows after v p h =
      absurd (cc (ap (λ (s : VerificationState). s.pending) (pure-ok _ state rows after h).0, p))
  verification_state-cleared none none state rows after v p h =
      absurd (throw-never_ok env keys state invalid_challenge rows after h)
  verification_state-cleared none (some handle) state rows after v p h =
      let (m, mid, found, last) = >>=-ok _ _ rows after state h in
      pending_state-cleared handle m state mid after
        (landed (read_pending-Preserves env (WellFormed env.adapter) handle) found v) last
