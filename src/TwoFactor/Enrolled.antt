-- ===== src/TwoFactor/Enrolled.antt =====
-- enable: a verified authenticator stays.
use better_auth_go.Prelude.{
  String, ◌≡◌, refl, sym, ap, ◌∙◌, ◌≢◌, true, ◌&&◌, [], ◌∷◌, Option, none, some, lookup, put, arith,
  Option-cases, inl, inr,
}
use better_auth_go.Action.{err, throw}
use better_auth_go.Action.Inversion.{>>=-run, >>=-err}
use better_auth_go.Value.{Value, Record, text, flag, nil, field}
use better_auth_go.Database.{validate_where, validate_items, validate_item}
use better_auth_go.Value.Equality.{deep_equal}
use better_auth_go.Memory.Match.{matches, project, projected}
use better_auth_go.Memory.Table.{Rows, table, unique_keys}
use better_auth_go.Memory.WellFormed.{WellFormed}
use better_auth_go.Memory.Effects.{Selected}
use better_auth_go.Memory.Reads.{find_one-project}
use better_auth_go.Memory.Semantics.{matches-ands, holds-equals, deep_equal-text, text-deep_equal}
use better_auth_go.Memory.Transactions.{atomically-err}
use better_auth_go.Store.Core.{same_text-same_id}
use better_auth_go.TwoFactor.Records.{model_two_factor}
use better_auth_go.TwoFactor.Challenges.{Env}
use better_auth_go.TwoFactor.Verify.{Services}
use better_auth_go.TwoFactor.Enroll.{Setup, already_enabled, refuse_verified, enroll}
use better_auth_go.TwoFactor.Passwords.{of_user}

module _ (env : Env) (services : Services) (setup : Setup) (rows : Rows)
    (v : WellFormed env.adapter rows)
    (keys : unique_keys env.adapter model_two_factor ≡ ("userId" ∷ []) ∷ []) where
  matches-of_user :
      (r : Record)
      → matches env.adapter.printer r (of_user setup.user_id)
        ≡ (deep_equal (field r "userId") (text setup.user_id) && true)
  matches-of_user r =
      matches-ands env.adapter.printer r (of_user setup.user_id) refl
      ∙ rw (holds-equals env.adapter.printer r "userId" (text setup.user_id)) refl

  project-found :
      (r : Record) (f : String) (x : Value) → lookup f r ≡ some x → project r (f ∷ []) ≡ (f, x) ∷ []
  unfolding project projected put
  project-found r f x e = ap (λ (o : Option Value). elim o [ none ↦ [] | some y ↦ (f, y) ∷ [] ]) e

  field-found :
      (r : Record) (f : String) (x : Value) → field r f ≡ x → x ≢ nil → lookup f r ≡ some x
  unfolding field
  field-found r f x h other = elim (Option-cases (lookup f r)) [
    | inl e ↦
        absurd (other (sym h ∙ ap (λ (o : Option Value). elim o [ none ↦ nil | some y ↦ y ]) e))
    | inr (y, e) ↦
        e ∙ ap some (sym (ap (λ (o : Option Value). elim o [ none ↦ nil | some z ↦ z ]) e) ∙ h)
  ]

  field-project :
      (r : Record)
      → field r "verified" ≡ flag true
      → field (project r ("verified" ∷ [])) "verified" ≡ flag true
  unfolding field lookup
  field-project r h =
      rw
        (project-found r "verified" (flag true)
          (field-found r "verified" (flag true) h (λ e. cc e)))
        refl

  refuse_verified-err :
      (r : Record) (s : Rows)
      → field r "verified" ≡ flag true
      → refuse_verified env services (some r) s ≡ (err already_enabled, s)
  unfolding refuse_verified throw
  refuse_verified-err r s h = rw h refl

  -- On well-formed tables, where users are unique in the two-factor table and a user has a verified two-factor
  -- record, the enrollment of another authenticator is refused as already enabled, and every row stays as it was.
  pub enroll-verified :
      (id : String) (r : Record) (new_id secret codes : String)
      → lookup id (table rows model_two_factor) ≡ some r
      → field r "userId" ≡ text setup.user_id
      → field r "verified" ≡ flag true
      → enroll env services setup new_id secret codes rows ≡ (err already_enabled, rows)
  unfolding enroll validate_where validate_items validate_item
  enroll-verified id r new_id secret codes here owner verified =
      atomically-err _ rows rows already_enabled (
        >>=-run _ _ rows rows (some (project r ("verified" ∷ []))) (
          find_one-project env.adapter model_two_factor (of_user setup.user_id) rows v
            ("verified" ∷ []) id r refl
            (record {
              here = here;
              hit = matches-of_user r ∙ rw (owner, text-deep_equal setup.user_id) refl;
            })
            only)
        ∙ >>=-err _ _ rows rows already_enabled
            (refuse_verified-err (project r ("verified" ∷ [])) rows (field-project r verified)))
    where
      only :
          (j : String) (s : Record)
          → Selected env.adapter.printer (of_user setup.user_id) (table rows model_two_factor) j s
          → j ≡ id
      only j s sel =
          same_text-same_id env.adapter rows v model_two_factor "userId" setup.user_id j id s r keys
            sel.here here (deep_equal-text _ _ (ground (arith, matches-of_user s, sel.hit))) owner
