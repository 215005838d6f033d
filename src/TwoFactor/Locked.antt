-- ===== src/TwoFactor/Locked.antt =====
-- A locked account: its factors are not looked at.
use better_auth_go.Prelude.{ℕ, ◌<◌, String, ◌≡◌, refl, true, ◌&&◌, some, ltb, Bool-cases, inl, inr}
use better_auth_go.Action.{Error, Result, ok, err, Action, throw, pure}
use better_auth_go.Action.Inversion.{>>=-run}
use better_auth_go.Schema.{model_verification}
use better_auth_go.Memory.Table.{Rows}
use better_auth_go.Memory.WellFormed.{WellFormed}
use better_auth_go.Memory.Outcomes.{OnlyRow}
use better_auth_go.TwoFactor.GivenBack.{attempt_row}
use better_auth_go.TwoFactor.Records.{TwoFactorRecord}
use better_auth_go.TwoFactor.Challenges.{Env, find_two_factor, rearm_attempt, ignoring}
use better_auth_go.TwoFactor.Lockout.{VerificationState, too_many_attempts, restore_attempt}
use better_auth_go.TwoFactor.Verify.{Request, Outcome, verification_state, restoring}

-- A handler was refused, and stored the challenge's attempts again, with the count that they had.
pub GaveBack : Env → VerificationState → String → Rows → Result Outcome × Rows → Type 0
GaveBack env state id mid (out, after) =
    (out ≡ err too_many_attempts)
    × OnlyRow model_verification id (attempt_row env id state) mid after

module _ (env : Env) where
  restore_attempt-ok :
      (drawn : Result String) (state : VerificationState) (rows : Rows)
      → restore_attempt env drawn state rows ≡ (ok tt, (restore_attempt env drawn state rows).1)
  unfolding restore_attempt rearm_attempt ignoring pure
  restore_attempt-ok drawn state rows =
      elim (Bool-cases (state.pending && ltb 0 state.attempt_expiry)) [
        | inl e ↦ rw e refl
        | inr e ↦ rw e refl
      ]

  pub restoring-run :
      {A : Type 0} (request : Request) (state : VerificationState) (e : Error) (rows : Rows)
      → restoring env {A = A} request state e rows
        ≡ (err e, (restore_attempt env (request.ids 0) state rows).1)
  unfolding restoring throw
  restoring-run request state e rows =
      >>=-run _ _ rows (restore_attempt env (request.ids 0) state rows).1 tt
        (restore_attempt-ok (request.ids 0) state rows)

  module _ (request : Request) (state : VerificationState) (r : TwoFactorRecord) (until : ℕ)
      (rows mid : Rows)
      (challenged : verification_state env true request.session request.pending_cookie rows
        ≡ (ok state, mid))
      (pending : state.pending ≡ true) (found : find_two_factor env state.user_id mid ≡ (ok r, mid))
      (verified : r.verified ≡ true) (locked : r.locked_until ≡ some until)
      (later : env.now < until) where
    abbrev restored : Rows
    restored = (restore_attempt env (request.ids 0) state mid).1
