-- ===== src/TwoFactor/Requests.antt =====
-- The requests on one challenge, as interleaved steps: a request takes the attempts record (beginAttempt), and later
-- fails a factor (failedFactor), gives the attempt back (restoreAttempt), or ends otherwise. The clock, the ids and
-- the request differ from step to step.
use better_auth_go.Prelude.{ℕ, suc, String, ◌≡◌, true, List, ◌∷◌, ◌++◌, some, lookup, Assoc}
use better_auth_go.Action.{Error, Result, ok, err}
use better_auth_go.Value.{Scalar, Record, text, field}
use better_auth_go.Schema.{model_verification}
use better_auth_go.Memory.Table.{Rows, table}
use better_auth_go.Memory.WellFormed.{WellFormed}
use better_auth_go.TwoFactor.Records.{TwoFactorRecord}
use better_auth_go.TwoFactor.Challenges.{Env, verification_value, begin_attempt}
use better_auth_go.TwoFactor.Lockout.{VerificationState, failed_factor, restore_attempt}
use better_auth_go.TwoFactor.Verify.{Outcome}

pub record World : Type 0 where
  pub rows : Rows
  -- the requests that hold the challenge's attempts record
  pub in_flight : List VerificationState
  -- the wrong factors that were given
  pub guesses : ℕ

abbrev pub world : Rows → List VerificationState → ℕ → World
world rows fs n = record { rows = rows; in_flight = fs; guesses = n }

-- the environment of one request
abbrev pub at_request : Env → ℕ → Assoc Scalar → String → Env
at_request env now request session = record env {
  now = now;
  request = request;
  session_id = session;
}

-- One step on the challenge of a handle. A step elsewhere may do anything but add an attempts record of the challenge.
pub data Step (env : Env) (handle : String) (w : World) : World → Type 0 where
  begin :
      (now : ℕ) (request : Assoc Scalar) (session : String) (state : VerificationState)
      (rows : Rows)
      → begin_attempt (at_request env now request session) handle w.rows
        ≡ (ok (state.attempt, state.attempt_expiry), rows)
      → state.key ≡ handle
      → state.pending ≡ true
      → Step env handle w (world rows (state ∷ w.in_flight) w.guesses)
  refused :
      (now : ℕ) (request : Assoc Scalar) (session : String) (e : Error) (rows : Rows)
      → begin_attempt (at_request env now request session) handle w.rows ≡ (err e, rows)
      → Step env handle w (world rows w.in_flight w.guesses)
  failed :
      (now : ℕ) (request : Assoc Scalar) (session : String) (drawn audited : Result String)
      (xs ys : List VerificationState) (state : VerificationState) (r : TwoFactorRecord)
      (e : Result Outcome) (rows : Rows)
      → w.in_flight ≡ xs ++ (state ∷ ys)
      → failed_factor (at_request env now request session) drawn audited state r w.rows ≡ (e, rows)
      → Step env handle w (world rows (xs ++ ys) (suc w.guesses))
  restored :
      (now : ℕ) (request : Assoc Scalar) (session : String) (drawn : Result String)
      (xs ys : List VerificationState) (state : VerificationState) (e : Result (Unit {0}))
      (rows : Rows)
      → w.in_flight ≡ xs ++ (state ∷ ys)
      → restore_attempt (at_request env now request session) drawn state w.rows ≡ (e, rows)
      → Step env handle w (world rows (xs ++ ys) w.guesses)
  ended :
      (xs ys : List VerificationState) (state : VerificationState)
      → w.in_flight ≡ xs ++ (state ∷ ys)
      → Step env handle w (world w.rows (xs ++ ys) w.guesses)
  elsewhere :
      (rows : Rows)
      → WellFormed env.adapter rows
      → ((id : String) (r : Record)
          → lookup id (table rows model_verification) ≡ some r
          → field r "value" ≡ text (verification_value env "attempt" handle)
          → (old : String) × (lookup old (table w.rows model_verification) ≡ some r))
      → Step env handle w (world rows w.in_flight w.guesses)

pub data Steps (env : Env) (handle : String) (w : World) : World → Type 0 where
  here : Steps env handle w w
  then : {v u : World} → Steps env handle w v → Step env handle v u → Steps env handle w u
