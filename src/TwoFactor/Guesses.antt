-- ===== src/TwoFactor/Guesses.antt =====
-- How many wrong factors the requests on one challenge can try: what holds between their steps.
use better_auth_go.Prelude.{
  ℕ, suc, ◌≤◌, ◌<◌, String, ◌≡◌, refl, sym, ap, ◌∙◌, List, [], ◌∷◌, ◌++◌, some, lookup, Assoc,
  arith,
}
use better_auth_go.Prelude.Int.{ℤ, pos, ◌+ℤ◌}
use better_auth_go.Action.{Error, Result, ok, err}
use better_auth_go.Action.Preserves.{landed}
use better_auth_go.Value.{Scalar, Record, text, field}
use better_auth_go.Schema.{model_verification}
use better_auth_go.Memory.Table.{Rows, table, unique_keys}
use better_auth_go.Memory.WellFormed.{WellFormed}
use better_auth_go.TwoFactor.Records.{TwoFactorRecord}
use better_auth_go.TwoFactor.Challenges.{Env, verification_value, begin_attempt}
use better_auth_go.TwoFactor.Lockout.{VerificationState, failed_factor, restore_attempt}
use better_auth_go.TwoFactor.Verify.{Outcome}
use better_auth_go.TwoFactor.Attempts.{Tried, OfValue, begin_attempt-ok}
use better_auth_go.TwoFactor.Preserved.{
  begin_attempt-WellFormed, begin_attempt-OfValue, failed_factor-WellFormed, failed_factor-OfValue,
  restore_attempt-WellFormed, restore_attempt-OfValue,
}
use better_auth_go.TwoFactor.Requests.{
  World, world, at_request, Step, Steps, begin, refused, failed, restored, ended, elsewhere, here,
  then,
}

-- the only request in flight, if any
data Phase (env : Env) (handle : String) (limit : ℕ) (rows : Rows) (n : ℕ)
    (fs : List VerificationState) : Type 0 where
  idle :
      fs ≡ []
      → OfValue (verification_value env "attempt" handle) (Tried n) rows
      → n ≤ limit
      → Phase env handle limit rows n fs
  busy :
      (state : VerificationState)
      → fs ≡ state ∷ []
      → state.attempt.attempts ≡ pos n
      → n < limit
      → OfValue (verification_value env "attempt" handle) (λ r. ⊥) rows
      → Phase env handle limit rows n fs

record Inv (env : Env) (handle : String) (limit : ℕ) (w : World) : Type 0 where
  tables : WellFormed env.adapter w.rows
  phase : Phase env handle limit w.rows w.guesses w.in_flight

-- a list of one element that is split
one_split :
    {A : Type 0} (x y : A) (xs ys : List A) → x ∷ [] ≡ xs ++ (y ∷ ys) → (y ≡ x) × (xs ++ ys ≡ [])
one_split x y [] ys e = (cc e, cc e)
one_split x y (z ∷ []) ys e = absurd (cc e)
one_split x y (z ∷ u ∷ xs) ys e = absurd (cc e)

none_split : {A : Type 0} (y : A) (xs ys : List A) → [] ≡ xs ++ (y ∷ ys) → ⊥
none_split y [] ys e = cc e
none_split y (x ∷ xs) ys e = cc e

-- no record, so every record has any property
all_of_none :
    (value : String) (Q : Record → Type 0) (rows : Rows)
    → OfValue value (λ r. ⊥) rows
    → OfValue value Q rows
all_of_none value Q rows e = record { at = λ id r h f. absurd (e.at id r h f) }

suc_attempts : (x : ℤ) (n : ℕ) → x ≡ pos n → x +ℤ pos 1 ≡ pos (suc n)
unfolding ◌+ℤ◌
suc_attempts x n e = rw e (ground arith)

module _ (env : Env) (keys : unique_keys env.adapter model_verification ≡ ("value" ∷ []) ∷ [])
    (handle : String) (limit : ℕ) (most : env.config.challenge_max_attempts ≡ pos limit) where
  abbrev tag : String
  tag = verification_value env "attempt" handle

  begin-Inv :
      (now : ℕ) (request : Assoc Scalar) (session : String) (state : VerificationState) (w : World)
      (after : Rows)
      → begin_attempt (at_request env now request session) handle w.rows
        ≡ (ok (state.attempt, state.attempt_expiry), after)
      → Inv env handle limit w
      → Inv env handle limit (world after (state ∷ w.in_flight) w.guesses)
  unfolding verification_value
  begin-Inv now request session state w after h i = record {
    tables =
        landed (begin_attempt-WellFormed (at_request env now request session) handle) h i.tables;
    phase = begun i.phase;
  }
    where
      taken :
          (k : ℕ)
          → OfValue tag (Tried k) w.rows
          → (state.attempt.attempts ≡ pos k)
            × (k < limit)
            × ((Q : Record → Type 0) → OfValue tag Q after)
      taken k tried =
          begin_attempt-ok (at_request env now request session) keys handle k limit w.rows after
            state.attempt state.attempt_expiry most i.tables tried h

      begun :
          Phase env handle limit w.rows w.guesses w.in_flight
          → Phase env handle limit after w.guesses (state ∷ w.in_flight)
      begun (idle empty tried small) =
          let (count, below, clear) = taken w.guesses tried in
          busy state (ap (λ fs. state ∷ fs) empty) count below (clear (λ r. ⊥))
      begun (busy other one count below clear) =
          absurd (cc ((taken 0 (all_of_none _ _ _ clear)).0, (taken 1 (all_of_none _ _ _ clear)).0))

  refused-Inv :
      (now : ℕ) (request : Assoc Scalar) (session : String) (e : Error) (w : World) (after : Rows)
      → begin_attempt (at_request env now request session) handle w.rows ≡ (err e, after)
      → Inv env handle limit w
      → Inv env handle limit (world after w.in_flight w.guesses)
  unfolding verification_value
  refused-Inv now request session e w after h i = record {
    tables =
        landed (begin_attempt-WellFormed (at_request env now request session) handle) h i.tables;
    phase = kept i.phase;
  }
    where
      still : (Q : Record → Type 0) → OfValue tag Q w.rows → OfValue tag Q after
      still Q old =
          landed (begin_attempt-OfValue (at_request env now request session) tag Q handle) h old

      kept :
          Phase env handle limit w.rows w.guesses w.in_flight
          → Phase env handle limit after w.guesses w.in_flight
      kept (idle empty tried small) = idle empty (still _ tried) small
      kept (busy state one count below clear) = busy state one count below (still _ clear)

  -- A request in flight that ends: it is the only one, and the record that it leaves has the new count.
  left-Phase :
      (w : World) (after : Rows) (xs ys : List VerificationState) (state : VerificationState)
      (n : ℕ)
      → w.in_flight ≡ xs ++ (state ∷ ys)
      → ((old : VerificationState)
          → state ≡ old
          → old.attempt.attempts ≡ pos w.guesses
          → w.guesses < limit
          → OfValue tag (λ r. ⊥) w.rows
          → OfValue tag (Tried n) after × (n ≤ limit))
      → Phase env handle limit w.rows w.guesses w.in_flight
      → Phase env handle limit after n (xs ++ ys)
  unfolding verification_value
  left-Phase w after xs ys state n h go (idle empty tried small) =
      absurd (none_split state xs ys (sym empty ∙ h))
  left-Phase w after xs ys state n h go (busy old one count below clear) =
      let (same, rest) = one_split old state xs ys (sym one ∙ h) in
      let (new, small) = go old same count below clear in idle rest new small

  failed-Inv :
      (now : ℕ) (request : Assoc Scalar) (session : String) (drawn audited : Result String)
      (xs ys : List VerificationState) (state : VerificationState) (r : TwoFactorRecord)
      (e : Result Outcome) (w : World) (after : Rows)
      → w.in_flight ≡ xs ++ (state ∷ ys)
      → failed_factor (at_request env now request session) drawn audited state r w.rows ≡ (e, after)
      → Inv env handle limit w
      → Inv env handle limit (world after (xs ++ ys) (suc w.guesses))
  unfolding verification_value
  failed-Inv now request session drawn audited xs ys state r e w after split h i = record {
    tables =
        landed (failed_factor-WellFormed (at_request env now request session) drawn audited state r)
          h i.tables;
    phase =
        left-Phase w after xs ys state (suc w.guesses) split
          (λ old same count below clear. (
            landed
                (failed_factor-OfValue (at_request env now request session) tag (suc w.guesses)
                  drawn audited state r
                  (suc_attempts _ _ (ap (λ s. s.attempt.attempts) same ∙ count)))
                h (all_of_none _ _ _ clear),
            omega (arith, below),
          ))
          i.phase;
  }

  restored-Inv :
      (now : ℕ) (request : Assoc Scalar) (session : String) (drawn : Result String)
      (xs ys : List VerificationState) (state : VerificationState) (e : Result (Unit {0}))
      (w : World) (after : Rows)
      → w.in_flight ≡ xs ++ (state ∷ ys)
      → restore_attempt (at_request env now request session) drawn state w.rows ≡ (e, after)
      → Inv env handle limit w
      → Inv env handle limit (world after (xs ++ ys) w.guesses)
  unfolding verification_value
  restored-Inv now request session drawn xs ys state e w after split h i = record {
    tables =
        landed (restore_attempt-WellFormed (at_request env now request session) drawn state) h
          i.tables;
    phase =
        left-Phase w after xs ys state w.guesses split
          (λ old same count below clear. (
            landed
                (restore_attempt-OfValue (at_request env now request session) tag w.guesses drawn
                  state (ap (λ s. s.attempt.attempts) same ∙ count))
                h (all_of_none _ _ _ clear),
            omega (arith, below),
          ))
          i.phase;
  }

  elsewhere-Phase :
      (w : World) (after : Rows)
      → ((id : String) (r : Record)
          → lookup id (table after model_verification) ≡ some r
          → field r "value" ≡ text tag
          → (old : String) × (lookup old (table w.rows model_verification) ≡ some r))
      → Phase env handle limit w.rows w.guesses w.in_flight
      → Phase env handle limit after w.guesses w.in_flight
  unfolding verification_value
  elsewhere-Phase w after old p = kept p
    where
      still : (Q : Record → Type 0) → OfValue tag Q w.rows → OfValue tag Q after
      still Q e = record { at = λ id r h f. e.at (old id r h f).0 r (old id r h f).1 f }

      kept :
          Phase env handle limit w.rows w.guesses w.in_flight
          → Phase env handle limit after w.guesses w.in_flight
      kept (idle empty tried small) = idle empty (still _ tried) small
      kept (busy state one count below clear) = busy state one count below (still _ clear)

  step-Inv : (w u : World) → Step env handle w u → Inv env handle limit w → Inv env handle limit u
  step-Inv w _ (begin now request session state rows h key pending) i =
      begin-Inv now request session state w rows h i
  step-Inv w _ (refused now request session e rows h) i =
      refused-Inv now request session e w rows h i
  step-Inv w _ (failed now request session drawn audited xs ys state r e rows split h) i =
      failed-Inv now request session drawn audited xs ys state r e w rows split h i
  step-Inv w _ (restored now request session drawn xs ys state e rows split h) i =
      restored-Inv now request session drawn xs ys state e w rows split h i
  step-Inv w _ (ended xs ys state split) i = record {
    tables = i.tables;
    phase =
        left-Phase w w.rows xs ys state w.guesses split
          (λ old same count below clear. (all_of_none _ _ _ clear, omega (arith, below))) i.phase;
  }
  step-Inv w _ (elsewhere rows v old) i = record {
    tables = v;
    phase = elsewhere-Phase w rows old i.phase;
  }

  run-Inv : (w u : World) → Steps env handle w u → Inv env handle limit w → Inv env handle limit u
  run-Inv w _ here i = i
  run-Inv w u (then {v} s t) i = step-Inv v u t (run-Inv w v s i)

  guesses_of : (w : World) → Inv env handle limit w → w.guesses ≤ limit
  guesses_of w i = small i.phase
    where
      small : Phase env handle limit w.rows w.guesses w.in_flight → w.guesses ≤ limit
      small (idle empty tried le) = le
      small (busy state one count below clear) = omega (arith, below)

  -- On the challenge of a handle, where the tables are well formed, verification values are unique, and the
  -- attempts record starts with no attempt and no request in flight, no interleaving of requests, at whatever
  -- times, lets more wrong factors be tried than ChallengeMaxAttempts.
  pub guesses_bounded :
      (rows : Rows) (w : World)
      → WellFormed env.adapter rows
      → OfValue (verification_value env "attempt" handle) (Tried 0) rows
      → Steps env handle (world rows [] 0) w
      → w.guesses ≤ limit
  guesses_bounded rows w v tried s =
      guesses_of w (
        run-Inv (world rows [] 0) w s
          (record { tables = v; phase = idle refl tried (omega arith) }))
