-- ===== src/TwoFactor/Scenarios.antt =====
-- A challenge of the two-factor plugin on concrete rows: its attempts, its end, and a locked account.
use better_auth_go.Prelude.{◌≤◌, String, ◌≡◌, refl, true, false, [], ◌∷◌, none, some, lookup}
use better_auth_go.Prelude.Int.{pos}
use better_auth_go.Action.{Result, ok, err, failure, Action, ◌>>=◌}
use better_auth_go.Action.Preserves.{bind-Preserves}
use better_auth_go.Value.{Record, text, instant, flag, scalar, float64, field}
use better_auth_go.Schema.{core_schema, Schema, model_verification}
use better_auth_go.Schema.Merge.{merge_schema}
use better_auth_go.Memory.Rules.{rules_from_schema}
use better_auth_go.Memory.Table.{Adapter, Rows, table, unique_keys, id_field}
use better_auth_go.Memory.Methods.{create}
use better_auth_go.Memory.Invariant.{create-WellFormed}
use better_auth_go.Memory.WellFormed.{WellFormed}
use better_auth_go.Memory.History.{empty-WellFormed}
use better_auth_go.Store.Queries.{new_row}
use better_auth_go.TwoFactor.Model.{base_schema}
use better_auth_go.TwoFactor.Tests.{normal}
use better_auth_go.TwoFactor.Code.{two_factor_code}
use better_auth_go.TwoFactor.Records.{TwoFactorRecord, VerificationMetadata, model_two_factor}
use better_auth_go.TwoFactor.Challenges.{
  Env, verification_pending, verification_attempts, verification_value, create_verification,
  begin_attempt,
}
use better_auth_go.TwoFactor.Lockout.{
  VerificationState, failed_factor, invalid_challenge, invalid_factor,
}
use better_auth_go.TwoFactor.Verify.{Outcome, redeem_challenge}
use better_auth_go.TwoFactor.Attempts.{Tried, OfValue}
use better_auth_go.TwoFactor.Preserved.{
  create_verification-WellFormed, create_verification-OfValue, verification_row-Tried,
}
use better_auth_go.TwoFactor.Guesses.{guesses_bounded}
use better_auth_go.TwoFactor.Requests.{world, Step, Steps, at_request}
use better_auth_go.TwoFactor.Redeemed.{redeem_challenge-once, no_record-refused}
use better_auth_go.TwoFactor.Tests.{prim}
use better_auth_go.TwoFactor.Verify.{Services, Request, verification_state}
use better_auth_go.TwoFactor.Handlers.{verify_otp}
use better_auth_go.TwoFactor.SignIn.{send_otp}
use better_auth_go.TwoFactor.Begun.{NoFactor}
use better_auth_go.TwoFactor.Enroll.{Setup, enroll, already_enabled}
use better_auth_go.TwoFactor.Enrolled.{enroll-verified}

abbrev server_schema : Result Schema
server_schema = merge_schema core_schema (base_schema ∷ [])

abbrev or_core : Result Schema → Schema
or_core (ok s) = s
or_core (err e) = core_schema

abbrev memory : Adapter
memory = record {
  rules = rules_from_schema (or_core server_schema);
  printer = record { print_other = λ v. ""; to_lower = λ s. s };
}

keys : unique_keys memory model_verification ≡ ("value" ∷ []) ∷ []
unfolding two_factor_code
keys = refl

user_keys : unique_keys memory model_two_factor ≡ ("userId" ∷ []) ∷ []
unfolding two_factor_code
user_keys = refl

abbrev env : Env
env = record {
  config = normal;
  adapter = memory;
  now = 1000;
  hash = λ s. s;
  parse_time = λ s. err (failure "not a time");
  format_time = λ t. "";
  request = [];
  session_id = "";
}

abbrev fresh : VerificationMetadata
fresh = record { user_id = "ada"; attempts = pos 0; code_hash = "" }

-- a pending challenge with the handle "h"
abbrev opened : Action Rows (Unit {0})
opened =
    create_verification env (ok "p") verification_pending (verification_value env "pending" "h")
      5000 fresh
    >>= λ u.
        create_verification env (ok "q") verification_attempts
          (verification_value env "attempt" "h") 5000 fresh

abbrev rows : Rows
rows = (opened []).1

rows-WellFormed : WellFormed memory rows
rows-WellFormed =
    (bind-Preserves _ _
        (create_verification-WellFormed env (ok "p") verification_pending
          (verification_value env "pending" "h") 5000 fresh)
        (λ u.
          create_verification-WellFormed env (ok "q") verification_attempts
            (verification_value env "attempt" "h") 5000 fresh)).after
      [] (empty-WellFormed memory)

abbrev tag : String
tag = verification_value env "attempt" "h"

none_at_first : OfValue tag (Tried 0) []
unfolding two_factor_code
none_at_first = record { at = λ id r h f. absurd (cc h) }

rows-Tried : OfValue tag (Tried 0) rows
rows-Tried =
    (bind-Preserves _ _
        (create_verification-OfValue env tag (Tried 0) (ok "p") verification_pending
          (verification_value env "pending" "h") 5000 fresh
          (λ id. verification_row-Tried env id _ _ 5000 0 fresh refl))
        (λ u.
          create_verification-OfValue env tag (Tried 0) (ok "q") verification_attempts tag 5000
            fresh (λ id. verification_row-Tried env id _ _ 5000 0 fresh refl))).after
      [] none_at_first

abbrev state : VerificationState
state = record {
  user_id = "ada";
  key = "h";
  pending = true;
  attempt = fresh;
  attempt_expiry = 5000;
}

abbrev factor : TwoFactorRecord
factor = record {
  id = "f";
  user_id = "ada";
  secret = "s";
  backup_codes = "[]";
  verified = true;
  failed_verification_count = 0;
  locked_until = none;
  created_at = 1;
  updated_at = 1;
}

abbrev begun : Rows
begun = (begin_attempt env "h" rows).1

begins : begin_attempt env "h" rows ≡ (ok (fresh, 5000), begun)
unfolding two_factor_code
begins = refl

abbrev fails : Result Outcome × Rows
fails = failed_factor env (ok "r") (ok "s") state factor begun

one_failure : Steps env "h" (world rows [] 0) (world fails.1 [] 1)
one_failure =
    Steps.then (Steps.then Steps.here (Step.begin 1000 [] "" state begun begins refl refl))
      (Step.failed 1000 [] "" (ok "r") (ok "s") [] [] state factor fails.0 fails.1 refl refl)

guesses_bounded_example : 1 ≤ 2
guesses_bounded_example =
    guesses_bounded env keys "h" 2 refl rows (world fails.1 [] 1) rows-WellFormed rows-Tried
      one_failure

abbrev redeemed : Rows
redeemed = (redeem_challenge env state rows).1

redeems : redeem_challenge env state rows ≡ (ok tt, redeemed)
unfolding two_factor_code
redeems = refl

redeem_challenge-once_example :
    redeem_challenge (at_request env 2000 [] "") state redeemed ≡ (err invalid_challenge, redeemed)
redeem_challenge-once_example =
    redeem_challenge-once env keys state rows redeemed 2000 rows-WellFormed refl redeems

-- ada with a verified factor, whose lock lasts until 9000
abbrev factor_row : Record
factor_row =
    ("id", text "f")
    ∷ ("userId", text "ada")
    ∷ ("secret", text "s")
    ∷ ("backupCodes", text "[]")
    ∷ ("verified", flag true)
    ∷ ("failedVerificationCount", scalar (float64 (pos 10)))
    ∷ ("lockedUntil", instant 9000)
    ∷ ("createdAt", instant 1)
    ∷ ("updatedAt", instant 1)
    ∷ []

abbrev with_factor : Rows
with_factor = (create memory (new_row model_two_factor factor_row) rows).1

with_factor-WellFormed : WellFormed memory with_factor
with_factor-WellFormed =
    (create-WellFormed memory (new_row model_two_factor factor_row)).after rows rows-WellFormed

abbrev locked : TwoFactorRecord
locked = record factor { failed_verification_count = 10; locked_until = some 9000 }

abbrev services : Services
services = record {
  primitives = prim;
  to_lower = λ s. s;
  marshal = λ l. "[]";
  unmarshal = λ s. some [];
  issue_session = none;
  verify_password = λ e p. ok (true, "");
  base32_encode = λ s. s;
  hash_number = λ s. 7;
}

abbrev request : Request
request = record {
  session = none;
  pending_cookie = some "h";
  code = "123456";
  trust_device = false;
  disable_session = false;
  ids = λ n. ok "new";
  tokens = λ n. ok "token";
}

abbrev challenged : Rows
challenged = (verification_state env true none (some "h") with_factor).1

ids : id_field memory model_verification ≡ "id"
unfolding two_factor_code
ids = refl

abbrev setup : Setup
setup = record {
  user_id = "ada";
  password = "";
  method = "totp";
  trusted_cookie = none;
  ids = λ n. ok "new";
  tokens = λ n. ok "token";
}

factor_here : lookup "f" (table with_factor model_two_factor) ≡ some factor_row
unfolding two_factor_code
factor_here = refl

enroll-verified_example :
    enroll env services setup "g" "secret" "codes" with_factor ≡ (err already_enabled, with_factor)
unfolding field lookup
enroll-verified_example =
    enroll-verified env services setup with_factor with_factor-WellFormed user_keys "f" factor_row
      "g" "secret" "codes" factor_here refl refl

abbrev offer : VerificationState
offer = record state { attempt = record fresh { user_id = "" }; attempt_expiry = 0 }

offers : verification_state env false none (some "h") rows ≡ (ok offer, rows)
unfolding two_factor_code
offers = refl

no_factor : NoFactor "ada" rows
unfolding two_factor_code
no_factor = λ id r h. absurd (cc h)

begins_state : verification_state env true none (some "h") rows ≡ (ok state, begun)
unfolding two_factor_code
begins_state = refl

no_record-refused_example :
    (send_otp env services request rows ≡ (err invalid_factor, rows))
    × ((verify_otp env services request rows).0 ≡ err invalid_factor)
no_record-refused_example =
    no_record-refused env services request refl offer state rows rows begun rows-WellFormed offers
      begins_state no_factor no_factor
