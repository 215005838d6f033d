-- ===== src/TwoFactor/Records.antt =====
-- plugin/twofactor/types.go, and the conversions of storage.go between rows and its structs. The time of a text
-- (time.Parse with RFC3339Nano) is a parameter. A metadata value goes through JSON both ways: its
-- keys are matched exactly, its numbers are exact as a float64 and fit an int (attempts stay at or below
-- ChallengeMaxAttempts, which normalizeConfig bounds by 20), and no member is a time.
use better_auth_go.Prelude.{
  ℕ, zero, String, Bool, false, [], ◌∷◌, ◌++◌, Option, none, some, Assoc, lookup, ◌==◌,
  if◌then◌else◌,
}
use better_auth_go.Prelude.Int.{ℤ, pos, negsuc}
use better_auth_go.Action.{Result, ok, err, failure}
use better_auth_go.Action.Checks.{◌>>=◌}
use better_auth_go.Value.{
  Scalar, null, str, int, int64, float64, float32, time, Value, scalar, any_map, string_map,
  request, Record, text, flag, instant, nil, field,
}

abbrev pub model_two_factor : String
model_two_factor = "twoFactor"

pub record TwoFactorRecord : Type 0 where
  pub id : String
  pub user_id : String
  pub secret : String
  pub backup_codes : String
  pub verified : Bool
  pub failed_verification_count : ℕ
  pub locked_until : Option ℕ
  pub created_at : ℕ
  pub updated_at : ℕ

pub record VerificationMetadata : Type 0 where
  pub user_id : String
  pub attempts : ℤ
  pub code_hash : String

-- row[field].(string), which may not be empty
unfoldable pub filled_text : String → Value → Result String
filled_text what (text s) = if s == "" then err (failure what) else ok s
filled_text what _ = err (failure what)

abbrev natural : ℤ → Result ℕ
natural (pos n) = ok n
natural (negsuc n) = err (failure "twofactor: invalid non-negative integer")

-- integerValue
unfoldable pub integer_value : Value → Result ℕ
integer_value (scalar (int n)) = natural n
integer_value (scalar (int64 n)) = natural n
integer_value (scalar (float64 n)) = natural n
integer_value _ = err (failure "twofactor: invalid non-negative integer")

-- timeValue
unfoldable pub time_value : (String → Result ℕ) → Value → Result ℕ
time_value parse_time (instant t) = ok t
time_value parse_time (text s) = parse_time s
time_value parse_time _ = err (failure "twofactor: invalid timestamp")

unfoldable pub true_flag : Value → Bool
true_flag (flag b) = b
true_flag _ = false

-- the block `if value := row["lockedUntil"]; value != nil`
unfoldable pub locked_value : (String → Result ℕ) → Value → Result (Option ℕ)
unfolding time_value
locked_value parse_time nil = ok none
locked_value parse_time v = do t ← time_value parse_time v; ok (some t)

-- twoFactorFromRecord
unfoldable pub two_factor_from_record : (String → Result ℕ) → Record → Result TwoFactorRecord
unfolding field filled_text integer_value time_value true_flag locked_value
two_factor_from_record parse_time row = do
  id ← filled_text "twofactor: invalid record id" (field row "id")
  user ← filled_text "twofactor: invalid record user" (field row "userId")
  secret ← filled_text "twofactor: invalid encrypted secret" (field row "secret")
  codes ← filled_text "twofactor: invalid encrypted backup codes" (field row "backupCodes")
  count ← integer_value (field row "failedVerificationCount")
  locked ← locked_value parse_time (field row "lockedUntil")
  created ← time_value parse_time (field row "createdAt")
  updated ← time_value parse_time (field row "updatedAt")
  ok (record {
    id = id;
    user_id = user;
    secret = secret;
    backup_codes = codes;
    verified = true_flag (field row "verified");
    failed_verification_count = count;
    locked_until = locked;
    created_at = created;
    updated_at = updated;
  })

-- an entry of the JSON object, left out where it is the zero value (`omitempty`)
abbrev pub text_entry : String → String → Assoc Scalar
text_entry key s = if s == "" then [] else (key, str s) ∷ []

abbrev pub number_entry : String → ℤ → Assoc Scalar
number_entry key (pos zero) = []
number_entry key n = (key, float64 n) ∷ []

-- metadataValue
unfoldable pub metadata_value : VerificationMetadata → Value
metadata_value m = any_map (
    text_entry "userId" m.user_id
    ++ (number_entry "attempts" m.attempts ++ text_entry "codeHash" m.code_hash))

-- a JSON text or null read into a string, and a JSON number or null read into an int
abbrev pub text_member : Option Scalar → Result String
text_member none = ok ""
text_member (some null) = ok ""
text_member (some (str s)) = ok s
text_member (some (time t)) = err (failure "a time is not read back as metadata")
text_member (some _) = err (failure "json: cannot unmarshal into string")

abbrev pub number_member : Option Scalar → Result ℤ
number_member none = ok (pos 0)
number_member (some null) = ok (pos 0)
number_member (some (int n)) = ok n
number_member (some (int64 n)) = ok n
number_member (some (float64 n)) = ok n
number_member (some (float32 n)) = ok n
number_member (some _) = err (failure "json: cannot unmarshal into int")

unfoldable pub read_metadata : Assoc Scalar → Result VerificationMetadata
read_metadata m = do
  user ← text_member (lookup "userId" m)
  attempts ← number_member (lookup "attempts" m)
  hash ← text_member (lookup "codeHash" m)
  ok (record { user_id = user; attempts = attempts; code_hash = hash })

abbrev texts_as_any : Assoc String → Assoc Scalar
texts_as_any [] = []
texts_as_any ((k, s) ∷ m) = (k, str s) ∷ texts_as_any m

abbrev pub metadata_of_value : Value → Result VerificationMetadata
metadata_of_value (any_map m) = read_metadata m
metadata_of_value (string_map m) = read_metadata (texts_as_any m)
metadata_of_value nil = read_metadata []
metadata_of_value (request i a u) = read_metadata []
metadata_of_value _ = err (failure "json: cannot unmarshal into verificationMetadata")

-- parseMetadata
unfoldable pub parse_metadata : Record → Result VerificationMetadata
unfolding field
parse_metadata row = metadata_of_value (field row "metadata")
