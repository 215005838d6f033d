-- ===== src/TwoFactor/Tests.antt =====
-- The two-factor plugin on concrete values: a server with one user, whose factor is verified.
use Prim.Native.String.{◌++◌ as append_text}
use better_auth_go.Prelude.{
  ℕ, zero, suc, String, ◌≡◌, refl, true, false, List, [], ◌∷◌, some, inl, ◌↔◌,
}
use better_auth_go.Prelude.Int.{pos}
use better_auth_go.Action.{ok}
use better_auth_go.Schema.{key}
use better_auth_go.TwoFactor.Config.{
  Config, Cipher, normalize_config, cookie_name_valid, check_factors, check_cookies,
  check_lifetimes, check_totp, check_backup_codes, check_attempts,
}
use better_auth_go.Action.Checks.{refuse_if}
use better_auth_go.Scopes.{trim_space}
use better_auth_go.TwoFactor.Bounds.{InBounds, normalize_config-InBounds}
use better_auth_go.Prelude.{length, lookup, arith}
use better_auth_go.Decimal.{zero_padded}
use better_auth_go.TwoFactor.Totp.{
  Primitives, secret_key, keyed_code, totp_code, verify_totp, code_of_sum, truncated, last_byte,
  uint32_of, modulus, big_endian, time_step,
}
use better_auth_go.TwoFactor.Window.{CodeOf, InWindow, totp_code-CodeOf, verify_totp-InWindow}
use better_auth_go.TwoFactor.Codes.{normalize_backup_code, backup_code_index}
use better_auth_go.TwoFactor.BackupCodes.{Spent, backup_code_index-Spent}
use better_auth_go.TwoFactor.Records.{VerificationMetadata, metadata_value, parse_metadata}
use better_auth_go.Value.{Record, text, field}
use better_auth_go.TwoFactor.Metadata.{parse_metadata-metadata_value}

abbrev pub cipher : Cipher
cipher = record { seal = λ s. ok (append_text "sealed:" s); unseal = λ s. ok s }

abbrev given : Config
given = record {
  issuer = " Example ";
  cipher = some cipher;
  deliver_otp = some (λ user code. ok tt);
  pending_cookie = "";
  trusted_device_cookie = "";
  pending_ttl = pos 0;
  otp_ttl = pos 0;
  trusted_device_ttl = pos 0;
  totp_digits = pos 0;
  totp_period = pos 0;
  backup_code_count = pos 0;
  backup_code_length = pos 0;
  challenge_max_attempts = pos 2;
  account_max_failed_attempts = pos 0;
  account_lockout_duration = pos 0;
  allow_passwordless = false;
  skip_verification_on_enable = false;
  disable_totp = false;
  schema = record { model_name = ""; fields = []; indexes = [] };
}

abbrev pub normal : Config
normal = record {
  issuer = "Example";
  cipher = some cipher;
  deliver_otp = some (λ user code. ok tt);
  pending_cookie = "__Host-better_auth_two_factor";
  trusted_device_cookie = "__Host-better_auth_trusted_device";
  pending_ttl = pos 600000000000;
  otp_ttl = pos 300000000000;
  trusted_device_ttl = pos 2592000000000000;
  totp_digits = pos 6;
  totp_period = pos 30000000000;
  backup_code_count = pos 10;
  backup_code_length = pos 10;
  challenge_max_attempts = pos 2;
  account_max_failed_attempts = pos 10;
  account_lockout_duration = pos 900000000000;
  allow_passwordless = false;
  skip_verification_on_enable = false;
  disable_totp = false;
  schema = record { model_name = ""; fields = []; indexes = [] };
}

normalizing_given : normalize_config given ≡ ok normal
unfolding normalize_config check_factors check_cookies check_lifetimes check_totp check_backup_codes
    check_attempts refuse_if trim_space cookie_name_valid
normalizing_given = refl

normalize_config-InBounds_example : InBounds normal
normalize_config-InBounds_example = normalize_config-InBounds given normal normalizing_given

-- sixteen zero bytes, and a digest whose offset is 1
abbrev pub zeros : ℕ → List ℕ
zeros zero = []
zeros (suc n) = 0 ∷ zeros n

abbrev pub prim : Primitives
prim = record {
  to_upper = λ s. s;
  base32_decode = λ s. some (zeros 16);
  hmac_sha1 = λ k m.
      0 ∷ 80 ∷ 239 ∷ 127 ∷ 25 ∷ 0 ∷ 0 ∷ 0 ∷ 0 ∷ 0 ∷ 0 ∷ 0 ∷ 0 ∷ 0 ∷ 0 ∷ 0 ∷ 0 ∷ 0 ∷ 0 ∷ 1 ∷ [];
}

digest : (key message : List ℕ) → length (prim.hmac_sha1 key message) ≡ 20
digest key message = refl

secret_good : secret_key prim "SECRET" ≡ ok (zeros 16)
unfolding secret_key trim_space
secret_good = refl

totp_code-CodeOf_example :
    (s : String) × (totp_code prim "SECRET" 62135596800000000059 30000000000 6 ≡ ok s) × CodeOf 6 s
totp_code-CodeOf_example =
    totp_code-CodeOf prim digest "SECRET" (zeros 16) 62135596800000000059 30000000000 6 secret_good
      (inl refl)

-- 0x50ef7f19 is the example value of RFC 4226
rfc_code : totp_code prim "SECRET" 62135596800000000059 30000000000 6 ≡ ok "872921"
unfolding totp_code keyed_code secret_key trim_space code_of_sum truncated last_byte uint32_of
    modulus zero_padded big_endian time_step
rfc_code = refl

verify_totp-InWindow_example :
    (verify_totp prim "SECRET" "872921" 62135596800000000059 30000000000 6 ≡ true)
    ↔ InWindow prim digest "SECRET" "872921" 62135596800000000059 30000000000 6
verify_totp-InWindow_example =
    verify_totp-InWindow prim digest "SECRET" "872921" 62135596800000000059 30000000000 6 (inl refl)

code_found : backup_code_index (λ s. s) ("aabb" ∷ "cc-dd" ∷ "eeff" ∷ []) "cc-dd" ≡ some 1
unfolding backup_code_index normalize_backup_code trim_space
code_found = refl

backup_code_index-Spent_example : Spent (λ s. s) "cc-dd" ("aabb" ∷ "cc-dd" ∷ "eeff" ∷ []) 1
backup_code_index-Spent_example =
    backup_code_index-Spent (λ s. s) "cc-dd" ("aabb" ∷ "cc-dd" ∷ "eeff" ∷ []) 1 code_found

abbrev some_metadata : VerificationMetadata
some_metadata = record { user_id = "u"; attempts = pos 3; code_hash = "" }

abbrev some_row : Record
some_row = ("id", text "v") ∷ ("metadata", metadata_value some_metadata) ∷ []

row_metadata : field some_row "metadata" ≡ metadata_value some_metadata
unfolding field lookup
row_metadata = refl

parse_metadata-metadata_value_example : parse_metadata some_row ≡ ok some_metadata
parse_metadata-metadata_value_example =
    parse_metadata-metadata_value some_metadata some_row (omega arith) row_metadata
