-- ===== src/TwoFactor/Config.antt =====
-- plugin/twofactor/config.go: the plugin's configuration, and `normalizeConfig`, which fills in the
-- defaults and refuses what is out of bounds. Durations are nanoseconds. The cipher and the delivery of codes are
-- the application's; a nil one is `none`. Of the two cookie names the pending one is checked first.
use Prim.Native.Char.{code}
use Prim.Native.String.{len}
use better_auth_go.Prelude.{
  ℕ, ◌*◌, String, Bool, true, false, not, ◌&&◌, ◌||◌, Option, none, some, leb, ltb, ◌==◌,
  starts_with, if◌then◌else◌,
}
use better_auth_go.Prelude.Int.{ℤ, pos, negsuc}
use better_auth_go.Action.{Result, ok}
use better_auth_go.Action.Checks.{◌>>=◌, refuse_if}
use better_auth_go.Schema.{ModelSchema}
use better_auth_go.Scopes.{trim_space}
use better_auth_go.Store.Types.{User}

-- TokenCipher
pub record Cipher : Type 0 where
  pub seal : String → Result String
  pub unseal : String → Result String

abbrev pub OtpDelivery : Type 0
OtpDelivery = User → String → Result (Unit {0})

pub record Config : Type 0 where
  pub issuer : String
  pub cipher : Option Cipher
  pub deliver_otp : Option OtpDelivery
  pub pending_cookie : String
  pub trusted_device_cookie : String
  pub pending_ttl : ℤ
  pub otp_ttl : ℤ
  pub trusted_device_ttl : ℤ
  pub totp_digits : ℤ
  pub totp_period : ℤ
  pub backup_code_count : ℤ
  pub backup_code_length : ℤ
  pub challenge_max_attempts : ℤ
  pub account_max_failed_attempts : ℤ
  pub account_lockout_duration : ℤ
  pub allow_passwordless : Bool
  pub skip_verification_on_enable : Bool
  pub disable_totp : Bool
  pub schema : ModelSchema

abbrev pub second : ℕ
second = 1000000000

abbrev pub minute : ℕ
minute = 60000000000

abbrev pub hour : ℕ
hour = 3600000000000

abbrev pub is_none {ℓ} : {A : Type ℓ} → Option A → Bool
is_none none = true
is_none (some a) = false

-- x == 0 on a signed number
abbrev is_zero : ℤ → Bool
is_zero (pos n) = leb n 0
is_zero (negsuc n) = false

-- `if x == 0 { x = d }`
abbrev pub defaulted : ℕ → ℤ → ℤ
defaulted d x = if is_zero x then pos d else x

abbrev pub default_text : String → String → String
default_text d s = if s == "" then d else s

-- a < b on signed numbers
abbrev pub below : ℤ → ℤ → Bool
below (pos a) (pos b) = ltb a b
below (pos a) (negsuc b) = false
below (negsuc a) (pos b) = true
below (negsuc a) (negsuc b) = ltb b a

-- x < lo || x > hi
abbrev pub outside : ℕ → ℕ → ℤ → Bool
outside lo hi x = below x (pos lo) || below (pos hi) x

-- isTokenChar of net/http: a letter, a digit or one of !#$%&'*+-.^_`|~
token_char : ℕ → Bool
token_char c =
    (leb 48 c && leb c 57)
    || (leb 65 c && leb c 90)
    || (leb 94 c && leb c 122)
    || (leb 35 c && leb c 39)
    || (leb 42 c && leb c 43)
    || (leb 45 c && leb c 46)
    || (leb 33 c && leb c 33)
    || (leb 124 c && leb c 124)
    || (leb 126 c && leb c 126)

token_chars : String → Bool
unfolding token_char
token_chars String.[] = true
token_chars (String.◌∷◌ c s) = token_char (code c) && token_chars s

-- (&http.Cookie{Name: name, Value: "value"}).Valid() == nil
unfoldable pub cookie_name_valid : String → Bool
unfolding token_chars
cookie_name_valid s = not (s == "") && token_chars s

abbrev pub default_pending_cookie : String
default_pending_cookie = "__Host-better_auth_two_factor"

abbrev pub default_trusted_cookie : String
default_trusted_cookie = "__Host-better_auth_trusted_device"

unfoldable pub check_factors : Config → Result Config
check_factors given =
    let issuer = trim_space given.issuer in
    let c : Config = record given { issuer = issuer } in
    refuse_if (issuer == "" || ltb 128 (len issuer)) "issuer" (
      refuse_if (is_none c.cipher) "secret cipher is required" (
        refuse_if (c.disable_totp && is_none c.deliver_otp) "TOTP or delivered OTP"
          (refuse_if (c.disable_totp && not c.skip_verification_on_enable) "OTP-only mode" (ok c))))

-- the two checks in the loop over the cookies
abbrev pub cookie_refused : String → Bool
cookie_refused name = not (starts_with name "__Host-") || not (cookie_name_valid name)

unfoldable pub check_cookies : Config → Result Config
check_cookies given =
    let pending = default_text default_pending_cookie given.pending_cookie in
    let trusted = default_text default_trusted_cookie given.trusted_device_cookie in
    refuse_if (cookie_refused pending) "pending cookie" (
      refuse_if (cookie_refused trusted) "trusted-device cookie" (
        refuse_if (pending == trusted) "pending and trusted-device cookies must differ"
          (ok (record given { pending_cookie = pending; trusted_device_cookie = trusted }))))

unfoldable pub check_lifetimes : Config → Result Config
check_lifetimes given =
    let pending = defaulted (10 * minute) given.pending_ttl in
    let otp = defaulted (5 * minute) given.otp_ttl in
    let trusted = defaulted (720 * hour) given.trusted_device_ttl in
    refuse_if (outside minute (30 * minute) pending) "pending TTL" (
      refuse_if (below otp (pos minute) || below pending otp) "OTP TTL" (
        refuse_if (outside hour (2160 * hour) trusted) "trusted-device TTL" (
          ok
            (record given { pending_ttl = pending; otp_ttl = otp; trusted_device_ttl = trusted }))))

unfoldable pub check_totp : Config → Result Config
check_totp given =
    let digits = defaulted 6 given.totp_digits in
    let period = defaulted (30 * second) given.totp_period in
    refuse_if (outside 6 6 digits && outside 8 8 digits) "TOTP digits must be six or eight" (
      refuse_if (outside (15 * second) (2 * minute) period) "TOTP period"
        (ok (record given { totp_digits = digits; totp_period = period })))

unfoldable pub check_backup_codes : Config → Result Config
check_backup_codes given =
    let count = defaulted 10 given.backup_code_count in
    let length = defaulted 10 given.backup_code_length in
    refuse_if (outside 1 50 count || outside 8 32 length) "backup-code configuration"
      (ok (record given { backup_code_count = count; backup_code_length = length }))

unfoldable pub check_attempts : Config → Result Config
check_attempts given =
    let challenge = defaulted 5 given.challenge_max_attempts in
    let account = defaulted 10 given.account_max_failed_attempts in
    let lockout = defaulted (15 * minute) given.account_lockout_duration in
    refuse_if
      (outside 1 20 challenge
        || below account challenge
        || below (pos 100) account
        || outside minute (24 * hour) lockout)
      "attempt or lockout configuration"
      (ok (record given {
        challenge_max_attempts = challenge;
        account_max_failed_attempts = account;
        account_lockout_duration = lockout;
      }))

-- normalizeConfig
unfoldable pub normalize_config : Config → Result Config
normalize_config c0 = do
  c1 ← check_factors c0
  c2 ← check_cookies c1
  c3 ← check_lifetimes c2
  c4 ← check_totp c3
  c5 ← check_backup_codes c4
  check_attempts c5
