-- ===== src/TwoFactor/Totp.antt =====
-- plugin/twofactor/totp.go: `totpCode` and `verifyTOTP`. base32 decoding without padding and HMAC-SHA-1 are
-- parameters. Instants are nanoseconds since Go's zero time, in UTC; the period is in nanoseconds, and at
-- least one second, as in every configuration that normalizeConfig returns.
use Prim.Native.Nat.{◌/◌, ◌%◌, ◌^◌}
use Prim.Native.String.{len}
use better_auth_go.Prelude.{
  ℕ, zero, suc, ◌+◌, ◌*◌, ◌-◌, String, Bool, true, false, not, ◌&&◌, ◌||◌, List, [], ◌∷◌, Option,
  none, some, leb, ltb, length, drop, ◌==◌, if◌then◌else◌,
}
use better_auth_go.Action.{Result, ok, err, failure}
use better_auth_go.Scopes.{trim_space}
use better_auth_go.Decimal.{zero_padded, parse_uint}
use better_auth_go.TwoFactor.Config.{second}

pub record Primitives : Type 0 where
  pub to_upper : String → String
  pub base32_decode : String → Option (List ℕ)
  pub hmac_sha1 : List ℕ → List ℕ → List ℕ

-- the seconds from Go's zero time to 1970
abbrev unix_epoch : ℕ
unix_epoch = 62135596800

-- uint64(at.Unix() / int64(period/time.Second)), which rounds towards zero and wraps
unfoldable pub time_step : ℕ → ℕ → ℕ
time_step at period =
    let seconds = at / second in
    let length = period / second in
    if leb unix_epoch seconds
    then ((seconds - unix_epoch) / length) % 2 ^ 64
    else (2 ^ 64 - (unix_epoch - seconds) / length) % 2 ^ 64

-- binary.BigEndian.PutUint64, where `width` bytes are written
unfoldable pub big_endian : ℕ → ℕ → List ℕ
big_endian zero n = []
big_endian (suc width) n = ((n / 256 ^ width) % 256) ∷ big_endian width n

unfoldable pub last_byte : List ℕ → Option ℕ
last_byte [] = none
last_byte (b ∷ []) = some b
last_byte (b ∷ c ∷ bs) = last_byte (c ∷ bs)

-- binary.BigEndian.Uint32 of the first four bytes
unfoldable pub uint32_of : List ℕ → Option ℕ
uint32_of (a ∷ b ∷ c ∷ d ∷ rest) = some (((a * 256 + b) * 256 + c) * 256 + d)
uint32_of _ = none

abbrev masked : Option ℕ → Option ℕ
masked none = none
masked (some v) = some (v % 2 ^ 31)

abbrev at_offset : Option ℕ → List ℕ → Option ℕ
at_offset none sum = none
at_offset (some b) sum = masked (uint32_of (drop (b % 16) sum))

-- binary.BigEndian.Uint32(sum[offset:offset+4]) & 0x7fffffff, where offset = sum[len(sum)-1] & 0x0f;
-- none where an index is out of range, where Go panics
unfoldable pub truncated : List ℕ → Option ℕ
truncated sum = at_offset (last_byte sum) sum

unfoldable pub modulus : ℕ → ℕ
modulus digits = if leb digits 8 && leb 8 digits then 100000000 else 1000000

unfoldable pub code_of_sum : ℕ → Option ℕ → Result String
unfolding modulus
code_of_sum digits none = err (failure "slice bounds out of range")
code_of_sum digits (some v) = ok (zero_padded digits (v % modulus digits))

abbrev long_enough : Option (List ℕ) → Result (List ℕ)
long_enough none = err (failure "twofactor: invalid TOTP secret")
long_enough (some key) =
    if ltb (length key) 16 then err (failure "twofactor: invalid TOTP secret") else ok key

abbrev is_some {ℓ} : {A : Type ℓ} → Option A → Bool
is_some none = false
is_some (some a) = true

-- the loop of verifyTOTP: `valid`, and whether a code failed
unfoldable pub any_equal : String → List (Result String) → Bool → Bool
any_equal candidate [] valid = valid
any_equal candidate (err e ∷ rest) valid = false
any_equal candidate (ok expected ∷ rest) valid =
    any_equal candidate rest (valid || expected == candidate)

module _ (prim : Primitives) where
  -- the decoded secret, where it has at least 16 bytes
  unfoldable pub secret_key : String → Result (List ℕ)
  secret_key secret = long_enough (prim.base32_decode (prim.to_upper (trim_space secret)))

  unfoldable pub keyed_code : Result (List ℕ) → ℕ → ℕ → ℕ → Result String
  keyed_code (err e) at period digits = err e
  keyed_code (ok key) at period digits =
      code_of_sum digits (truncated (prim.hmac_sha1 key (big_endian 8 (time_step at period))))

  -- totpCode
  unfoldable pub totp_code : String → ℕ → ℕ → ℕ → Result String
  totp_code secret at period digits = keyed_code (secret_key secret) at period digits

  -- verifyTOTP
  unfoldable pub verify_totp : String → String → ℕ → ℕ → ℕ → Bool
  verify_totp secret candidate at period digits =
      if not (leb (len candidate) digits && leb digits (len candidate))
      then false
      else if not (is_some (parse_uint (2 ^ 32 - 1) candidate))
      then false
      else any_equal candidate
          (totp_code secret (at - period) period digits
            ∷ totp_code secret at period digits
            ∷ totp_code secret (at + period) period digits
            ∷ [])
          false
