-- ===== src/TwoFactor/Bounds.antt =====
-- normalizeConfig: what holds of every configuration that it returns.
use Prim.Native.String.{len}
use better_auth_go.Prelude.{
  ℕ, ◌*◌, ◌≤◌, ◌≡◌, refl, sym, ◌∙◌, ap, ◌≢◌, ◌⊎◌, inl, inr, String, Bool, true, false, ◌&&◌, ◌||◌,
  not, arith, eq_iff, starts_with, Bool-cases,
}
use better_auth_go.Prelude.Int.{ℤ, pos, negsuc}
use better_auth_go.Action.{ok}
use better_auth_go.Action.Checks.{>>=_ok, refuse_if-ok, ok_injective}
use better_auth_go.Scopes.{trim_space}
use better_auth_go.TwoFactor.Config.{
  Config, second, minute, hour, is_none, below, outside, cookie_name_valid, cookie_refused,
  check_factors, check_cookies, check_lifetimes, check_totp, check_backup_codes, check_attempts,
  normalize_config,
}

-- a number from lo to hi
pub record Within (lo hi : ℕ) (x : ℤ) : Type 0 where
  pub size : ℕ
  pub is_size : x ≡ pos size
  pub lower : lo ≤ size
  pub upper : size ≤ hi

pub outside-Within : (lo hi : ℕ) (x : ℤ) → outside lo hi x ≡ false → Within lo hi x
outside-Within lo hi (pos n) h = record {
  size = n;
  is_size = refl;
  lower = ground arith;
  upper = ground arith;
}
outside-Within lo hi (negsuc n) h = absurd (cc h)

pub or_false : (a b : Bool) → (a || b) ≡ false → (a ≡ false) × (b ≡ false)
or_false true b h = absurd (cc h)
or_false false b h = (refl, h)

capped :
    (lo lo' hi : ℕ) (x y : ℤ)
    → below x (pos lo) ≡ false
    → below y x ≡ false
    → (w : Within lo' hi y) → Within lo w.size x
capped lo lo' hi (pos m) (pos n) h k w = record {
  size = m;
  is_size = refl;
  lower = ground arith;
  upper = ground (arith, w.is_size);
}
capped lo lo' hi (pos m) (negsuc n) h k w = absurd (cc w.is_size)
capped lo lo' hi (negsuc m) y h k w = absurd (cc h)

raised :
    (lo hi hi' : ℕ) (x y : ℤ)
    → below (pos hi) x ≡ false
    → (w : Within lo hi' y) → below x y ≡ false
    → Within w.size hi x
raised lo hi hi' (pos m) (pos n) h w k = record {
  size = m;
  is_size = refl;
  lower = ground (arith, w.is_size);
  upper = ground arith;
}
raised lo hi hi' (negsuc m) (pos n) h w k = absurd (cc k)
raised lo hi hi' x (negsuc n) h w k = absurd (cc w.is_size)

pub record Factors (c : Config) : Type 0 where
  pub issuer_given : c.issuer ≢ ""
  pub issuer_short : len c.issuer ≤ 128
  pub cipher_given : is_none c.cipher ≡ false
  pub some_factor : (c.disable_totp && is_none c.deliver_otp) ≡ false
  pub otp_only : (c.disable_totp && not c.skip_verification_on_enable) ≡ false

pub record Cookies (pending trusted : String) : Type 0 where
  pub pending_host : starts_with pending "__Host-" ≡ true
  pub pending_valid : cookie_name_valid pending ≡ true
  pub trusted_host : starts_with trusted "__Host-" ≡ true
  pub trusted_valid : cookie_name_valid trusted ≡ true
  pub cookies_differ : pending ≢ trusted

pub record Lifetimes (pending_ttl otp_ttl trusted_ttl : ℤ) : Type 0 where
  pub pending : Within minute (30 * minute) pending_ttl
  pub otp : Within minute pending.size otp_ttl
  pub trusted : Within hour (2160 * hour) trusted_ttl

pub record Totp (totp_digits totp_period : ℤ) : Type 0 where
  pub digits : (totp_digits ≡ pos 6) ⊎ (totp_digits ≡ pos 8)
  pub period : Within (15 * second) (2 * minute) totp_period

pub record Attempts (challenge_max account_max lockout_duration : ℤ) : Type 0 where
  pub challenge : Within 1 20 challenge_max
  pub account : Within challenge.size 100 account_max
  pub lockout : Within minute (24 * hour) lockout_duration

-- a configuration with every value inside its documented bounds
pub record InBounds (c : Config) : Type 0 where
  pub factors : Factors c
  pub cookies : Cookies c.pending_cookie c.trusted_device_cookie
  pub lifetimes : Lifetimes c.pending_ttl c.otp_ttl c.trusted_device_ttl
  pub totp : Totp c.totp_digits c.totp_period
  pub backup_count : Within 1 50 c.backup_code_count
  pub backup_length : Within 8 32 c.backup_code_length
  pub attempts :
      Attempts c.challenge_max_attempts c.account_max_failed_attempts c.account_lockout_duration

exactly : (n : ℕ) (x : ℤ) → Within n n x → x ≡ pos n
exactly n x w = w.is_size ∙ ap pos (omega (arith, w.lower, w.upper))

digits-either : (x : ℤ) → (outside 6 6 x && outside 8 8 x) ≡ false → (x ≡ pos 6) ⊎ (x ≡ pos 8)
digits-either x h = elim (Bool-cases (outside 6 6 x)) [
  | inl e ↦ inr (exactly 8 x (outside-Within 8 8 x (rw e at h)))
  | inr e ↦ inl (exactly 6 x (outside-Within 6 6 x e))
]

check_factors-ok : (c d : Config) → check_factors c ≡ ok d → Factors d
unfolding check_factors
check_factors-ok c d h =
    let (a, h1) = refuse_if-ok _ _ _ d h in
    let (b, h2) = refuse_if-ok _ _ _ d h1 in
    let (e, h3) = refuse_if-ok _ _ _ d h2 in
    let (f, h4) = refuse_if-ok _ _ _ d h3 in
    let same : record c { issuer = trim_space c.issuer } ≡ d = ok_injective h4 in
    rw (sym same) (record {
      issuer_given = ground (arith, a, eq_iff (trim_space c.issuer) "");
      issuer_short = ground (arith, a);
      cipher_given = b;
      some_factor = e;
      otp_only = f;
    })

cookie_accepted :
    (s : String)
    → cookie_refused s ≡ false
    → (starts_with s "__Host-" ≡ true) × (cookie_name_valid s ≡ true)
cookie_accepted s h = (ground (arith, h), ground (arith, h))

check_cookies-ok :
    (c d : Config)
    → check_cookies c ≡ ok d
    → (pending trusted : String) × Cookies pending trusted
      × (record c { pending_cookie = pending; trusted_device_cookie = trusted } ≡ d)
unfolding check_cookies
check_cookies-ok c d h =
    let (a, h1) = refuse_if-ok _ _ _ d h in
    let (b, h2) = refuse_if-ok _ _ _ d h1 in
    let (e, h3) = refuse_if-ok _ _ _ d h2 in
    let (a1, a2) = cookie_accepted _ a in
    let (b1, b2) = cookie_accepted _ b in
    (
      _,
      _,
      record {
        pending_host = a1;
        pending_valid = a2;
        trusted_host = b1;
        trusted_valid = b2;
        cookies_differ = λ same. cc ((eq_iff _ _).1 same, e);
      },
      ok_injective h3,
    )

check_lifetimes-ok :
    (c d : Config)
    → check_lifetimes c ≡ ok d
    → (pending otp trusted : ℤ) × Lifetimes pending otp trusted
      × (record c { pending_ttl = pending; otp_ttl = otp; trusted_device_ttl = trusted } ≡ d)
unfolding check_lifetimes
check_lifetimes-ok c d h =
    let (a, h1) = refuse_if-ok _ _ _ d h in
    let (b, h2) = refuse_if-ok _ _ _ d h1 in
    let (e, h3) = refuse_if-ok _ _ _ d h2 in
    let w = outside-Within _ _ _ a in
    let (b1, b2) = or_false _ _ b in
    (
      _,
      _,
      _,
      record { pending = w; otp = capped _ _ _ _ _ b1 b2 w; trusted = outside-Within _ _ _ e },
      ok_injective h3,
    )

check_totp-ok :
    (c d : Config)
    → check_totp c ≡ ok d
    → (digits period : ℤ) × Totp digits period
      × (record c { totp_digits = digits; totp_period = period } ≡ d)
unfolding check_totp
check_totp-ok c d h =
    let (a, h1) = refuse_if-ok _ _ _ d h in
    let (b, h2) = refuse_if-ok _ _ _ d h1 in
    (_, _, record { digits = digits-either _ a; period = outside-Within _ _ _ b }, ok_injective h2)

check_backup_codes-ok :
    (c d : Config)
    → check_backup_codes c ≡ ok d
    → (count length : ℤ) × Within 1 50 count
      × Within 8 32 length
      × (record c { backup_code_count = count; backup_code_length = length } ≡ d)
unfolding check_backup_codes
check_backup_codes-ok c d h =
    let (a, h1) = refuse_if-ok _ _ _ d h in
    let (a1, a2) = or_false _ _ a in
    (_, _, outside-Within _ _ _ a1, outside-Within _ _ _ a2, ok_injective h1)

check_attempts-ok :
    (c d : Config)
    → check_attempts c ≡ ok d
    → (challenge account lockout : ℤ) × Attempts challenge account lockout
      × (record c {
        challenge_max_attempts = challenge;
        account_max_failed_attempts = account;
        account_lockout_duration = lockout;
      }
          ≡ d)
unfolding check_attempts
check_attempts-ok c d h =
    let (a, h1) = refuse_if-ok _ _ _ d h in
    let (b, a4) = or_false _ _ a in
    let (e, a3) = or_false _ _ b in
    let (a1, a2) = or_false _ _ e in
    let w = outside-Within _ _ _ a1 in
    (
      _,
      _,
      _,
      record {
        challenge = w;
        account = raised _ _ _ _ _ a3 w a2;
        lockout = outside-Within _ _ _ a4;
      },
      ok_injective h1,
    )

stages-InBounds :
    (c c1 c2 c3 c4 c5 d : Config)
    → check_factors c ≡ ok c1
    → check_cookies c1 ≡ ok c2
    → check_lifetimes c2 ≡ ok c3
    → check_totp c3 ≡ ok c4
    → check_backup_codes c4 ≡ ok c5
    → check_attempts c5 ≡ ok d
    → InBounds d
stages-InBounds c c1 c2 c3 c4 c5 d r1 r2 r3 r4 r5 r6 =
    let f = check_factors-ok c c1 r1 in
    let (p2, t2, cookies, e2) = check_cookies-ok c1 c2 r2 in
    let (p3, o3, t3, lifetimes, e3) = check_lifetimes-ok c2 c3 r3 in
    let (d4, p4, totp, e4) = check_totp-ok c3 c4 r4 in
    let (n5, l5, count, length, e5) = check_backup_codes-ok c4 c5 r5 in
    let (h6, a6, l6, attempts, e6) = check_attempts-ok c5 d r6 in
    joined f cookies lifetimes totp count length attempts e2 e3 e4 e5 e6
  where
    joined :
        {p2 t2 : String} {p3 o3 t3 d4 p4 n5 l5 h6 a6 l6 : ℤ}
        → Factors c1
        → Cookies p2 t2
        → Lifetimes p3 o3 t3
        → Totp d4 p4
        → Within 1 50 n5
        → Within 8 32 l5
        → Attempts h6 a6 l6
        → record c1 { pending_cookie = p2; trusted_device_cookie = t2 } ≡ c2
        → record c2 { pending_ttl = p3; otp_ttl = o3; trusted_device_ttl = t3 } ≡ c3
        → record c3 { totp_digits = d4; totp_period = p4 } ≡ c4
        → record c4 { backup_code_count = n5; backup_code_length = l5 } ≡ c5
        → record c5 {
          challenge_max_attempts = h6;
          account_max_failed_attempts = a6;
          account_lockout_duration = l6;
        }
          ≡ d
        → InBounds d
    joined f cookies lifetimes totp count length attempts e2 e3 e4 e5 e6 =
        rw (sym e6, sym e5, sym e4, sym e3, sym e2)
          (record {
            factors = record {
              issuer_given = f.issuer_given;
              issuer_short = f.issuer_short;
              cipher_given = f.cipher_given;
              some_factor = f.some_factor;
              otp_only = f.otp_only;
            };
            cookies = cookies;
            lifetimes = lifetimes;
            totp = totp;
            backup_count = count;
            backup_length = length;
            attempts = attempts;
          })

-- A configuration that normalizeConfig returns has an issuer of 1 to 128 bytes, a cipher and some factor; it has
-- two different cookie names that are valid with the __Host- prefix; its lifetimes, digits, period, backup-code
-- sizes and attempt limits are within their bounds, an OTP does not outlive its challenge, and an account is not
-- locked before a challenge is exhausted.
pub normalize_config-InBounds : (c d : Config) → normalize_config c ≡ ok d → InBounds d
unfolding normalize_config
normalize_config-InBounds c d h =
    let (c1, r1, h1) = >>=_ok (check_factors c) _ d h in
    let (c2, r2, h2) = >>=_ok (check_cookies c1) _ d h1 in
    let (c3, r3, h3) = >>=_ok (check_lifetimes c2) _ d h2 in
    let (c4, r4, h4) = >>=_ok (check_totp c3) _ d h3 in
    let (c5, r5, h5) = >>=_ok (check_backup_codes c4) _ d h4 in
    stages-InBounds c c1 c2 c3 c4 c5 d r1 r2 r3 r4 r5 h5
