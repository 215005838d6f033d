-- ===== src/TwoFactor/Window.antt =====
-- TOTP codes: their form, and the codes that verifyTOTP accepts.
use Prim.Native.Nat.{◌%◌, ◌^◌}
use Prim.Native.String.{len}
use better_auth_go.Prelude.{
  ℕ, zero, suc, ◌+◌, ◌-◌, ◌<◌, ◌≤◌, ◌≡◌, refl, subst, ap, ◌∙◌, ◌⊎◌, inl, inr, ◌↔◌, String, true,
  false, ◌||◌, List, [], ◌∷◌, some, arith, length, drop, ◌==◌, eq_iff, text_cases,
}
use better_auth_go.Action.{Error, Result, ok, err}
use better_auth_go.Decimal.{parse_uint, len-zero_padded, parse_uint-zero_padded}
use better_auth_go.TwoFactor.Totp.{
  Primitives, time_step, big_endian, last_byte, uint32_of, truncated, modulus, code_of_sum,
  secret_key, keyed_code, totp_code, any_equal, verify_totp,
}

last_byte-some : (b : ℕ) (bs : List ℕ) → (c : ℕ) × (last_byte (b ∷ bs) ≡ some c)
unfolding last_byte
last_byte-some b [] = (b, refl)
last_byte-some b (c ∷ bs) = last_byte-some c bs

uint32_of-some : (bs : List ℕ) → 4 ≤ length bs → (v : ℕ) × (uint32_of bs ≡ some v)
unfolding uint32_of
uint32_of-some [] h = absurd (omega (arith, h))
uint32_of-some (a ∷ []) h = absurd (omega (arith, h))
uint32_of-some (a ∷ b ∷ []) h = absurd (omega (arith, h))
uint32_of-some (a ∷ b ∷ c ∷ []) h = absurd (omega (arith, h))
uint32_of-some (a ∷ b ∷ c ∷ d ∷ bs) h = (_, refl)

length-drop : (n : ℕ) (bs : List ℕ) → length (drop n bs) ≡ length bs - n
length-drop zero bs = omega arith
length-drop (suc n) [] = omega arith
length-drop (suc n) (b ∷ bs) = omega (arith, length-drop n bs)

-- The offset that a digest of 20 bytes holds leaves four bytes after it.
truncated-some : (sum : List ℕ) → length sum ≡ 20 → (v : ℕ) × (truncated sum ≡ some v)
unfolding truncated
truncated-some [] h = absurd (omega (arith, h))
truncated-some (b ∷ bs) h =
    let (c, e) = last_byte-some b bs in
    let (v, f) =
      uint32_of-some (drop (c % 16) (b ∷ bs)) (omega (arith, h, length-drop (c % 16) (b ∷ bs))) in
    (v % 2 ^ 31, rw (e, f) refl)

abbrev pub Digits : ℕ → Type 0
Digits digits = (digits ≡ 6) ⊎ (digits ≡ 8)

-- a text of `digits` decimal digits
pub record CodeOf (digits : ℕ) (s : String) : Type 0 where
  pub size : len s ≡ digits
  pub number : ℕ
  pub reads : parse_uint (2 ^ 32 - 1) s ≡ some number
  pub small : number < 10 ^ digits

code_of_sum-CodeOf :
    (digits v : ℕ)
    → Digits digits
    → (s : String) × (code_of_sum digits (some v) ≡ ok s) × CodeOf digits s
unfolding code_of_sum modulus
code_of_sum-CodeOf digits v (inl six) = rw six (
  _,
  refl,
  record {
    size = len-zero_padded 6 (v % 1000000) (omega arith);
    number = v % 1000000;
    reads = parse_uint-zero_padded (2 ^ 32 - 1) 5 (v % 1000000) (omega arith) (omega arith);
    small = omega arith;
  },
)
code_of_sum-CodeOf digits v (inr eight) = rw eight (
  _,
  refl,
  record {
    size = len-zero_padded 8 (v % 100000000) (omega arith);
    number = v % 100000000;
    reads = parse_uint-zero_padded (2 ^ 32 - 1) 7 (v % 100000000) (omega arith) (omega arith);
    small = omega arith;
  },
)

any_equal-three :
    (candidate a b c : String)
    → any_equal candidate (ok a ∷ ok b ∷ ok c ∷ []) false
      ≡ (a == candidate || b == candidate || c == candidate)
unfolding any_equal
any_equal-three candidate a b c = refl

three_cases :
    (candidate a b c : String)
    → any_equal candidate (ok a ∷ ok b ∷ ok c ∷ []) false ≡ true
    → (a ≡ candidate) ⊎ (b ≡ candidate) ⊎ (c ≡ candidate)
three_cases candidate a b c h = elim (text_cases a candidate) [
  | inl e ↦ inl e
  | inr e ↦ elim (text_cases b candidate) [
    | inl f ↦ inr (inl f)
    | inr f ↦
        inr (inr (ground (arith, e, f, h, any_equal-three candidate a b c, eq_iff c candidate)))
  ]
]

key_cases : (r : Result (List ℕ)) → ((e : Error) × (r ≡ err e)) ⊎ ((k : List ℕ) × (r ≡ ok k))
key_cases (err e) = inl (e, refl)
key_cases (ok k) = inr (k, refl)

module _ (prim : Primitives)
    (digest : (key message : List ℕ) → length (prim.hmac_sha1 key message) ≡ 20) where
  keyed_code-CodeOf :
      (key : List ℕ) (at period digits : ℕ)
      → Digits digits
      → (s : String) × (keyed_code prim (ok key) at period digits ≡ ok s) × CodeOf digits s
  unfolding keyed_code
  keyed_code-CodeOf key at period digits d =
      let (v, e) = truncated-some _ (digest key (big_endian 8 (time_step at period))) in
      let (s, f, c) = code_of_sum-CodeOf digits v d in (s, rw e f, c)

  -- Where HMAC-SHA-1 returns 20 bytes, a secret that decodes to 16 bytes or more has a code at every instant, and
  -- with six or eight digits the code is a text of just so many decimal digits.
  pub totp_code-CodeOf :
      (secret : String) (key : List ℕ) (at period digits : ℕ)
      → secret_key prim secret ≡ ok key
      → Digits digits
      → (s : String) × (totp_code prim secret at period digits ≡ ok s) × CodeOf digits s
  unfolding totp_code
  totp_code-CodeOf secret key at period digits k d = rw k (keyed_code-CodeOf key at period digits d)

  -- one of the codes of the step before, the step itself and the next one
  abbrev pub InWindow : String → String → ℕ → ℕ → ℕ → Type 0
  InWindow secret candidate at period digits =
      (totp_code prim secret (at - period) period digits ≡ ok candidate)
      ⊎ (totp_code prim secret at period digits ≡ ok candidate)
      ⊎ (totp_code prim secret (at + period) period digits ≡ ok candidate)

  shape_passes :
      (candidate : String) (at period digits : ℕ) (secret : String)
      → CodeOf digits candidate
      → verify_totp prim secret candidate at period digits
        ≡ any_equal candidate
            (totp_code prim secret (at - period) period digits
              ∷ totp_code prim secret at period digits
              ∷ totp_code prim secret (at + period) period digits
              ∷ [])
            false
  unfolding verify_totp
  shape_passes candidate at period digits secret c = ground (arith, c.size, c.reads)

  verified-any_equal :
      (candidate : String) (at period digits : ℕ) (secret : String)
      → verify_totp prim secret candidate at period digits ≡ true
      → any_equal candidate
          (totp_code prim secret (at - period) period digits
            ∷ totp_code prim secret at period digits
            ∷ totp_code prim secret (at + period) period digits
            ∷ [])
          false
        ≡ true
  unfolding verify_totp
  verified-any_equal candidate at period digits secret h = ground (arith, h)

  -- the three codes of a good secret
  record Codes (secret : String) (at period digits : ℕ) : Type 0 where
    a : String
    b : String
    c : String
    is_a : totp_code prim secret (at - period) period digits ≡ ok a
    is_b : totp_code prim secret at period digits ≡ ok b
    is_c : totp_code prim secret (at + period) period digits ≡ ok c
    code_a : CodeOf digits a
    code_b : CodeOf digits b
    code_c : CodeOf digits c

  good_window :
      (secret : String) (key : List ℕ) (at period digits : ℕ)
      → secret_key prim secret ≡ ok key
      → Digits digits
      → Codes secret at period digits
  good_window secret key at period digits k d =
      let (a, ea, ca) = totp_code-CodeOf secret key (at - period) period digits k d in
      let (b, eb, cb) = totp_code-CodeOf secret key at period digits k d in
      let (c, ec, cc') = totp_code-CodeOf secret key (at + period) period digits k d in
      record {
        a = a;
        b = b;
        c = c;
        is_a = ea;
        is_b = eb;
        is_c = ec;
        code_a = ca;
        code_b = cb;
        code_c = cc';
      }

  module _ (secret candidate : String) (at period digits : ℕ)
      (w : Codes secret at period digits) where
    verified-InWindow :
        verify_totp prim secret candidate at period digits ≡ true
        → InWindow secret candidate at period digits
    verified-InWindow h =
        elim (three_cases candidate w.a w.b w.c (
          rw (w.is_a, w.is_b, w.is_c) at
            (verified-any_equal candidate at period digits secret h))) [
              | inl e ↦ inl (w.is_a ∙ ap ok e)
              | inr (inl e) ↦ inr (inl (w.is_b ∙ ap ok e))
              | inr (inr e) ↦ inr (inr (w.is_c ∙ ap ok e))
            ]

    accepted :
        CodeOf digits candidate
        → (w.a ≡ candidate) ⊎ (w.b ≡ candidate) ⊎ (w.c ≡ candidate)
        → verify_totp prim secret candidate at period digits ≡ true
    accepted c e =
        shape_passes candidate at period digits secret c
        ∙ rw (w.is_a, w.is_b, w.is_c)
            (any_equal-three candidate w.a w.b w.c
              ∙ ground (arith, e, eq_iff w.a candidate, eq_iff w.b candidate, eq_iff w.c candidate))

    InWindow-verified :
        InWindow secret candidate at period digits
        → verify_totp prim secret candidate at period digits ≡ true
    InWindow-verified (inl e) =
        let same : w.a ≡ candidate = cc (e, w.is_a) in
        accepted (subst (CodeOf digits) same w.code_a) (inl same)
    InWindow-verified (inr (inl e)) =
        let same : w.b ≡ candidate = cc (e, w.is_b) in
        accepted (subst (CodeOf digits) same w.code_b) (inr (inl same))
    InWindow-verified (inr (inr e)) =
        let same : w.c ≡ candidate = cc (e, w.is_c) in
        accepted (subst (CodeOf digits) same w.code_c) (inr (inr same))

  totp_code-err :
      (secret : String) (e : Error) (at period digits : ℕ)
      → secret_key prim secret ≡ err e
      → totp_code prim secret at period digits ≡ err e
  unfolding totp_code keyed_code
  totp_code-err secret e at period digits bad = rw bad refl

  bad_window :
      (secret candidate : String) (e : Error) (at period digits : ℕ)
      → secret_key prim secret ≡ err e
      → (verify_totp prim secret candidate at period digits ≡ true)
        ↔ InWindow secret candidate at period digits
  unfolding any_equal
  bad_window secret candidate e at period digits bad =
      let none_at = λ (t : ℕ). totp_code-err secret e t period digits bad in
      (
        (λ h. absurd (
            cc (
              rw (none_at (at - period)) at
                (verified-any_equal candidate at period digits secret h)))),
        (λ h. absurd (ground (arith, h, none_at (at - period), none_at at, none_at (at + period)))),
      )

  -- Where HMAC-SHA-1 returns 20 bytes and a code has six or eight digits, verifyTOTP accepts a candidate exactly
  -- when it is the code of the instant, or the one of a period before or after it.
  pub verify_totp-InWindow :
      (secret candidate : String) (at period digits : ℕ)
      → Digits digits
      → (verify_totp prim secret candidate at period digits ≡ true)
        ↔ InWindow secret candidate at period digits
  verify_totp-InWindow secret candidate at period digits d =
      elim (key_cases (secret_key prim secret)) [
        | inl (e, bad) ↦ bad_window secret candidate e at period digits bad
        | inr (key, good) ↦
            let w = good_window secret key at period digits good d in
            (
              verified-InWindow secret candidate at period digits w,
              InWindow-verified secret candidate at period digits w,
            )
      ]
