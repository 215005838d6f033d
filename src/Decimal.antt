-- ===== src/Decimal.antt =====
-- Decimal texts, as fmt.Sprintf prints them and strconv.ParseUint reads them.
use Prim.Native.Nat.{◌/◌, ◌%◌, ◌^◌}
use Prim.Native.Char.{code}
use Prim.Native.String.{len, ◌++◌ as append_text}
use text.Mathlib.TextPositions.{len-append}
use text.Mathlib.TextLemmas.{nil-append, cons-append}
use better_auth_go.Prelude.{
  ℕ, zero, suc, ◌+◌, ◌*◌, ◌-◌, ◌<◌, ◌≤◌, ◌≡◌, refl, ap, ◌∙◌, String, ◌&&◌, Option, none, some,
  arith, ltb, leb, ◌==◌, if◌then◌else◌, text_cases, inl, inr,
}

abbrev digit : ℕ → String
digit zero = "0"
digit (suc zero) = "1"
digit (suc (suc zero)) = "2"
digit (suc (suc (suc zero))) = "3"
digit (suc (suc (suc (suc zero)))) = "4"
digit (suc (suc (suc (suc (suc zero))))) = "5"
digit (suc (suc (suc (suc (suc (suc zero)))))) = "6"
digit (suc (suc (suc (suc (suc (suc (suc zero))))))) = "7"
digit (suc (suc (suc (suc (suc (suc (suc (suc zero)))))))) = "8"
digit (suc (suc (suc (suc (suc (suc (suc (suc (suc n))))))))) = "9"

-- the decimal digits of a number, none for 0; the fuel bounds their count
digits_of : ℕ → ℕ → String
digits_of zero n = ""
digits_of (suc f) n =
    let rest = digits_of f (n / 10) in if ltb 0 n then append_text rest (digit (n % 10)) else ""

-- fmt.Sprintf("%0*d", width, n) of a 64-bit number, which has at most 20 digits
unfoldable pub zero_padded : ℕ → ℕ → String
unfolding digits_of
zero_padded zero n = digits_of 20 n
zero_padded (suc w) n = append_text (zero_padded w (n / 10)) (digit (n % 10))

-- the loop of strconv.ParseUint(s, 10, bits), where `most` is the greatest number of those bits
parse_digits : ℕ → ℕ → String → Option ℕ
parse_digits most acc String.[] = some acc
parse_digits most acc (String.◌∷◌ c s) =
    let n = acc * 10 + (code c - 48) in
    let rest = parse_digits most n s in
    if leb 48 (code c) && leb (code c) 57 && leb n most then rest else none

unfoldable pub parse_uint : ℕ → String → Option ℕ
unfolding parse_digits
parse_uint most s = if s == "" then none else parse_digits most 0 s

chained : {A : Type 0} → Option A → (A → Option A) → Option A
chained none f = none
chained (some a) f = f a

parse_digits-append :
    (most acc : ℕ) (s t : String)
    → parse_digits most acc (append_text s t)
      ≡ chained (parse_digits most acc s) (λ n. parse_digits most n t)
unfolding parse_digits chained
parse_digits-append most acc String.[] t = rw (nil-append t) refl
parse_digits-append most acc (String.◌∷◌ c s) t =
    rw (cons-append c s t) (ground (arith, parse_digits-append most (acc * 10 + (code c - 48)) s t))

-- the numbers below ten, one by one
below_ten :
    (P : ℕ → Type 0)
    → P 0
    → P 1
    → P 2
    → P 3
    → P 4
    → P 5
    → P 6
    → P 7
    → P 8
    → P 9
    → (d : ℕ) → d < 10
    → P d
below_ten P a b c d e f g h i j zero k = a
below_ten P a b c d e f g h i j (suc zero) k = b
below_ten P a b c d e f g h i j (suc (suc zero)) k = c
below_ten P a b c d e f g h i j (suc (suc (suc zero))) k = d
below_ten P a b c d e f g h i j (suc (suc (suc (suc zero)))) k = e
below_ten P a b c d e f g h i j (suc (suc (suc (suc (suc zero))))) k = f
below_ten P a b c d e f g h i j (suc (suc (suc (suc (suc (suc zero)))))) k = g
below_ten P a b c d e f g h i j (suc (suc (suc (suc (suc (suc (suc zero))))))) k = h
below_ten P a b c d e f g h i j (suc (suc (suc (suc (suc (suc (suc (suc zero)))))))) k = i
below_ten P a b c d e f g h i j (suc (suc (suc (suc (suc (suc (suc (suc (suc zero))))))))) k = j
below_ten P a b c d e f g h i j (suc (suc (suc (suc (suc (suc (suc (suc (suc (suc n)))))))))) k =
    absurd (omega (arith, k))

parse_digits-digit :
    (most acc d : ℕ)
    → d < 10
    → acc * 10 + d ≤ most
    → parse_digits most acc (digit d) ≡ some (acc * 10 + d)
unfolding parse_digits
parse_digits-digit most acc =
    below_ten (λ d. acc * 10 + d ≤ most → parse_digits most acc (digit d) ≡ some (acc * 10 + d))
      (λ k. ground arith) (λ k. ground arith) (λ k. ground arith) (λ k. ground arith)
      (λ k. ground arith) (λ k. ground arith) (λ k. ground arith) (λ k. ground arith)
      (λ k. ground arith) (λ k. ground arith)

len-digit : (d : ℕ) → d < 10 → len (digit d) ≡ 1
len-digit = below_ten (λ d. len (digit d) ≡ 1) refl refl refl refl refl refl refl refl refl refl

digits_of-zero : (f n : ℕ) → n < 1 → digits_of f n ≡ ""
unfolding digits_of
digits_of-zero zero n h = refl
digits_of-zero (suc f) n h = ground arith

ten_times : (n w : ℕ) → n < 10 ^ suc w → n / 10 < 10 ^ w
ten_times n w h = omega arith

pub len-zero_padded : (w n : ℕ) → n < 10 ^ w → len (zero_padded w n) ≡ w
unfolding zero_padded
len-zero_padded zero n h = rw (digits_of-zero 20 n h) refl
len-zero_padded (suc w) n h =
    len-append (zero_padded w (n / 10)) (digit (n % 10))
    ∙ omega (arith, len-zero_padded w (n / 10) (ten_times n w h), len-digit (n % 10) (omega arith))

parse_digits-zero_padded :
    (most w n : ℕ) → n < 10 ^ w → n ≤ most → parse_digits most 0 (zero_padded w n) ≡ some n
unfolding zero_padded chained parse_digits
parse_digits-zero_padded most zero n h k = rw (digits_of-zero 20 n h) (ap some (omega arith))
parse_digits-zero_padded most (suc w) n h k =
    parse_digits-append most 0 (zero_padded w (n / 10)) (digit (n % 10))
    ∙ rw (parse_digits-zero_padded most w (n / 10) (ten_times n w h) (omega arith)) (
        parse_digits-digit most (n / 10) (n % 10) (omega arith) (omega arith)
        ∙ ap some (omega arith))

-- ParseUint reads back what Sprintf printed.
pub parse_uint-zero_padded :
    (most w n : ℕ) → n < 10 ^ suc w → n ≤ most → parse_uint most (zero_padded (suc w) n) ≡ some n
unfolding parse_uint
parse_uint-zero_padded most w n h k = elim (text_cases (zero_padded (suc w) n) "") [
  | inl e ↦ absurd (omega (arith, len-zero_padded (suc w) n h, ap len e))
  | inr e ↦ rw e (parse_digits-zero_padded most (suc w) n h k)
]
