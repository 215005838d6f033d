-- ===== src/Action/Checks.antt =====
-- Go functions that only check and compute: `(value, error)` with no store.
use better_auth_go.Prelude.{◌≡◌, refl, String, Bool, true, false, if◌then◌else◌}
use better_auth_go.Action.{failure, Result, ok, err}

module _ {ℓ} {A B : Type ℓ} where
  infixl 10 ◌>>=◌
  abbrev pub ◌>>=◌ : Result A → (A → Result B) → Result B
  ok a >>= f = f a
  err e >>= f = err e

  pub >>=_ok :
      (r : Result A) (f : A → Result B) (b : B)
      → (r >>= f) ≡ ok b
      → (a : A) × (r ≡ ok a) × (f a ≡ ok b)
  >>=_ok (ok a) f b h = (a, refl, h)
  >>=_ok (err e) f b h = absurd (cc h)

-- `if b { return errors.New(message) }`
unfoldable pub refuse_if {ℓ} : {A : Type ℓ} → Bool → String → Result A → Result A
refuse_if b s r = if b then err (failure s) else r

pub refuse_if-ok {ℓ} :
    {A : Type ℓ} (b : Bool) (s : String) (r : Result A) (a : A)
    → refuse_if b s r ≡ ok a
    → (b ≡ false) × (r ≡ ok a)
unfolding refuse_if
refuse_if-ok true s r a h = absurd (cc h)
refuse_if-ok false s r a h = (refl, h)

pub ok_injective {ℓ} : {A : Type ℓ} {a b : A} → ok a ≡ ok b → a ≡ b
ok_injective h = cc h
