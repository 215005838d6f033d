-- ===== src/Action.antt =====
-- Go functions that change a store and return `(value, error)`: what was written before an error
-- stays written, so the state comes back beside the error too. The errors are the sentinels of
-- errors.go that the store and the memory adapter return; every other error is a `failure` with its message.
pub mod Preserves
pub mod Inversion
pub mod Checks
use better_auth_go.Prelude.{◌≡◌, refl, String, Bool, true, false, if◌then◌else◌}

pub data Error : Type 0 where
  not_found conflict replay sign_up_disabled account_not_linked ambiguous_account : Error
  failure : String → Error

pub data Result {ℓ} (A : Type ℓ) : Type ℓ where
  ok : A → Result A
  err : Error → Result A

abbrev pub Action {ℓ} : Type ℓ → Type ℓ → Type ℓ
Action S A = S → Result A × S

module _ {ℓ} {S A : Type ℓ} where
  unfoldable pub pure : A → Action S A
  pure a s = (ok a, s)

  unfoldable pub throw : Error → Action S A
  throw e s = (err e, s)

  -- a step that only checks
  unfoldable pub lift : Result A → Action S A
  lift r s = (r, s)

  -- a step that only reads
  unfoldable pub reads : (S → Result A) → Action S A
  reads f s = (f s, s)

module _ {ℓ} {S A B : Type ℓ} where
  abbrev pub proceed : Result A → (A → Action S B) → Action S B
  proceed (ok a) f s = f a s
  proceed (err e) f s = (err e, s)

  infixl 10 ◌>>=◌ ◌>>◌
  unfoldable pub ◌>>=◌ : Action S A → (A → Action S B) → Action S B
  ◌>>=◌ m f s = proceed (m s).0 f (m s).1

  abbrev pub ◌>>◌ : Action S A → Action S B → Action S B
  m >> n = m >>= λ _. n

  -- a step that goes on whether the one before failed or not
  unfoldable pub with_result : Action S A → (Result A → Action S B) → Action S B
  with_result m f s = f (m s).0 (m s).1
