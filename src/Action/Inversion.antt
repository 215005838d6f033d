-- ===== src/Action/Inversion.antt =====
-- Inversion of a successful sequence: each step of it succeeded.
use better_auth_go.Prelude.{◌≡◌, refl, ap, Bool, true, false, arith, if◌then◌else◌}
use better_auth_go.Action.{
  Error, Result, ok, err, Action, pure, throw, lift, with_result, ◌>>=◌, proceed,
}

module _ {S A B : Type 0} where
  proceed-ok :
      (r : Result A) (f : A → Action S B) (t s' : S) (b : B)
      → proceed r f t ≡ (ok b, s')
      → (x : A) × (r ≡ ok x) × (f x t ≡ (ok b, s'))
  proceed-ok (ok x) f t s' b h = (x, refl, h)
  proceed-ok (err e) f t s' b h = ground arith

  pub >>=-ok :
      (m : Action S A) (f : A → Action S B) (s s' : S) (b : B)
      → (m >>= f) s ≡ (ok b, s')
      → (x : A) × (t : S) × (m s ≡ (ok x, t)) × (f x t ≡ (ok b, s'))
  unfolding ◌>>=◌
  >>=-ok m f s s' b h =
      let (x, e, g) = proceed-ok (m s).0 f (m s).1 s' b h in (x, (m s).1, (λ i. (e i, (m s).1)), g)

  -- A sequence runs its first step, then the rest.
  pub >>=-run :
      (m : Action S A) (f : A → Action S B) (s t : S) (x : A)
      → m s ≡ (ok x, t)
      → (m >>= f) s ≡ f x t
  unfolding ◌>>=◌
  >>=-run m f s t x h = ap (λ (p : Result A × S). proceed p.0 f p.1) h

  pub >>=-err :
      (m : Action S A) (f : A → Action S B) (s t : S) (e : Error)
      → m s ≡ (err e, t)
      → (m >>= f) s ≡ (err e, t)
  unfolding ◌>>=◌
  >>=-err m f s t e h = ap (λ (p : Result A × S). proceed p.0 f p.1) h

module _ {S A : Type 0} where
  pub pure-ok : (x y : A) (s s' : S) → pure x s ≡ (ok y, s') → (x ≡ y) × (s ≡ s')
  unfolding pure
  pure-ok x y s s' h = ground arith

  pub lift-ok : (r : Result A) (y : A) (s s' : S) → lift r s ≡ (ok y, s') → (r ≡ ok y) × (s ≡ s')
  unfolding lift
  lift-ok r y s s' h = ground arith

  -- A guarded sequence that succeeded has passed its guard.
  pub unless-ok :
      (b : Bool) (e : Error) (m : Action S A) (x : A) (s s' : S)
      → (if b then throw e else m) s ≡ (ok x, s')
      → (b ≡ false) × (m s ≡ (ok x, s'))
  unfolding throw
  unless-ok true e m x s s' h = ground arith
  unless-ok false e m x s s' h = (refl, h)

  pub otherwise-ok :
      (b : Bool) (e : Error) (m : Action S A) (x : A) (s s' : S)
      → (if b then m else throw e) s ≡ (ok x, s')
      → (b ≡ true) × (m s ≡ (ok x, s'))
  unfolding throw
  otherwise-ok true e m x s s' h = (refl, h)
  otherwise-ok false e m x s s' h = ground arith

module _ {ℓ} {S A B : Type ℓ} where
  pub with_result-run :
      (m : Action S A) (f : Result A → Action S B) (s t : S) (r : Result A)
      → m s ≡ (r, t)
      → with_result m f s ≡ f r t
  unfolding with_result
  with_result-run m f s t r h = ap (λ (p : Result A × S). f p.0 p.1) h

module _ {ℓ} {S A : Type ℓ} where
  pub unless-run : (b : Bool) (m n : Action S A) (s : S) → b ≡ false → (if b then m else n) s ≡ n s
  unless-run true m n s h = absurd (cc h)
  unless-run false m n s h = refl

  pub when-run : (b : Bool) (m n : Action S A) (s : S) → b ≡ true → (if b then m else n) s ≡ m s
  when-run true m n s h = refl
  when-run false m n s h = absurd (cc h)
