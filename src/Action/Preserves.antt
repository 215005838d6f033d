-- ===== src/Action/Preserves.antt =====
-- Invariants of actions: `Preserves P m` says that `m` leaves `P` true whether it returns a value or an error.
use better_auth_go.Prelude.{◌≡◌, refl, ap, subst, Bool, true, false, if◌then◌else◌}
use better_auth_go.Action.{Error, Result, ok, err, Action, pure, throw, lift, reads, ◌>>=◌, proceed}

pub record Preserves {ℓ} {S A : Type ℓ} (P : S → Type ℓ) (m : Action S A) : Type ℓ where
  pub after : (s : S) → P s → P (m s).1

module _ {ℓ} {S A : Type ℓ} {P : S → Type ℓ} where
  pub pure-Preserves : (a : A) → Preserves P (pure a)
  unfolding pure
  pure-Preserves a = record { after = λ s p. p }

  pub throw-Preserves : (e : Error) → Preserves P (throw {A = A} e)
  unfolding throw
  throw-Preserves e = record { after = λ s p. p }

  pub lift-Preserves : (r : Result A) → Preserves P (lift r)
  unfolding lift
  lift-Preserves r = record { after = λ s p. p }

  pub reads-Preserves : (f : S → Result A) → Preserves P (reads f)
  unfolding reads
  reads-Preserves f = record { after = λ s p. p }

  pub if-Preserves :
      (b : Bool) (m n : Action S A)
      → Preserves P m
      → Preserves P n
      → Preserves P (if b then m else n)
  if-Preserves true m n pm pn = pm
  if-Preserves false m n pm pn = pn

module _ {ℓ} {S A B : Type ℓ} {P : S → Type ℓ} where
  pub proceed-Preserves :
      (r : Result A) (f : A → Action S B) (s : S)
      → P s
      → ((a : A) → Preserves P (f a))
      → P (proceed r f s).1
  proceed-Preserves (ok a) f s p pf = (pf a).after s p
  proceed-Preserves (err e) f s p pf = p

  pub bind-Preserves :
      (m : Action S A) (f : A → Action S B)
      → Preserves P m
      → ((a : A) → Preserves P (f a))
      → Preserves P (m >>= f)
  unfolding ◌>>=◌
  bind-Preserves m f pm pf = record {
    after = λ s p. proceed-Preserves (m s).0 f (m s).1 (pm.after s p) pf;
  }

module _ {ℓ} {S A B : Type ℓ} where
  -- A last step that only computes a value leaves the state of the step before it.
  pub proceed-pure_state :
      (r : Result A) (f : A → B) (s : S) → (proceed r (λ x. pure (f x)) s).1 ≡ s
  unfolding pure
  proceed-pure_state (ok a) f s = refl
  proceed-pure_state (err e) f s = refl

-- what an action that preserves a property leaves, once it has run
pub landed {ℓ} :
    {S A : Type ℓ} {P : S → Type ℓ} {run : Action S A} {s t : S} {e : Result A}
    → Preserves P run
    → run s ≡ (e, t)
    → P s
    → P t
landed {S = S} {A = A} {P = P} {s = s} p h v =
    subst P (ap (λ (x : Result A × S). x.1) h) (p.after s v)

pub ruleset preserves_rules =
    (pure-Preserves, throw-Preserves, lift-Preserves, reads-Preserves, if-Preserves, bind-Preserves)
