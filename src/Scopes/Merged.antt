-- ===== src/Scopes/Merged.antt =====
-- What `mergeOAuthScopes` returns: each scope of the two texts, once.
use better_auth_go.Prelude.{
  ◌≡◌, refl, String, false, ◌||◌, List, [], ◌∷◌, ◌++◌, eq_iff, arith, contains, if◌then◌else◌,
  Bool-cases, inl, inr,
}
use better_auth_go.Scopes.{add_scopes, merged_scopes, fields_of}

contains-append :
    (xs ys : List String) (s : String) → contains (xs ++ ys) s ≡ (contains xs s || contains ys s)
contains-append [] ys s = refl
contains-append (x ∷ xs) ys s = ground (arith, contains-append xs ys s)

contains-add_scopes :
    (ordered xs : List String) (s : String)
    → contains (add_scopes ordered xs) s ≡ (contains ordered s || contains xs s)
unfolding add_scopes
contains-add_scopes ordered [] s = ground arith
contains-add_scopes ordered (x ∷ xs) s = ground (
  arith,
  contains-add_scopes (if contains ordered x then ordered else ordered ++ x ∷ []) xs s,
  contains-append ordered (x ∷ []) s,
  eq_iff x s,
)

-- no scope stands twice
abbrev pub NoRepeats : List String → Type 0
NoRepeats [] = Unit
NoRepeats (x ∷ xs) = (contains xs x ≡ false) × NoRepeats xs

NoRepeats-append :
    (xs : List String) (s : String)
    → NoRepeats xs
    → contains xs s ≡ false
    → NoRepeats (xs ++ s ∷ [])
NoRepeats-append [] s n h = (refl, tt)
NoRepeats-append (x ∷ xs) s n h = (
  ground (arith, contains-append xs (s ∷ []) x, eq_iff x s, eq_iff s x, n.0),
  NoRepeats-append xs s n.1 (ground arith),
)

NoRepeats-add_scopes :
    (ordered xs : List String) → NoRepeats ordered → NoRepeats (add_scopes ordered xs)
unfolding add_scopes
NoRepeats-add_scopes ordered [] n = n
NoRepeats-add_scopes ordered (x ∷ xs) n = elim (Bool-cases (contains ordered x)) [
  | inl e ↦ rw e (NoRepeats-add_scopes ordered xs n)
  | inr e ↦ rw e (NoRepeats-add_scopes (ordered ++ x ∷ []) xs (NoRepeats-append ordered x n e))
]

-- The merged scopes hold exactly the scopes of the two texts, each once.
pub merged_scopes-union :
    (existing incoming : String)
    → NoRepeats (merged_scopes existing incoming)
      × ((s : String)
          → contains (merged_scopes existing incoming) s
            ≡ (contains (fields_of existing) s || contains (fields_of incoming) s))
unfolding merged_scopes
merged_scopes-union existing incoming = (
  NoRepeats-add_scopes _ (fields_of incoming) (NoRepeats-add_scopes [] (fields_of existing) tt),
  λ s. ground (
    arith,
    contains-add_scopes (add_scopes [] (fields_of existing)) (fields_of incoming) s,
    contains-add_scopes [] (fields_of existing) s,
  ),
)
