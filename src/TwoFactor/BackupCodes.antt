-- ===== src/TwoFactor/BackupCodes.antt =====
-- Backup codes: the code that is found, and the codes that are left.
use better_auth_go.Prelude.{
  ℕ, zero, suc, String, ◌≡◌, refl, sym, ap, eq_iff, false, List, [], ◌∷◌, ◌++◌, none, some, any,
  Option-cases, Bool-cases, inl, inr,
}
use better_auth_go.TwoFactor.Codes.{
  normalize_backup_code, same_code, backup_code_index, remaining_codes,
}

module _ (to_lower : String → String) (candidate : String) where
  -- The codes split at the first one that reads as the candidate.
  pub record Spent (codes : List String) (i : ℕ) : Type 0 where
    pub before : List String
    pub code : String
    pub after : List String
    pub split : codes ≡ before ++ (code ∷ after)
    pub matching : normalize_backup_code to_lower code ≡ normalize_backup_code to_lower candidate
    pub first : any (same_code to_lower candidate) before ≡ false
    pub left : remaining_codes i codes ≡ before ++ after

  later_Spent :
      (c : String) (codes : List String) (i : ℕ)
      → same_code to_lower candidate c ≡ false
      → Spent codes i
      → Spent (c ∷ codes) (suc i)
  unfolding remaining_codes
  later_Spent c codes i other s = record {
    before = c ∷ s.before;
    code = s.code;
    after = s.after;
    split = ap (λ l. c ∷ l) s.split;
    matching = s.matching;
    first = rw (other) s.first;
    left = ap (λ l. c ∷ l) s.left;
  }

  -- A candidate that backupCodeIndex finds is the first code that reads alike, and the codes that remain are all
  -- the others, in their order.
  pub backup_code_index-Spent :
      (codes : List String) (i : ℕ)
      → backup_code_index to_lower codes candidate ≡ some i
      → Spent codes i
  unfolding backup_code_index remaining_codes
  backup_code_index-Spent [] i h = absurd (cc h)
  backup_code_index-Spent (c ∷ codes) i h = elim (Bool-cases (same_code to_lower candidate c)) [
    | inl hit ↦
        let z : zero ≡ i = cc (rw hit at h) in
        rw (sym z) (record {
          before = [];
          code = c;
          after = codes;
          split = refl;
          matching = (eq_iff _ _).0 hit;
          first = refl;
          left = refl;
        })
    | inr miss ↦ elim (Option-cases (backup_code_index to_lower codes candidate)) [
      | inl e ↦ absurd (cc (rw (miss, e) at h))
      | inr (j, e) ↦
          let z : suc j ≡ i = cc (rw (miss, e) at h) in
          rw (sym z) (later_Spent c codes j miss (backup_code_index-Spent codes j e))
    ]
  ]

  -- A candidate that it does not find reads like none of the codes.
  pub backup_code_index-none :
      (codes : List String)
      → backup_code_index to_lower codes candidate ≡ none
      → any (same_code to_lower candidate) codes ≡ false
  unfolding backup_code_index
  backup_code_index-none [] h = refl
  backup_code_index-none (c ∷ codes) h = elim (Bool-cases (same_code to_lower candidate c)) [
    | inl hit ↦ absurd (cc (rw hit at h))
    | inr miss ↦ elim (Option-cases (backup_code_index to_lower codes candidate)) [
      | inl e ↦ rw miss (backup_code_index-none codes e)
      | inr (j, e) ↦ absurd (cc (rw (miss, e) at h))
    ]
  ]
