-- ===== src/Store/Core.antt =====
-- The adapter under the rules of the core schema: its unique keys, and what they say of two rows.
use better_auth_go.Prelude.{
  String, ◌≡◌, refl, ap, inl, inr, true, [], ◌∷◌, some, lookup, text_cases, ◌==◌, eq_refl,
}
use better_auth_go.Value.{Record, text, field, is_nil}
use better_auth_go.Schema.{
  core_schema, model_user, model_session, model_account, model_verification,
}
use better_auth_go.Memory.Rules.{rules_from_schema}
use better_auth_go.Memory.Match.{Printer}
use better_auth_go.Memory.Table.{
  Adapter, Rows, table, id_field, unique_keys, shares_key, same_unique_key,
}
use better_auth_go.Memory.WellFormed.{WellFormed}
use better_auth_go.Memory.Semantics.{text-deep_equal}

-- the adapter that New() returns, over a printer
abbrev pub core_memory : Printer → Adapter
core_memory p = record { rules = rules_from_schema core_schema; printer = p }

module _ (p : Printer) where
  pub id_field-session : id_field (core_memory p) model_session ≡ "id"
  unfolding id_field rules_from_schema core_schema lookup
  id_field-session = refl

  pub id_field-user : id_field (core_memory p) model_user ≡ "id"
  unfolding id_field rules_from_schema core_schema lookup
  id_field-user = refl

  pub unique_keys-session : unique_keys (core_memory p) model_session ≡ ("tokenHash" ∷ []) ∷ []
  unfolding unique_keys rules_from_schema core_schema lookup
  unique_keys-session = refl

  pub unique_keys-user : unique_keys (core_memory p) model_user ≡ ("email" ∷ []) ∷ []
  unfolding unique_keys rules_from_schema core_schema lookup
  unique_keys-user = refl

  pub unique_keys-verification :
      unique_keys (core_memory p) model_verification ≡ ("value" ∷ []) ∷ []
  unfolding unique_keys rules_from_schema core_schema lookup
  unique_keys-verification = refl

  pub unique_keys-account :
      unique_keys (core_memory p) model_account ≡ ("providerId" ∷ "accountId" ∷ []) ∷ []
  unfolding unique_keys rules_from_schema core_schema lookup
  unique_keys-account = refl

shares_key-text :
    (f s : String) (l r : Record)
    → field l f ≡ text s
    → field r f ≡ text s
    → shares_key ((f ∷ []) ∷ []) l r ≡ true
unfolding shares_key same_unique_key is_nil
shares_key-text f s l r e g = rw (e, g, text-deep_equal s)

shares_key_two :
    (f g s t : String) (l r : Record)
    → field l f ≡ text s
    → field r f ≡ text s
    → field l g ≡ text t
    → field r g ≡ text t
    → shares_key ((f ∷ g ∷ []) ∷ []) l r ≡ true
unfolding shares_key same_unique_key is_nil
shares_key_two f g s t l r a b c d = rw (a, b, c, d, text-deep_equal s, text-deep_equal t)

module _ (a : Adapter) (rows : Rows) (v : WellFormed a rows) (m : String) where
  -- Two rows with the same text in a unique field are one row.
  pub same_text-same_id :
      (f s i j : String) (l r : Record)
      → unique_keys a m ≡ (f ∷ []) ∷ []
      → lookup i (table rows m) ≡ some l
      → lookup j (table rows m) ≡ some r
      → field l f ≡ text s
      → field r f ≡ text s
      → i ≡ j
  same_text-same_id f s i j l r keys el er fl fr = elim (text_cases i j) [
    | inl same ↦ same
    | inr other ↦ cc (
      (v.at m).unique i j l r el er (λ e. cc (other, ap (λ x. x == j) e, eq_refl j)),
      keys,
      ap (λ k. shares_key k l r) keys,
      shares_key-text f s l r fl fr,
    )
  ]

  pub same_texts-same_id :
      (f g s t i j : String) (l r : Record)
      → unique_keys a m ≡ (f ∷ g ∷ []) ∷ []
      → lookup i (table rows m) ≡ some l
      → lookup j (table rows m) ≡ some r
      → field l f ≡ text s
      → field r f ≡ text s
      → field l g ≡ text t
      → field r g ≡ text t
      → i ≡ j
  same_texts-same_id f g s t i j l r keys el er fl fr gl gr = elim (text_cases i j) [
    | inl same ↦ same
    | inr other ↦ cc (
      (v.at m).unique i j l r el er (λ e. cc (other, ap (λ x. x == j) e, eq_refl j)),
      keys,
      ap (λ k. shares_key k l r) keys,
      shares_key_two f g s t l r fl fr gl gr,
    )
  ]
