-- ===== src/SchemaAdapter/Names.antt =====
-- The names of the fields of a model that validateSchema accepts: no two have one stored name.
use better_auth_go.Prelude.{
  String, ◌≡◌, ◌≢◌, refl, ap, subst, ◌∙◌, ◌⊎◌, inl, inr, true, false, [], ◌∷◌, some, Assoc, lookup,
  put, lookup-put, Bool-cases, text_cases, eq_iff, eq_refl, arith, ◌==◌,
}
use better_auth_go.Schema.{FieldSchema}
use better_auth_go.SchemaAdapter.Valid.{or_text, taken, distinct_fields}
use better_auth_go.SchemaAdapter.{logical_name}

abbrev pub own_name : String → FieldSchema → String
own_name k f = or_text k f.field_name

distinct_head :
    (j : String) (g : FieldSchema) (fields : Assoc FieldSchema) (seen : Assoc String)
    → distinct_fields ((j, g) ∷ fields) seen ≡ true
    → (taken (lookup (own_name j g) seen) j ≡ false)
      × (distinct_fields fields (put (own_name j g) j seen) ≡ true)
unfolding distinct_fields
distinct_head j g fields seen d = elim (Bool-cases (taken (lookup (own_name j g) seen) j)) [
  | inl e ↦ absurd (cc (rw e at d))
  | inr e ↦ (e, rw e at d)
]

taken-false : (p k : String) → taken (some p) k ≡ false → p ≡ k
taken-false p k h = ground (arith, h, eq_iff p k)

-- The names that are taken stay so.
put-taken :
    (s j p t : String) (seen : Assoc String)
    → taken (lookup s seen) j ≡ false
    → lookup t seen ≡ some p
    → lookup t (put s j seen) ≡ some p
put-taken s j p t seen free h = elim (text_cases s t) [
  | inl same ↦
      let p_is_j : p ≡ j =
        taken-false p j (subst (λ o. taken o j ≡ false) (ap (λ x. lookup x seen) same ∙ h) free) in
      lookup-put s t j seen ∙ ground (arith, p_is_j, same, eq_iff s t)
  | inr other ↦ lookup-put s t j seen ∙ ground (arith, other, h)
]

-- A stored name that is taken belongs to the field that has it.
taken-same :
    (fields : Assoc FieldSchema) (seen : Assoc String) (p k : String) (f : FieldSchema)
    → distinct_fields fields seen ≡ true
    → lookup k fields ≡ some f
    → lookup (own_name k f) seen ≡ some p
    → p ≡ k
unfolding lookup
taken-same [] seen p k f d e h = absurd (cc e)
taken-same ((j, g) ∷ fields) seen p k f d e h =
    let (free, rest) = distinct_head j g fields seen d in
    elim (text_cases j k) [
      | inl same ↦
          let g_is_f : g ≡ f = ground (arith, e, same, eq_iff j k) in
          let name_same : own_name j g ≡ own_name k f = λ i. own_name (same i) (g_is_f i) in
          taken-false p j
            (subst (λ o. taken o j ≡ false) (ap (λ x. lookup x seen) name_same ∙ h) free)
          ∙ same
      | inr other ↦
          taken-same fields (put (own_name j g) j seen) p k f rest (ground (arith, e, other))
            (put-taken (own_name j g) j p (own_name k f) seen free h)
    ]

-- A field of the given stored name, if there is one, is the one that has taken it.
logical_name-taken :
    (fields : Assoc FieldSchema) (seen : Assoc String) (s p : String)
    → s ≢ ""
    → distinct_fields fields seen ≡ true
    → lookup s seen ≡ some p
    → (logical_name s fields ≡ s) ⊎ (logical_name s fields ≡ p)
unfolding logical_name
logical_name-taken [] seen s p n d h = inl refl
logical_name-taken ((j, g) ∷ fields) seen s p n d h =
    let (free, rest) = distinct_head j g fields seen d in
    elim (text_cases g.field_name s) [
      | inl same ↦
          let named : own_name j g ≡ s = ground (arith, same, n, eq_iff g.field_name "") in
          let p_is_j : p ≡ j =
            taken-false p j
              (subst (λ o. taken o j ≡ false) (ap (λ x. lookup x seen) named ∙ h) free) in
          inr (ground (arith, same, eq_iff g.field_name s, p_is_j))
      | inr other ↦ rw other (
          logical_name-taken fields (put (own_name j g) j seen) s p n rest
            (put-taken (own_name j g) j p s seen free h))
    ]

plain_name :
    (k : String) (f : FieldSchema) → (f.field_name == own_name k f) ≡ false → own_name k f ≡ k
plain_name k f h = elim (Bool-cases (f.field_name == "")) [
  | inl e ↦ rw e refl
  | inr e ↦ absurd (cc (rw (e, eq_refl f.field_name) at h))
]

-- The logical name of a field's stored name is the field's own.
pub logical_name-own :
    (fields : Assoc FieldSchema) (seen : Assoc String) (k : String) (f : FieldSchema)
    → k ≢ ""
    → distinct_fields fields seen ≡ true
    → lookup k fields ≡ some f
    → logical_name (own_name k f) fields ≡ k
unfolding lookup logical_name
logical_name-own [] seen k f n d e = absurd (cc e)
logical_name-own ((j, g) ∷ fields) seen k f n d e =
    let (free, rest) = distinct_head j g fields seen d in
    let filled : own_name k f ≢ "" = λ x. n (ground (arith, x, eq_iff f.field_name "")) in
    elim (text_cases j k) [
      | inl same ↦
          let g_is_f : g ≡ f = ground (arith, e, same, eq_iff j k) in
          let name_same : own_name j g ≡ own_name k f = λ i. own_name (same i) (g_is_f i) in
          elim (text_cases g.field_name (own_name k f)) [
            | inl hit ↦ ground (arith, hit, eq_iff g.field_name (own_name k f), same)
            | inr miss ↦
                let plain : own_name k f ≡ k = plain_name k f (
                  subst (λ (x : FieldSchema). (x.field_name == own_name k f) ≡ false) g_is_f
                    miss) in
                rw miss
                  (elim (logical_name-taken fields (put (own_name j g) j seen) (own_name k f) j
                    filled rest
                    (lookup-put (own_name j g) (own_name k f) j seen
                      ∙ ground (arith, name_same, eq_iff (own_name j g) (own_name k f)))) [
                        | inl own ↦ own ∙ plain
                        | inr there ↦ there ∙ same
                      ])
          ]
      | inr other ↦ elim (text_cases g.field_name (own_name k f)) [
        | inl hit ↦
            let named : own_name j g ≡ own_name k f =
              ground (arith, hit, filled, eq_iff g.field_name "") in
            let j_is_k : j ≡ k =
              taken-same fields (put (own_name j g) j seen) j k f rest (ground (arith, e, other)) (
                lookup-put (own_name j g) (own_name k f) j seen
                ∙ ground (arith, named, eq_iff (own_name j g) (own_name k f))) in
            ground (arith, hit, eq_iff g.field_name (own_name k f), j_is_k)
        | inr miss ↦ rw miss (
            logical_name-own fields (put (own_name j g) j seen) k f n rest
              (ground (arith, e, other)))
      ]
    ]
