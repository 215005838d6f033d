-- ===== src/SchemaAdapter/RoundTrip.antt =====
-- The records that the wrapper stores under a schema that validateSchema accepts, and reads back.
use better_auth_go.Prelude.Append.{append_assoc, append-nil}
use better_auth_go.Prelude.{
  String, ◌≡◌, ◌≢◌, refl, sym, ap, subst, ◌∙◌, inl, inr, true, [], ◌∷◌, ◌++◌, none, some, Assoc,
  lookup, put, DistinctKeys, text_cases, eq_iff, eq_refl, arith,
}
use better_auth_go.Action.{ok}
use better_auth_go.Action.Checks.{refuse_if-ok}
use better_auth_go.Value.{Value, Record}
use better_auth_go.Schema.{FieldSchema, ModelSchema, Schema}
use better_auth_go.SchemaAdapter.Valid.{distinct_fields, valid_models, validate_schema}
use better_auth_go.SchemaAdapter.{
  Mapping, fields_of_model, stored_field, logical_field, mapped_record, input_record, output_record,
  input_value, output_value,
}
use better_auth_go.SchemaAdapter.Names.{logical_name-own}

put-fresh :
    {V : Type 0} (k : String) (v : V) (m : Assoc V)
    → lookup k m ≡ none
    → put k v m ≡ m ++ ((k, v) ∷ [])
unfolding lookup put
put-fresh k v [] h = refl
put-fresh k v ((j, w) ∷ m) h = elim (text_cases j k) [
  | inl same ↦ absurd (ground (arith, h, same, eq_iff j k))
  | inr other ↦ rw other (ap (λ l. (j, w) ∷ l) (put-fresh k v m (ground (arith, h, other))))
]

lookup-after :
    {V : Type 0} (l : Assoc V) (i : String) (x : V) (r : Assoc V)
    → lookup i (l ++ ((i, x) ∷ r)) ≢ none
unfolding lookup
lookup-after [] i x r h = ground (arith, h, eq_refl i)
lookup-after ((a, b) ∷ l) i x r h = ground (arith, h, lookup-after l i x r)

-- a key that stands after a list of entries is not among them
lookup-before :
    {V : Type 0} (m : Assoc V) (k : String) (v : V) (n : Assoc V)
    → DistinctKeys (m ++ ((k, v) ∷ n))
    → lookup k m ≡ none
unfolding lookup
lookup-before [] k v n d = refl
lookup-before ((j, w) ∷ m) k v n d = elim (text_cases j k) [
  | inl same ↦
      absurd (lookup-after m k v n (subst (λ x. lookup x (m ++ ((k, v) ∷ n)) ≡ none) same d.0))
  | inr other ↦ rw other (lookup-before m k v n d.1)
]

-- the entries of a record, each under its new name
abbrev pub entries : (String → String) → (String → Value → Value) → Record → Record
entries name value [] = []
entries name value ((k, v) ∷ r) = (name k, value k v) ∷ entries name value r

mapped_record-entries :
    (name : String → String) (value : String → Value → Value) (r result : Record)
    → DistinctKeys (result ++ entries name value r)
    → mapped_record name value r result ≡ result ++ entries name value r
unfolding mapped_record
mapped_record-entries name value [] result d = sym (append-nil result)
mapped_record-entries name value ((k, v) ∷ r) result d =
    rw
      (put-fresh (name k) (value k v) result
        (lookup-before result (name k) (value k v) (entries name value r) d))
      (mapped_record-entries name value r (result ++ ((name k, value k v) ∷ []))
          (subst DistinctKeys (sym shifted) d)
        ∙ shifted)
  where
    shifted :
        (result ++ ((name k, value k v) ∷ [])) ++ entries name value r
        ≡ result ++ ((name k, value k v) ∷ entries name value r)
    shifted = append_assoc result ((name k, value k v) ∷ []) (entries name value r)

valid_models-fields :
    (models : Schema) (seen : Assoc String) (name : String) (m : ModelSchema)
    → valid_models models seen ≡ ok tt
    → lookup name models ≡ some m
    → distinct_fields m.fields [] ≡ true
unfolding valid_models lookup
valid_models-fields [] seen name m h e = absurd (cc e)
valid_models-fields ((logical, n) ∷ models) seen name m h e =
    let (a, h1) = refuse_if-ok _ _ _ tt h in
    let (b, h2) = refuse_if-ok _ _ _ tt h1 in
    let (c, h3) = refuse_if-ok _ _ _ tt h2 in
    elim (text_cases logical name) [
      | inl same ↦
          let n_is_m : n ≡ m = ground (arith, e, same, eq_iff logical name) in
          subst (λ (x : ModelSchema). distinct_fields x.fields [] ≡ true) n_is_m (ground (arith, b))
      | inr other ↦ valid_models-fields models _ name m h3 (ground (arith, e, other))
    ]

module _ (a : Mapping) (model : String) (m : ModelSchema) where
  -- an entry of a known field, whose value is read back as it was
  pub record Readable (k : String) (v : Value) : Type 0 where
    pub filled : k ≢ ""
    pub definition : FieldSchema
    pub known : lookup k m.fields ≡ some definition
    pub read_back : output_value a model k (input_value a model k v) ≡ v

  abbrev pub AllReadable : Record → Type 0
  AllReadable [] = Unit
  AllReadable ((k, v) ∷ r) = Readable k v × AllReadable r

  module _ (valid : validate_schema a.schema ≡ ok tt) (here : lookup model a.schema ≡ some m) where
    fields_here : fields_of_model a.schema model ≡ m.fields
    unfolding fields_of_model
    fields_here = rw here refl

    -- A stored field name is read back as the logical one.
    logical_field-stored_field :
        (k : String) (v : Value) → Readable k v → logical_field a model (stored_field a model k) ≡ k
    unfolding logical_field stored_field validate_schema
    logical_field-stored_field k v r =
        rw (fields_here, r.known)
          (logical_name-own m.fields [] k r.definition r.filled
            (valid_models-fields a.schema [] model m valid here) r.known)

    abbrev stored_entries : Record → Record
    stored_entries r = entries (stored_field a model) (input_value a model) r

    stored-lookup :
        (k : String) (v : Value) (r : Record)
        → Readable k v
        → AllReadable r
        → lookup k r ≡ none
        → lookup (stored_field a model k) (stored_entries r) ≡ none
    unfolding lookup
    stored-lookup k v [] known all h = refl
    stored-lookup k v ((j, w) ∷ r) known all h = elim (text_cases j k) [
      | inl same ↦ absurd (ground (arith, h, same, eq_iff j k))
      | inr other ↦ elim (text_cases (stored_field a model j) (stored_field a model k)) [
        | inl clash ↦
            let same : j ≡ k =
              sym (logical_field-stored_field j w all.0)
              ∙ ap (logical_field a model) clash
              ∙ logical_field-stored_field k v known in
            absurd (ground (arith, h, same, eq_iff j k))
        | inr apart ↦ rw apart (stored-lookup k v r known all.1 (ground (arith, h, other)))
      ]
    ]

    stored_entries-DistinctKeys :
        (r : Record) → AllReadable r → DistinctKeys r → DistinctKeys (stored_entries r)
    stored_entries-DistinctKeys [] all d = tt
    stored_entries-DistinctKeys ((k, v) ∷ r) all d =
        (stored-lookup k v r all.0 all.1 d.0, stored_entries-DistinctKeys r all.1 d.1)

    abbrev loaded_entries : Record → Record
    loaded_entries r =
        entries (logical_field a model)
          (λ stored. output_value a model (logical_field a model stored)) r

    loaded_entries-stored_entries :
        (r : Record) → AllReadable r → loaded_entries (stored_entries r) ≡ r
    loaded_entries-stored_entries [] all = refl
    loaded_entries-stored_entries ((k, v) ∷ r) all =
        let own = logical_field-stored_field k v all.0 in
        let rest = loaded_entries-stored_entries r all.1 in
        (λ i. (own i, output_value a model (own i) (input_value a model k v)) ∷ rest i)
        ∙ (λ i. (k, all.0.read_back i) ∷ r)

    -- Where validateSchema accepts the schema, outputRecord gives back the record that inputRecord was given, for a
    -- record of a known model with distinct keys, whose keys are known fields and not empty and whose values
    -- outputValue reads back as they were.
    pub output_record-input_record :
        (r : Record)
        → DistinctKeys r
        → AllReadable r
        → output_record a model (input_record a model r) ≡ r
    unfolding output_record input_record
    output_record-input_record r d all =
        rw
          (mapped_record-entries (stored_field a model) (input_value a model) r []
            (stored_entries-DistinctKeys r all d))
          (mapped_record-entries _ _ (stored_entries r) []
              (subst DistinctKeys (sym (loaded_entries-stored_entries r all)) d)
            ∙ loaded_entries-stored_entries r all)
