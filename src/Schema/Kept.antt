-- ===== src/Schema/Kept.antt =====
-- MergeSchema: a plugin adds to the schema of the server, and weakens nothing of it.
use better_auth_go.Prelude.Append.{append_assoc, append-nil}
use better_auth_go.Prelude.{
  String, subst, Bool, true, false, ◌≡◌, refl, sym, ap, ◌∙◌, List, [], ◌∷◌, ◌++◌, some, Assoc,
  lookup, put, lookup-put, Bool-cases, text_cases, inl, inr, ◌⊎◌, eq_iff, arith, ◌==◌,
  if◌then◌else◌,
}
use better_auth_go.Action.{Error, Result, ok, err}
use better_auth_go.Action.Checks.{>>=_ok, ok_injective}
use better_auth_go.Schema.{FieldSchema, IndexSchema, ModelSchema, Schema}
use better_auth_go.Schema.Merge.{
  contains_index, renamed_field, merged_field, merge_fields, merge_indexes, merged_name,
  merged_model, merge_extension, merge_schema,
}

-- the same field, perhaps under another stored name
pub record Renamed (old new : FieldSchema) : Type 0 where
  pub same : record old { field_name = new.field_name } ≡ new

abbrev pub KeepsFields : Assoc FieldSchema → Assoc FieldSchema → Type 0
KeepsFields old new =
    (name : String) (f : FieldSchema)
    → lookup name old ≡ some f
    → (g : FieldSchema) × (lookup name new ≡ some g) × Renamed f g

-- a model with all fields and indexes of another, and its stored name where it has one
pub record KeepsModel (old new : ModelSchema) : Type 0 where
  pub name : (old.model_name ≡ "") ⊎ (old.model_name ≡ new.model_name)
  pub fields : KeepsFields old.fields new.fields
  pub more_indexes : List IndexSchema
  pub indexes : new.indexes ≡ old.indexes ++ more_indexes

abbrev pub KeepsSchema : Schema → Schema → Type 0
KeepsSchema old new =
    (name : String) (m : ModelSchema)
    → lookup name old ≡ some m
    → (n : ModelSchema) × (lookup name new ≡ some n) × KeepsModel m n

Renamed-refl : (f : FieldSchema) → Renamed f f
Renamed-refl f = record { same = refl }

Renamed-trans : (f g h : FieldSchema) → Renamed f g → Renamed g h → Renamed f h
Renamed-trans f g h a b = record {
  same = (λ i. let k = a.same i in record k { field_name = h.field_name }) ∙ b.same;
}

chosen_name :
    (b : Bool) (f g : FieldSchema) (n : String)
    → (if b then f else record f { field_name = n }) ≡ g
    → Renamed f g
chosen_name true f g n h = subst (Renamed f) h (record { same = refl })
chosen_name false f g n h = subst (Renamed f) h (record { same = refl })

unless_err :
    {A : Type 0} (b : Bool) (e : Error) (r : Result A) (a : A)
    → (if b then err e else r) ≡ ok a
    → r ≡ ok a
unless_err true e r a h = absurd (cc h)
unless_err false e r a h = h

renamed_field-Renamed : (f d g : FieldSchema) → renamed_field f d ≡ ok g → Renamed f g
unfolding renamed_field
renamed_field-Renamed f d g h =
    chosen_name (d.field_name == "") f g d.field_name (ok_injective (unless_err _ _ _ g h))

KeepsFields-refl : (fs : Assoc FieldSchema) → KeepsFields fs fs
KeepsFields-refl fs name f h = (f, h, Renamed-refl f)

KeepsFields-trans :
    (a b c : Assoc FieldSchema) → KeepsFields a b → KeepsFields b c → KeepsFields a c
KeepsFields-trans a b c ab bc name f h =
    let (g, e, r) = ab name f h in
    let (k, e', r') = bc name g e in (k, e', Renamed-trans f g k r r')

put-KeepsFields :
    (fs : Assoc FieldSchema) (name : String) (d g : FieldSchema)
    → merged_field d (lookup name fs) ≡ ok g
    → KeepsFields fs (put name g fs)
unfolding merged_field
put-KeepsFields fs name d g h other f here = elim (text_cases name other) [
  | inl same ↦ (
    g,
    ground (arith, lookup-put name other g fs, eq_iff name other, same),
    renamed_field-Renamed f d g
        (ap (merged_field d) (sym here ∙ ap (λ x. lookup x fs) (sym same)) ∙ h),
  )
  | inr apart ↦ (f, ground (arith, lookup-put name other g fs, apart, here), Renamed-refl f)
]

merge_fields-KeepsFields :
    (current fields result : Assoc FieldSchema)
    → merge_fields current fields ≡ ok result
    → KeepsFields current result
unfolding merge_fields
merge_fields-KeepsFields current [] result h =
    subst (KeepsFields current) (ok_injective h) (KeepsFields-refl current)
merge_fields-KeepsFields current ((name, d) ∷ fields) result h =
    let (g, e, rest) = >>=_ok (merged_field d (lookup name current)) _ result h in
    KeepsFields-trans current (put name g current) result (put-KeepsFields current name d g e)
      (merge_fields-KeepsFields (put name g current) fields result rest)

merge_indexes-appends :
    (current is : List IndexSchema)
    → (more : List IndexSchema) × (merge_indexes current is ≡ current ++ more)
unfolding merge_indexes
merge_indexes-appends current [] = ([], sym (append-nil current))
merge_indexes-appends current (i ∷ is) = elim (Bool-cases (contains_index current i)) [
  | inl e ↦ rw e (merge_indexes-appends current is)
  | inr e ↦
      let (more, h) = merge_indexes-appends (current ++ (i ∷ [])) is in
      (i ∷ more, rw e (h ∙ append_assoc current (i ∷ []) more))
]

merged_name-kept :
    (old given new : String) → merged_name old given ≡ ok new → (old ≡ "") ⊎ (old ≡ new)
unfolding merged_name
merged_name-kept old given new h = ground (arith, h, eq_iff old "", eq_iff old given)

KeepsModel-refl : (m : ModelSchema) → KeepsModel m m
KeepsModel-refl m = record {
  name = inr refl;
  fields = KeepsFields-refl m.fields;
  more_indexes = [];
  indexes = sym (append-nil m.indexes);
}

KeepsModel-trans : (a b c : ModelSchema) → KeepsModel a b → KeepsModel b c → KeepsModel a c
KeepsModel-trans a b c ab bc = record {
  name = ground (arith, ab.name, bc.name);
  fields = KeepsFields-trans a.fields b.fields c.fields ab.fields bc.fields;
  more_indexes = ab.more_indexes ++ bc.more_indexes;
  indexes =
      bc.indexes
      ∙ ap (λ l. l ++ bc.more_indexes) ab.indexes
      ∙ append_assoc a.indexes ab.more_indexes bc.more_indexes;
}

merged_model-KeepsModel :
    (old m new : ModelSchema) → merged_model m (some old) ≡ ok new → KeepsModel old new
unfolding merged_model
merged_model-KeepsModel old m new h =
    let (name, named, h1) = >>=_ok (merged_name old.model_name m.model_name) _ new h in
    let (fields, merged, h2) = >>=_ok (merge_fields old.fields m.fields) _ new h1 in
    let (more, appended) = merge_indexes-appends old.indexes m.indexes in
    subst (KeepsModel old) (ok_injective h2) (record {
      name = merged_name-kept old.model_name m.model_name name named;
      fields = merge_fields-KeepsFields old.fields m.fields fields merged;
      more_indexes = more;
      indexes = appended;
    })

KeepsSchema-refl : (s : Schema) → KeepsSchema s s
KeepsSchema-refl s name m h = (m, h, KeepsModel-refl m)

KeepsSchema-trans : (a b c : Schema) → KeepsSchema a b → KeepsSchema b c → KeepsSchema a c
KeepsSchema-trans a b c ab bc name m h =
    let (n, e, k) = ab name m h in
    let (o, e', k') = bc name n e in (o, e', KeepsModel-trans m n o k k')

put-KeepsSchema :
    (s : Schema) (name : String) (m new : ModelSchema)
    → merged_model m (lookup name s) ≡ ok new
    → KeepsSchema s (put name new s)
put-KeepsSchema s name m new h other old here = elim (text_cases name other) [
  | inl same ↦ (
    new,
    ground (arith, lookup-put name other new s, eq_iff name other, same),
    merged_model-KeepsModel old m new
        (ap (merged_model m) (sym here ∙ ap (λ x. lookup x s) (sym same)) ∙ h),
  )
  | inr apart ↦ (old, ground (arith, lookup-put name other new s, apart, here), KeepsModel-refl old)
]

merge_extension-KeepsSchema :
    (s extension result : Schema) → merge_extension s extension ≡ ok result → KeepsSchema s result
unfolding merge_extension
merge_extension-KeepsSchema s [] result h =
    subst (KeepsSchema s) (ok_injective h) (KeepsSchema-refl s)
merge_extension-KeepsSchema s ((name, m) ∷ extension) result h =
    let (new, e, rest) = >>=_ok (merged_model m (lookup name s)) _ result h in
    KeepsSchema-trans s (put name new s) result (put-KeepsSchema s name m new e)
      (merge_extension-KeepsSchema (put name new s) extension result rest)

-- A schema that MergeSchema returns has every model of the base, with its ModelName where that was not empty,
-- with every field of it, changed in the stored name at most, and with every index of it, in front of those that
-- were added.
pub merge_schema-KeepsSchema :
    (base result : Schema) (extensions : List Schema)
    → merge_schema base extensions ≡ ok result
    → KeepsSchema base result
unfolding merge_schema
merge_schema-KeepsSchema base result [] h =
    subst (KeepsSchema base) (ok_injective h) (KeepsSchema-refl base)
merge_schema-KeepsSchema base result (extension ∷ extensions) h =
    let (next, e, rest) = >>=_ok (merge_extension base extension) _ result h in
    KeepsSchema-trans base next result (merge_extension-KeepsSchema base extension next e)
      (merge_schema-KeepsSchema next result extensions rest)
