-- ===== src/Memory/WellFormed.antt =====
-- The invariant of the adapter's tables, and what the parts of the methods do to it.
use better_auth_go.Prelude.{
  String, ◌≡◌, refl, sym, ◌∙◌, ◌≢◌, inl, inr, true, false, List, [], ◌∷◌, none, some, lookup, put,
  remove, ◌==◌, eq_iff, arith, if◌then◌else◌, lookup-put, lookup-remove, DistinctKeys, ◌⊎◌,
  put-DistinctKeys, remove-DistinctKeys, Bool-cases, text_cases,
}
use better_auth_go.Value.{Value, Record, text, field}
use better_auth_go.Value.Equality.{deep_equal_symm}
use better_auth_go.Database.{Where}
use better_auth_go.Memory.Match.{Printer, matches}
use better_auth_go.Memory.Table.{
  Adapter, Table, Rows, table, same_unique_key, shares_key, clashes, find_row, assign, id_field,
  unique_keys,
}

-- A table with the id field `id_name` and the unique keys `keys`: every id stands once and is the
-- one in its record, none is empty, and records with different ids share no unique key.
pub record IsTable (id_name : String) (keys : List (List String)) (t : Table) : Type 0 where
  pub distinct : DistinctKeys t
  pub keyed : (id : String) (r : Record) → lookup id t ≡ some r → field r id_name ≡ text id
  pub named : lookup "" t ≡ none
  pub unique :
      (i j : String) (r s : Record)
      → lookup i t ≡ some r
      → lookup j t ≡ some s
      → i ≢ j
      → shares_key keys r s ≡ false

pub record WellFormed (a : Adapter) (rows : Rows) : Type 0 where
  pub at : (m : String) → IsTable (id_field a m) (unique_keys a m) (table rows m)

same_unique_key_symm :
    (l r : Record) (fs : List String) → same_unique_key l r fs ≡ same_unique_key r l fs
unfolding same_unique_key
same_unique_key_symm l r [] = refl
same_unique_key_symm l r (f ∷ fs) =
    ground (arith, deep_equal_symm (field l f) (field r f), same_unique_key_symm l r fs)

shares_key_symm :
    (keys : List (List String)) (l r : Record) → shares_key keys l r ≡ shares_key keys r l
unfolding shares_key
shares_key_symm [] l r = refl
shares_key_symm (k ∷ ks) l r = ground (arith, same_unique_key_symm l r k, shares_key_symm ks l r)

-- a candidate that `conflicts` lets through shares no key with a row of another id
pub clashes-false :
    (keys : List (List String)) (c : Record) (except : String) (t : Table) (i : String) (r : Record)
    → clashes keys c except t ≡ false
    → lookup i t ≡ some r
    → i ≢ except
    → shares_key keys r c ≡ false
unfolding clashes lookup
clashes-false keys c except [] i r h e n = cc
clashes-false keys c except ((j, s) ∷ t) i r h e n =
    ground (arith, eq_iff j i, eq_iff j except, clashes-false keys c except t i r)

-- A row of a table after a write: the written one, or another that was there.
lookup-put_cases :
    (id j : String) (r s : Record) (t : Table)
    → lookup j (put id r t) ≡ some s
    → ((id ≡ j) × (r ≡ s)) ⊎ ((j ≢ id) × (lookup j t ≡ some s))
lookup-put_cases id j r s t e = elim (text_cases id j) [
  | inl same ↦ inl (same, ground (arith, lookup-put id j r t, eq_iff id j))
  | inr other ↦ inr (ground (arith, eq_iff id j), ground (arith, lookup-put id j r t))
]

module _ (id_name : String) (keys : List (List String)) (t : Table)
    (v : IsTable id_name keys t) where
  pub put-IsTable :
      (id : String) (r : Record)
      → field r id_name ≡ text id
      → id ≢ ""
      → ((j : String) (s : Record) → lookup j t ≡ some s → j ≢ id → shares_key keys s r ≡ false)
      → IsTable id_name keys (put id r t)
  put-IsTable id r f n apart = record {
    distinct = put-DistinctKeys id r t v.distinct;
    keyed = λ j s e. keyed_at j s (lookup-put_cases id j r s t e);
    named = ground (arith, lookup-put id "" r t, v.named, eq_iff id "");
    unique = λ i j p s ep es d.
        unique_at i j p s d (lookup-put_cases id i r p t ep) (lookup-put_cases id j r s t es);
  }
    where
      keyed_at :
          (j : String) (s : Record)
          → ((id ≡ j) × (r ≡ s)) ⊎ ((j ≢ id) × (lookup j t ≡ some s))
          → field s id_name ≡ text j
      keyed_at j s (inl (e, g)) = rw (← e, ← g) f
      keyed_at j s (inr (_, e)) = v.keyed j s e

      unique_at :
          (i j : String) (p s : Record)
          → i ≢ j
          → ((id ≡ i) × (r ≡ p)) ⊎ ((i ≢ id) × (lookup i t ≡ some p))
          → ((id ≡ j) × (r ≡ s)) ⊎ ((j ≢ id) × (lookup j t ≡ some s))
          → shares_key keys p s ≡ false
      unique_at i j p s d (inl (e, g)) (inl (e', g')) = absurd (d (sym e ∙ e'))
      unique_at i j p s d (inl (e, g)) (inr (n', e')) =
          rw (← g, shares_key_symm keys r s) (apart j s e' n')
      unique_at i j p s d (inr (n', e')) (inl (e, g)) = rw (← g) (apart i p e' n')
      unique_at i j p s d (inr (_, e)) (inr (_, e')) = v.unique i j p s e e' d

  pub remove-IsTable : (id : String) → IsTable id_name keys (remove id t)
  remove-IsTable id = record {
    distinct = remove-DistinctKeys id t v.distinct;
    keyed = λ j s e. v.keyed j s (ground (arith, lookup-remove id j t));
    named = ground (arith, lookup-remove id "" t, v.named);
    unique = λ i j p s ep es d.
        v.unique i j p s (ground (arith, lookup-remove id i t))
          (ground (arith, lookup-remove id j t)) d;
  }

pub field-put :
    (f g : String) (v : Value) (r : Record)
    → field (put f v r) g ≡ (if f == g then v else field r g)
unfolding field
field-put f g v r = ground (arith, lookup-put f g v r)

-- an update never changes the id field
pub field-assign_id :
    (id_name : String) (update r : Record)
    → field (assign id_name update r) id_name ≡ field r id_name
unfolding assign
field-assign_id id_name [] r = refl
field-assign_id id_name ((f, v) ∷ update) r = elim (Bool-cases (f == id_name)) [
  | inl e ↦ rw e (field-assign_id id_name update r)
  | inr e ↦ rw e (field-assign_id id_name update (put f v r) ∙ (rw field-put (rw e)))
]

pub find_row-some :
    (p : Printer) (ws : List Where) (t : Table) (id : String) (r : Record)
    → DistinctKeys t
    → find_row p ws t ≡ some (id, r)
    → (lookup id t ≡ some r) × (matches p r ws ≡ true)
unfolding find_row lookup
find_row-some p ws [] id r d h = cc
find_row-some p ws ((j, s) ∷ t) id r d h = ground (arith, eq_iff j id, find_row-some p ws t id r)

pub find_row-none :
    (p : Printer) (ws : List Where) (t : Table) (id : String) (r : Record)
    → find_row p ws t ≡ none
    → lookup id t ≡ some r
    → matches p r ws ≡ false
unfolding find_row lookup
find_row-none p ws [] id r h e = cc
find_row-none p ws ((j, s) ∷ t) id r h e = ground (arith, find_row-none p ws t id r)

pub table-put :
    (m n : String) (t : Table) (rows : Rows)
    → table (put m t rows) n ≡ (if m == n then t else table rows n)
unfolding table
table-put m n t rows = rw lookup-put (ground (arith, eq_iff m n))
