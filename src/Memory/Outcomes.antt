-- ===== src/Memory/Outcomes.antt =====
-- Create and Update of adapter/memory/memory.go, in full: what they have stored, and what they have checked.
use better_auth_go.Prelude.{
  String, ◌≡◌, refl, sym, ap, ◌∙◌, ◌≢◌, inl, inr, true, false, ◌&&◌, List, [], ◌∷◌, Option, none,
  some, lookup, put, ◌==◌, eq_iff, arith, if◌then◌else◌, DistinctKeys, text_cases, lookup-put,
}
use better_auth_go.Action.{ok, pure}
use better_auth_go.Action.Inversion.{>>=-ok, unless-ok}
use better_auth_go.Value.{Record, text, field, is_nil}
use better_auth_go.Value.Equality.{deep_equal}
use better_auth_go.Database.{Where, CreateQuery, UpdateQuery, validate_where}
use better_auth_go.Memory.Match.{project}
use better_auth_go.Memory.Table.{
  Adapter, Rows, table, ensure_model, as_text, id_field, unique_keys, same_unique_key, shares_key,
  conflicts, assign, find_row,
}
use better_auth_go.Memory.Methods.{
  write, insert_ready, insert_row, create, update_row, update_found, update,
}
use better_auth_go.Memory.WellFormed.{clashes-false, find_row-some}
use better_auth_go.Memory.Effects.{Selected, create-Created, table-write, update-run}
use better_auth_go.Memory.Invariant.{table-ensure_model}

-- Both records have the field, with one value.
abbrev pub AgreeOn : Record → Record → List String → Type 0
AgreeOn l r [] = Unit {0}
AgreeOn l r (f ∷ fs) =
    (is_nil (field l f) ≡ false)
    × (is_nil (field r f) ≡ false)
    × (deep_equal (field l f) (field r f) ≡ true)
    × AgreeOn l r fs

-- There is none of the keys on whose fields the two records agree.
abbrev pub Apart : List (List String) → Record → Record → Type 0
Apart [] l r = Unit {0}
Apart (key ∷ keys) l r = (AgreeOn l r key → ⊥) × Apart keys l r

AgreeOn-same_unique_key :
    (l r : Record) (fs : List String) → AgreeOn l r fs → same_unique_key l r fs ≡ true
unfolding same_unique_key
AgreeOn-same_unique_key l r [] h = refl
AgreeOn-same_unique_key l r (f ∷ fs) (a, b, c, d) =
    ground (arith, a, b, c, AgreeOn-same_unique_key l r fs d)

shares_key-Apart :
    (keys : List (List String)) (l r : Record) → shares_key keys l r ≡ false → Apart keys l r
unfolding shares_key
shares_key-Apart [] l r h = tt
shares_key-Apart (k ∷ ks) l r h = (
  λ same. ground (arith, h, AgreeOn-same_unique_key l r k same),
  shares_key-Apart ks l r (ground (arith, h)),
)

-- the value of a column where it has one, and what was there otherwise
abbrev pub or_old {ℓ} : {A : Type ℓ} → Option A → Option A → Option A
or_old none old = old
or_old (some new) old = some new

lookup-assign_id :
    (id_name : String) (columns r : Record)
    → lookup id_name (assign id_name columns r) ≡ lookup id_name r
unfolding assign
lookup-assign_id id_name [] r = refl
lookup-assign_id id_name ((g, v) ∷ columns) r = elim (text_cases g id_name) [
  | inl own ↦ lookup-assign_id id_name columns _ ∙ ground (arith, own, eq_iff g id_name)
  | inr other ↦
      lookup-assign_id id_name columns _ ∙ rw other (lookup-put g id_name v r ∙ rw other refl)
]

lookup-assign :
    (id_name f : String) (columns r : Record)
    → DistinctKeys columns
    → f ≢ id_name
    → lookup f (assign id_name columns r) ≡ or_old (lookup f columns) (lookup f r)
unfolding assign lookup
lookup-assign id_name f [] r d n = refl
lookup-assign id_name f ((g, v) ∷ columns) r (gone, d) n = elim (text_cases g f) [
  | inl same ↦
      let next : (x : Record) → lookup f x ≡ some v → lookup f (assign id_name columns x) ≡ some v =
        λ x e.
          lookup-assign id_name f columns x d n
          ∙ (ap (λ o. or_old o (lookup f x)) (ap (λ k. lookup k columns) (sym same) ∙ gone))
          ∙ e in
      let foreign : (g == id_name) ≡ false = ground (arith, n, same, eq_iff g id_name) in
      let hit : (g == f) ≡ true = (eq_iff g f).1 same in
      rw (foreign, hit) (next (put g v r) (lookup-put g f v r ∙ rw hit refl))
  | inr apart ↦ elim (text_cases g id_name) [
    | inl own ↦ rw ((eq_iff g id_name).1 own, apart) (lookup-assign id_name f columns r d n)
    | inr other ↦
        rw (other, apart)
          (lookup-assign id_name f columns (put g v r) d n ∙ rw (lookup-put g f v r, apart) refl)
  ]
]

-- The rows of every table after one of them was written.
abbrev pub OnlyRow : String → String → Record → Rows → Rows → Type 0
OnlyRow m id r rows after =
    (n j : String)
    → lookup j (table after n) ≡ (if m == n && id == j then some r else lookup j (table rows n))

pub write-OnlyRow :
    (m id : String) (r : Record) (rows : Rows) → OnlyRow m id r rows (write m id r rows)
write-OnlyRow m id r rows n j = ground (arith, table-write m n id r rows j, eq_iff m n)

module _ (a : Adapter) where
  -- a row that was created: its id was free, it shares no unique key with a row of its table, and nothing else changed
  pub record Inserted (q : CreateQuery) (rows after : Rows) : Type 0 where
    pub id : String
    pub named : field q.row (id_field a q.model) ≡ text id
    pub nonempty : id ≢ ""
    pub fresh : lookup id (table rows q.model) ≡ none
    pub apart :
        (other : String) (s : Record)
        → other ≢ ""
        → lookup other (table rows q.model) ≡ some s
        → Apart (unique_keys a q.model) s q.row
    pub stored : OnlyRow q.model id q.row rows after

  insert_ready-checked :
      (q : CreateQuery) (id : String) (rows after : Rows) (r : Record)
      → insert_ready a q id rows ≡ (ok r, after)
      → conflicts a rows q.model q.row "" ≡ false
  unfolding insert_ready
  insert_ready-checked q id rows after r h = ground arith

  -- A Create that succeeds was given a row with an id that is not empty and was free, and that agrees with no
  -- other row of its model on a unique key (a row under an empty id is not compared); of all tables it has changed
  -- just the row under that id, to the given one, and it returns the selected columns of it.
  pub create-Inserted :
      (q : CreateQuery) (rows after : Rows) (r : Record)
      → create a q rows ≡ (ok r, after)
      → Inserted q rows after × (r ≡ project q.row q.select)
  unfolding create insert_row conflicts as_text
  create-Inserted q rows after r h =
      let (c, shown) = create-Created a q rows after r h in
      let (named, ran) =
        unless-ok (as_text (field q.row (id_field a q.model)) == "") _ _ r rows after h in
      let checked = insert_ready-checked q _ (ensure_model rows q.model) after r ran in
      (
        record {
          id = c.id;
          named = c.named;
          nonempty = λ e. ground (arith, rw c.named at named, e, eq_iff c.id "");
          fresh = c.fresh;
          apart = λ other s n e. shares_key-Apart (unique_keys a q.model) s q.row (
              clashes-false (unique_keys a q.model) q.row ""
                (table (ensure_model rows q.model) q.model) other s checked
                (rw (table-ensure_model a q.model q.model rows) e) n);
          stored = λ n j.
              ap (λ x. lookup j (table x n)) c.written
              ∙ write-OnlyRow q.model c.id q.row (ensure_model rows q.model) n j
              ∙ rw (table-ensure_model a q.model n rows) refl;
        },
        shown,
      )

  -- Create, where its checks hold.
  pub create-run :
      (q : CreateQuery) (id : String) (rows : Rows)
      → field q.row (id_field a q.model) ≡ text id
      → id ≢ ""
      → lookup id (table rows q.model) ≡ none
      → conflicts a rows q.model q.row "" ≡ false
      → create a q rows
        ≡ (ok (project q.row q.select), write q.model id q.row (ensure_model rows q.model))
  unfolding create insert_row insert_ready conflicts as_text
  create-run q id rows named filled fresh free =
      let written : (id == "") ≡ false = ground (arith, filled, eq_iff id "") in
      rw (named, written, table-ensure_model a q.model q.model rows, fresh, free) refl

  -- a row that was updated: it was selected, its columns but the id are the given ones where there are, it shares no
  -- unique key with another row, and nothing else changed
  pub record Changed (m : String) (ws : List Where) (columns : Record) (rows : Rows) (u : Record)
      (after : Rows) : Type 0 where
    pub id : String
    pub old : Record
    pub selected : Selected a.printer ws (table rows m) id old
    pub kept_id : lookup (id_field a m) u ≡ lookup (id_field a m) old
    pub assigned :
        (f : String) → f ≢ id_field a m → lookup f u ≡ or_old (lookup f columns) (lookup f old)
    pub apart :
        (other : String) (s : Record)
        → other ≢ id
        → lookup other (table rows m) ≡ some s
        → Apart (unique_keys a m) s u
    pub stored : OnlyRow m id u rows after

  update_row-checked :
      (m : String) (columns : Record) (id : String) (r : Record) (rows after : Rows) (u : Record)
      → update_row a m columns id r rows ≡ (ok u, after)
      → (u ≡ assign (id_field a m) columns r)
        × (conflicts a rows m u id ≡ false)
        × (after ≡ write m id u rows)
  unfolding update_row
  update_row-checked m columns id r rows after u h = ground arith

  update_found-Changed :
      (q : UpdateQuery) (rows after : Rows) (u : Record) (o : Option (String × Record))
      → DistinctKeys (table rows q.model)
      → DistinctKeys q.update
      → find_row a.printer q.predicate (table rows q.model) ≡ o
      → update_found a q o rows ≡ (ok (some u), after)
      → Changed q.model q.predicate q.update rows u after
  unfolding update_found pure conflicts
  update_found-Changed q rows after u none d cols e h = ground arith
  update_found-Changed q rows after u (some (id, r)) d cols e h =
      let (here, hit) = find_row-some a.printer q.predicate (table rows q.model) id r d e in
      let (v, t, ran, last) = >>=-ok (update_row a q.model q.update id r) _ rows after (some u) h in
      let (new, checked, written) =
        update_row-checked q.model q.update id r rows after u (ground arith) in
      record {
        id = id;
        old = r;
        selected = record { here = here; hit = hit };
        kept_id = rw new (lookup-assign_id (id_field a q.model) q.update r);
        assigned = λ f n. rw new (lookup-assign (id_field a q.model) f q.update r cols n);
        apart = λ other s n e.
            shares_key-Apart (unique_keys a q.model) s u
              (clashes-false (unique_keys a q.model) u id (table rows q.model) other s checked e n);
        stored =
            λ n j. ap (λ x. lookup j (table x n)) written ∙ write-OnlyRow q.model id u rows n j;
      }

  -- On a table with distinct ids, where the predicate is already as ValidateWhere returns it and no column stands
  -- twice, an Update that returns a row has selected a row; the returned one has its id column, and in every other
  -- column the given value, or the old one where none was given; on no unique key of the model does it agree with
  -- another row; and of all tables just that row has changed, to the returned one.
  pub update-Changed :
      (q : UpdateQuery) (rows after : Rows) (u : Record)
      → validate_where q.predicate false ≡ ok q.predicate
      → DistinctKeys (table rows q.model)
      → DistinctKeys q.update
      → update a q rows ≡ (ok (some u), after)
      → Changed q.model q.predicate q.update rows u after
  update-Changed q rows after u valid d cols h =
      update_found-Changed q rows after u _ d cols refl (sym (update-run a q rows valid) ∙ h)
