-- ===== src/Memory/Effects.antt =====
-- What a successful call of a method that touches one row has found and written.
use better_auth_go.Prelude.{
  String, ◌≡◌, refl, sym, ap, ◌∙◌, ◌≢◌, inl, inr, ◌⊎◌, Bool, true, false, List, [], ◌∷◌, Option,
  none, some, lookup, ◌==◌, eq_iff, eq_refl, arith, if◌then◌else◌, DistinctKeys, Bool-cases,
  Option-cases, text_cases, lookup-put, lookup-remove,
}
use better_auth_go.Action.{Error, conflict, Result, ok, err, pure, lift, ◌>>=◌}
use better_auth_go.Action.Inversion.{>>=-ok, >>=-run, unless-ok}
use better_auth_go.Value.{Record, field}
use better_auth_go.Database.{Where, CreateQuery, UpdateQuery, DeleteQuery, validate_where}
use better_auth_go.Memory.Match.{Printer, matches, project}
use better_auth_go.Memory.Table.{
  Adapter, Table, Rows, table, ensure_model, as_text, id_field, find_row, assign,
}
use better_auth_go.Memory.Methods.{
  write, erase, insert_ready, insert_row, create, update_row, update_found, update_first, update,
  consume_found, consume_first, consume_one,
}
use better_auth_go.Memory.WellFormed.{find_row-none, find_row-some, table-put}
use better_auth_go.Memory.Invariant.{table-ensure_model, as_text-text}

-- a row of a table that a predicate selects
pub record Selected (p : Printer) (ws : List Where) (t : Table) (id : String) (r : Record)
    : Type 0 where
  pub here : lookup id t ≡ some r
  pub hit : matches p r ws ≡ true

-- No row of the table is selected.
abbrev pub NoneSelected : Printer → List Where → Table → Type 0
NoneSelected p ws t = (id : String) (r : Record) → lookup id t ≡ some r → matches p r ws ≡ false

pub find_row-NoneSelected :
    (p : Printer) (ws : List Where) (t : Table)
    → DistinctKeys t
    → NoneSelected p ws t
    → find_row p ws t ≡ none
unfolding find_row lookup
find_row-NoneSelected p ws [] d h = refl
find_row-NoneSelected p ws ((id, r) ∷ t) d h =
    rw (h id r (rw eq_refl)) (find_row-NoneSelected p ws t d.1 later)
  where
    later : NoneSelected p ws t
    later j s e = h j s (ground (arith, eq_iff id j, d.0))

pub table-write :
    (m n id : String) (r : Record) (rows : Rows) (j : String)
    → lookup j (table (write m id r rows) n) ≡ (
        if m == n
        then (if id == j then some r else lookup j (table rows m))
        else lookup j (table rows n))
unfolding write
table-write m n id r rows j = ground (
  arith,
  table-put m n (better_auth_go.Prelude.put id r (table rows m)) rows,
  lookup-put id j r (table rows m),
)

pub table-erase :
    (m n id : String) (rows : Rows) (j : String)
    → lookup j (table (erase m id rows) n) ≡ (
        if m == n
        then (if id == j then none else lookup j (table rows m))
        else lookup j (table rows n))
unfolding erase
table-erase m n id rows j = ground (
  arith,
  table-put m n (better_auth_go.Prelude.remove id (table rows m)) rows,
  lookup-remove id j (table rows m),
)

module _ (a : Adapter) where
  -- an update that returned a row: the row that it selected, and the write of its new contents
  pub record Updated (m : String) (ws : List Where) (columns : Record) (rows : Rows) (u : Record)
      (after : Rows) : Type 0 where
    pub id : String
    pub old : Record
    pub selected : Selected a.printer ws (table rows m) id old
    pub new_row : u ≡ assign (id_field a m) columns old
    pub written : after ≡ write m id u rows

  pub update_row-ok :
      (m : String) (columns : Record) (id : String) (r : Record) (rows after : Rows) (u : Record)
      → update_row a m columns id r rows ≡ (ok u, after)
      → (u ≡ assign (id_field a m) columns r) × (after ≡ write m id u rows)
  unfolding update_row
  update_row-ok m columns id r rows after u h = ground arith

  update_found-Updated :
      (q : UpdateQuery) (ws : List Where) (rows after : Rows) (u : Record)
      (o : Option (String × Record))
      → DistinctKeys (table rows q.model)
      → find_row a.printer ws (table rows q.model) ≡ o
      → update_found a q o rows ≡ (ok (some u), after)
      → Updated q.model ws q.update rows u after
  unfolding update_found pure
  update_found-Updated q ws rows after u none d e h = ground arith
  update_found-Updated q ws rows after u (some (id, r)) d e h =
      let (here, hit) = find_row-some a.printer ws (table rows q.model) id r d e in
      let (v, t, ran, last) = >>=-ok (update_row a q.model q.update id r) _ rows after (some u) h in
      let (new, written) = update_row-ok q.model q.update id r rows after u (ground arith) in
      record {
        id = id;
        old = r;
        selected = record { here = here; hit = hit };
        new_row = new;
        written = written;
      }

  pub update-run :
      (q : UpdateQuery) (rows : Rows)
      → validate_where q.predicate false ≡ ok q.predicate
      → update a q rows
        ≡ update_found a q (find_row a.printer q.predicate (table rows q.model)) rows
  unfolding update update_first lift
  update-run q rows valid = >>=-run _ _ rows rows q.predicate (λ i. (valid i, rows))

  -- On a table with distinct ids, where the predicate is already as ValidateWhere returns it, an Update that
  -- returns a row has selected a row, assigned the columns to it, and stored it in its place.
  pub update-Updated :
      (q : UpdateQuery) (rows after : Rows) (u : Record)
      → validate_where q.predicate false ≡ ok q.predicate
      → DistinctKeys (table rows q.model)
      → update a q rows ≡ (ok (some u), after)
      → Updated q.model q.predicate q.update rows u after
  update-Updated q rows after u valid d h =
      update_found-Updated q q.predicate rows after u _ d refl (sym (update-run q rows valid) ∙ h)

  update_found-error :
      (q : UpdateQuery) (rows : Rows) (o : Option (String × Record)) (e : Error)
      → (update_found a q o rows).0 ≡ err e
      → e ≡ conflict
  unfolding update_found pure ◌>>=◌ update_row
  update_found-error q rows none e h = ground arith
  update_found-error q rows (some (id, r)) e h = ground arith

  -- A checked update fails by a conflict only.
  pub update-error :
      (q : UpdateQuery) (rows : Rows) (e : Error)
      → validate_where q.predicate false ≡ ok q.predicate
      → (update a q rows).0 ≡ err e
      → e ≡ conflict
  update-error q rows e valid h =
      update_found-error q rows _ e
        (sym (ap (λ (x : Result (Option Record) × Rows). x.0) (update-run q rows valid)) ∙ h)

  update_found-none :
      (q : UpdateQuery) (rows after : Rows) (o : Option (String × Record))
      → update_found a q o rows ≡ (ok none, after)
      → (o ≡ none) × (after ≡ rows)
  unfolding update_found pure
  update_found-none q rows after none h = (refl, ground arith)
  update_found-none q rows after (some (id, r)) h =
      let (v, t, ran, last) = >>=-ok (update_row a q.model q.update id r) _ rows after none h in
      absurd (ground arith)

  -- One that returns no row has selected none, and has written nothing.
  pub update-none :
      (q : UpdateQuery) (rows after : Rows)
      → validate_where q.predicate false ≡ ok q.predicate
      → update a q rows ≡ (ok none, after)
      → NoneSelected a.printer q.predicate (table rows q.model) × (after ≡ rows)
  update-none q rows after valid h =
      let (missing, same) = update_found-none q rows after _ (sym (update-run q rows valid) ∙ h) in
      ((λ id r e. find_row-none a.printer q.predicate (table rows q.model) id r missing e), same)

  -- Where no row is selected, it returns none.
  pub update-NoneSelected :
      (q : UpdateQuery) (rows : Rows)
      → validate_where q.predicate false ≡ ok q.predicate
      → DistinctKeys (table rows q.model)
      → NoneSelected a.printer q.predicate (table rows q.model)
      → update a q rows ≡ (ok none, rows)
  unfolding update_found pure
  update-NoneSelected q rows valid d h =
      update-run q rows valid
      ∙ rw (find_row-NoneSelected a.printer q.predicate (table rows q.model) d h) refl

  -- a row that was consumed: it was selected, and it is gone
  pub record Consumed (m : String) (ws : List Where) (rows : Rows) (r : Record) (after : Rows)
      : Type 0 where
    pub id : String
    pub selected : Selected a.printer ws (table rows m) id r
    pub erased : after ≡ erase m id rows

  consume-run :
      (q : DeleteQuery) (ws : List Where) (rows : Rows)
      → validate_where q.predicate false ≡ ok ws
      → consume_one a q rows ≡ consume_found q (find_row a.printer ws (table rows q.model)) rows
  unfolding consume_one consume_first lift
  consume-run q ws rows valid = >>=-run _ _ rows rows ws (λ i. (valid i, rows))

  consume_found-Consumed :
      (q : DeleteQuery) (ws : List Where) (rows after : Rows) (r : Record)
      (o : Option (String × Record))
      → DistinctKeys (table rows q.model)
      → find_row a.printer ws (table rows q.model) ≡ o
      → consume_found q o rows ≡ (ok (some r), after)
      → Consumed q.model ws rows r after
  unfolding consume_found
  consume_found-Consumed q ws rows after r none d e h = ground arith
  consume_found-Consumed q ws rows after r (some (id, s)) d e h =
      let (here, hit) = find_row-some a.printer ws (table rows q.model) id s d e in
      record {
        id = id;
        selected = record { here = ground arith; hit = ground arith };
        erased = ground arith;
      }

  -- On a table with distinct ids, a ConsumeOne that returns a row has selected that row by the predicate that
  -- ValidateWhere returned, and has deleted it and nothing else.
  pub consume-Consumed :
      (q : DeleteQuery) (ws : List Where) (rows after : Rows) (r : Record)
      → validate_where q.predicate false ≡ ok ws
      → DistinctKeys (table rows q.model)
      → consume_one a q rows ≡ (ok (some r), after)
      → Consumed q.model ws rows r after
  consume-Consumed q ws rows after r valid d h =
      consume_found-Consumed q ws rows after r _ d refl (sym (consume-run q ws rows valid) ∙ h)

  pub consume-NoneSelected :
      (q : DeleteQuery) (ws : List Where) (rows : Rows)
      → validate_where q.predicate false ≡ ok ws
      → DistinctKeys (table rows q.model)
      → NoneSelected a.printer ws (table rows q.model)
      → consume_one a q rows ≡ (ok none, rows)
  unfolding consume_found
  consume-NoneSelected q ws rows valid d h =
      consume-run q ws rows valid
      ∙ rw (find_row-NoneSelected a.printer ws (table rows q.model) d h) refl

  -- a row that was created: its id is new, and the rows hold it
  pub record Created (q : CreateQuery) (rows : Rows) (after : Rows) : Type 0 where
    pub id : String
    pub named : field q.row (id_field a q.model) ≡ better_auth_go.Value.text id
    pub fresh : lookup id (table rows q.model) ≡ none
    pub written : after ≡ write q.model id q.row (ensure_model rows q.model)

  insert_ready-ok :
      (q : CreateQuery) (id : String) (rows after : Rows) (r : Record)
      → insert_ready a q id rows ≡ (ok r, after)
      → (lookup id (table rows q.model) ≡ none)
        × (after ≡ write q.model id q.row rows)
        × (r ≡ project q.row q.select)
  unfolding insert_ready
  insert_ready-ok q id rows after r h = ground arith

  -- A Create that succeeds has stored its row under the id in it, which was free, and returns the selected columns
  -- of the row.
  pub create-Created :
      (q : CreateQuery) (rows after : Rows) (r : Record)
      → create a q rows ≡ (ok r, after)
      → Created q rows after × (r ≡ project q.row q.select)
  unfolding create insert_row
  create-Created q rows after r h =
      let (named, ran) = unless-ok _ _ _ r rows after h in
      let (fresh, written, shown) = insert_ready-ok q _ (ensure_model rows q.model) after r ran in
      (
        record {
          id = as_text (field q.row (id_field a q.model));
          named = as_text-text _ named;
          fresh = rw (table-ensure_model a q.model q.model rows) at fresh;
          written = written;
        },
        shown,
      )
