-- ===== src/Memory/Invariant.antt =====
-- Create, Update and UpdateMany of the adapter keep its tables well formed; the methods that only read keep any property.
use better_auth_go.Prelude.{
  ℕ, ◌+◌, String, ◌≡◌, refl, ap, ◌∙◌, ◌≢◌, inl, inr, ◌⊎◌, false, List, [], ◌∷◌, Option, none, some,
  lookup, put, ◌==◌, eq_iff, eq_refl, arith, lookup-put, text_cases, if_elim,
}
use better_auth_go.Prelude.Int.{ℤ}
use better_auth_go.Action.{Result, Action, pure, throw, ◌>>=◌}
use better_auth_go.Action.Preserves.{
  Preserves, throw-Preserves, reads-Preserves, proceed-Preserves, pure-Preserves, bind-Preserves,
  lift-Preserves, if-Preserves,
}
use better_auth_go.Value.{Value, Record, text, field}
use better_auth_go.Database.{
  Where, CreateQuery, FindOneQuery, FindManyQuery, CountQuery, UpdateQuery, validate_where,
}
use better_auth_go.Memory.Table.{
  Adapter, Table, Rows, table, ensure_model, as_text, id_field, unique_keys, conflicts, find_row,
  shares_key,
}
use better_auth_go.Memory.Methods.{
  insert_row, insert_ready, create, find_one, find_many, find_page, count, write, erase, update_row,
  update_first, update, update_rows, update_many, update_found,
}
use better_auth_go.Memory.WellFormed.{
  IsTable, WellFormed, put-IsTable, remove-IsTable, clashes-false, field-assign_id, find_row-some,
  table-put,
}

pub as_text-text : (v : Value) → (as_text v == "") ≡ false → v ≡ text (as_text v)
unfolding as_text
as_text-text (text s) h = refl
as_text-text v h = cc

module _ (a : Adapter) where
  conflicts-false :
      (m : String) (c : Record) (except : String) (rows : Rows) (j : String) (s : Record)
      → conflicts a rows m c except ≡ false
      → lookup j (table rows m) ≡ some s
      → j ≢ except
      → shares_key (unique_keys a m) s c ≡ false
  unfolding conflicts
  conflicts-false m c except rows j s h e d =
      clashes-false (unique_keys a m) c except (table rows m) j s h e d

  -- no row has the empty id, so a new record is compared with all of them
  fresh-shares_key :
      (q : CreateQuery) (rows : Rows)
      → WellFormed a rows
      → (j : String) (s : Record) → lookup j (table rows q.model) ≡ some s
      → conflicts a rows q.model q.row "" ≡ false
      → shares_key (unique_keys a q.model) s q.row ≡ false
  fresh-shares_key q rows v j s e h =
      conflicts-false q.model q.row "" rows j s h e
        λ empty. cc ((v.at q.model).named, e, ap (λ i. lookup i (table rows q.model)) empty)

  pub put-WellFormed :
      (m : String) (t : Table) (rows : Rows)
      → WellFormed a rows
      → IsTable (id_field a m) (unique_keys a m) t
      → WellFormed a (put m t rows)
  put-WellFormed m t rows v w = record { at = λ n. at_model n (text_cases m n) }
    where
      at_model :
          (n : String)
          → (m ≡ n) ⊎ ((m == n) ≡ false)
          → IsTable (id_field a n) (unique_keys a n) (table (put m t rows) n)
      at_model n (inl e) = rw (table-put m n t rows, ← e, eq_refl) w
      at_model n (inr e) = rw (table-put m n t rows, e) (v.at n)

  pub table-ensure_model :
      (m n : String) (rows : Rows) → table (ensure_model rows m) n ≡ table rows n
  unfolding table ensure_model
  table-ensure_model m n rows = ground (arith, lookup-put m n [] rows, eq_iff m n)

  ensure_model-WellFormed :
      (m : String) (rows : Rows) → WellFormed a rows → WellFormed a (ensure_model rows m)
  ensure_model-WellFormed m rows v = record { at = λ n. rw (table-ensure_model m n rows) (v.at n) }

  pub erase-WellFormed :
      (m id : String) (rows : Rows) → WellFormed a rows → WellFormed a (erase m id rows)
  unfolding erase
  erase-WellFormed m id rows v = put-WellFormed m _ rows v (remove-IsTable _ _ _ (v.at m) id)

  write-WellFormed :
      (m id : String) (r : Record) (rows : Rows)
      → field r (id_field a m) ≡ text id
      → id ≢ ""
      → ((j : String) (s : Record)
          → lookup j (table rows m) ≡ some s
          → j ≢ id
          → shares_key (unique_keys a m) s r ≡ false)
      → WellFormed a rows
      → WellFormed a (write m id r rows)
  unfolding write
  write-WellFormed m id r rows f n apart v =
      put-WellFormed m _ rows v (put-IsTable _ _ _ (v.at m) id r f n apart)

  insert_ready-WellFormed :
      (q : CreateQuery) (id : String) (rows : Rows)
      → field q.row (id_field a q.model) ≡ text id
      → id ≢ ""
      → WellFormed a rows
      → WellFormed a (insert_ready a q id rows).1
  unfolding insert_ready
  insert_ready-WellFormed q id rows f n v =
      if_elim (λ (x : Result Record × Rows). WellFormed a x.1) _ (λ _. v)
        λ free.
          write-WellFormed q.model id q.row rows f n
            (λ j s e _. fresh-shares_key q rows v j s e (ground arith)) v

  -- Create
  pub create-WellFormed : (q : CreateQuery) → Preserves (WellFormed a) (create a q)
  unfolding create insert_row throw
  create-WellFormed q = record {
    after = λ s v.
        if_elim (λ (m : Action Rows Record). WellFormed a (m s).1) _ (λ _. v)
          λ h.
            insert_ready-WellFormed q _ _ (as_text-text _ h)
              (λ e. ground (arith, eq_iff (as_text (field q.row (id_field a q.model))) ""))
              (ensure_model-WellFormed q.model s v);
  }

  pub update_row-WellFormed :
      (m : String) (update : Record) (id : String) (r : Record) (rows : Rows)
      → field r (id_field a m) ≡ text id
      → id ≢ ""
      → WellFormed a rows
      → WellFormed a (update_row a m update id r rows).1
  unfolding update_row
  update_row-WellFormed m update id r rows f n v =
      if_elim (λ (x : Result Record × Rows). WellFormed a x.1) _ (λ _. v)
        λ free.
          write-WellFormed m id _ rows (field-assign_id (id_field a m) update r ∙ f) n
            (λ j s e d. conflicts-false m _ id rows j s free e d) v

  -- the rows that a loop visits: each has its id in the id field, and the id is not empty
  abbrev AllKeyed : String → Table → Type 0
  AllKeyed m [] = Unit
  AllKeyed m ((id, r) ∷ t) = (field r (id_field a m) ≡ text id) × (id ≢ "") × AllKeyed m t

  IsTable-AllKeyed :
      (m : String) (t : Table) → IsTable (id_field a m) (unique_keys a m) t → AllKeyed m t
  unfolding lookup
  IsTable-AllKeyed m [] v = tt
  IsTable-AllKeyed m ((id, r) ∷ t) v = (
    v.keyed id r (ground (arith, eq_refl id)),
    (λ e. ground (arith, v.named, eq_iff id "")),
    IsTable-AllKeyed m t rest,
  )
    where
      later : (j : String) (s : Record) → lookup j t ≡ some s → lookup j ((id, r) ∷ t) ≡ some s
      later j s e = ground (arith, v.distinct, eq_iff id j)

      rest : IsTable (id_field a m) (unique_keys a m) t
      rest = record {
        distinct = v.distinct.1;
        keyed = λ j s e. v.keyed j s (later j s e);
        named = ground (arith, v.named);
        unique = λ i j p s ep es d. v.unique i j p s (later i p ep) (later j s es) d;
      }

  pub found_row :
      (m : String) (ws : List Where) (rows : Rows) (id : String) (r : Record)
      → WellFormed a rows
      → find_row a.printer ws (table rows m) ≡ some (id, r)
      → (field r (id_field a m) ≡ text id) × (id ≢ "")
  found_row m ws rows id r v h =
      let here = (find_row-some a.printer ws (table rows m) id r (v.at m).distinct h).0 in
      (
        (v.at m).keyed id r here,
        λ e. cc ((v.at m).named, here, ap (λ i. lookup i (table rows m)) e),
      )

  update_found-WellFormed :
      (q : UpdateQuery) (ws : List Where) (s : Rows) (o : Option (String × Record))
      → find_row a.printer ws (table s q.model) ≡ o
      → WellFormed a s
      → WellFormed a (update_found a q o s).1
  unfolding update_found pure ◌>>=◌
  update_found-WellFormed q ws s none e v = v
  update_found-WellFormed q ws s (some (id, r)) e v =
      let (f, n) = found_row q.model ws s id r v e in
      proceed-Preserves {P = WellFormed a} (update_row a q.model q.update id r s).0
        (λ u. pure (some u)) _ (update_row-WellFormed q.model q.update id r s f n v)
        (λ u. pure-Preserves (some u))

  update_first-WellFormed :
      (q : UpdateQuery) (ws : List Where) → Preserves (WellFormed a) (update_first a q ws)
  unfolding update_first
  update_first-WellFormed q ws = record { after = λ s v. update_found-WellFormed q ws s _ refl v }

  -- Update
  pub update-WellFormed : (q : UpdateQuery) → Preserves (WellFormed a) (update a q)
  unfolding update
  update-WellFormed q = bind-Preserves _ _ (lift-Preserves _) (λ ws. update_first-WellFormed q ws)

  update_rows-WellFormed :
      (q : UpdateQuery) (ws : List Where) (n : ℕ) (t : Table)
      → AllKeyed q.model t
      → Preserves (WellFormed a) (update_rows a q ws n t)
  unfolding update_rows
  update_rows-WellFormed q ws n [] k = pure-Preserves n
  update_rows-WellFormed q ws n ((id, r) ∷ t) (f, ne, k) =
      if-Preserves _ _ _
        (bind-Preserves _ _
          (record { after = λ s v. update_row-WellFormed q.model q.update id r s f ne v })
          (λ u. update_rows-WellFormed q ws (n + 1) t k))
        (update_rows-WellFormed q ws n t k)

  -- UpdateMany
  pub update_many-WellFormed : (q : UpdateQuery) → Preserves (WellFormed a) (update_many a q)
  unfolding update_many
  update_many-WellFormed q = record {
    after = λ s v.
        (bind-Preserves _ _ (lift-Preserves (validate_where q.predicate false)) λ ws.
            update_rows-WellFormed q ws 0 (table s q.model)
              (IsTable-AllKeyed q.model _ (v.at q.model))).after
          s v;
  }

  -- FindOne, FindMany and Count only read, so they keep whatever holds of the rows.
  module _ {P : Rows → Type 0} where
    pub find_one-Preserves : (q : FindOneQuery) → Preserves P (find_one a q)
    unfolding find_one
    find_one-Preserves q =
        if-Preserves _ _ _ (throw-Preserves _)
          (bind-Preserves _ _ (lift-Preserves _) (λ ws. reads-Preserves _))

    find_page-Preserves :
        (q : FindManyQuery) (limit : ℤ) (ws : List Where) → Preserves P (find_page a q limit ws)
    unfolding find_page
    find_page-Preserves q limit ws = if-Preserves _ _ _ (throw-Preserves _) (reads-Preserves _)

    pub find_many-Preserves : (q : FindManyQuery) → Preserves P (find_many a q)
    unfolding find_many
    find_many-Preserves q =
        if-Preserves _ _ _ (throw-Preserves _)
          (bind-Preserves _ _ (lift-Preserves _) (λ ws. find_page-Preserves q _ ws))

    pub count-Preserves : (q : CountQuery) → Preserves P (count a q)
    unfolding count
    count-Preserves q = bind-Preserves _ _ (find_many-Preserves _) (λ rows. pure-Preserves _)
