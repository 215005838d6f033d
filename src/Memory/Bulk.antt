-- ===== src/Memory/Bulk.antt =====
-- UpdateMany and DeleteMany, as functions of the rows before the call.
use better_auth_go.Prelude.{
  ℕ, ◌+◌, String, ◌≡◌, refl, sym, ap, ◌∙◌, inl, inr, false, [], ◌∷◌, Option, none, some, lookup,
  ◌==◌, eq_iff, eq_refl, arith, if◌then◌else◌, DistinctKeys, Bool-cases, Option-cases, text_cases,
}
use better_auth_go.Action.{ok, lift}
use better_auth_go.Action.Inversion.{>>=-ok, >>=-run, pure-ok}
use better_auth_go.Value.{Record}
use better_auth_go.Database.{UpdateQuery, DeleteQuery, validate_where}
use better_auth_go.Memory.Match.{matches}
use better_auth_go.Memory.Table.{Adapter, Table, Rows, table, id_field, assign}
use better_auth_go.Memory.Methods.{
  write, erase, update_row, update_rows, update_many, delete_rows, delete_many,
}
use better_auth_go.Memory.Effects.{table-write, table-erase, update_row-ok}

module _ (a : Adapter) where
  -- what UpdateMany makes of a row
  abbrev pub updated_by : UpdateQuery → Record → Record
  updated_by q r =
      if matches a.printer r q.predicate then assign (id_field a q.model) q.update r else r

  abbrev pub updated_row : UpdateQuery → Option Record → Option Record
  updated_row q none = none
  updated_row q (some r) = some (updated_by q r)

  -- the rows after the loop has visited `t`
  abbrev merged : UpdateQuery → Table → Rows → String → Option Record
  merged q t rows j = elim (lookup j t) [
    | none ↦ lookup j (table rows q.model)
    | some r ↦ updated_row q (some r)
  ]

  -- the part of the table that the loop has still to visit is as it was
  abbrev Unvisited : String → Table → Rows → Type 0
  Unvisited m t rows =
      (j : String) (r : Record) → lookup j t ≡ some r → lookup j (table rows m) ≡ some r

  Unvisited-tail :
      (m id : String) (r : Record) (t : Table) (rows : Rows)
      → DistinctKeys ((id, r) ∷ t)
      → Unvisited m ((id, r) ∷ t) rows
      → Unvisited m t rows
  unfolding lookup
  Unvisited-tail m id r t rows d u j s e = u j s (ground (arith, eq_iff id j, d.0))

  Unvisited-write :
      (m id : String) (r v : Record) (t : Table) (rows : Rows)
      → DistinctKeys ((id, r) ∷ t)
      → Unvisited m ((id, r) ∷ t) rows
      → Unvisited m t (write m id v rows)
  unfolding lookup
  Unvisited-write m id r v t rows d u j s e =
      ground (arith, eq_iff id j, eq_refl m, d.0, u j s, table-write m m id v rows j)

  -- one row more at the front of the rows that the loop visits
  merged-cons :
      (q : UpdateQuery) (id : String) (r : Record) (t : Table) (rows next : Rows) (j : String)
      → lookup id t ≡ none
      → lookup j (table next q.model)
        ≡ (if id == j then some (updated_by q r) else lookup j (table rows q.model))
      → merged q t next j ≡ merged q ((id, r) ∷ t) rows j
  unfolding lookup
  merged-cons q id r t rows next j fresh e = elim (text_cases id j) [
    | inl same ↦ ground (arith, eq_iff id j, same, ap (λ x. lookup x t) same)
    | inr other ↦ ground arith
  ]

  update_rows_lem :
      (q : UpdateQuery) (n k : ℕ) (t : Table) (rows after : Rows)
      → DistinctKeys t
      → Unvisited q.model t rows
      → update_rows a q q.predicate n t rows ≡ (ok k, after)
      → (j : String) → lookup j (table after q.model) ≡ merged q t rows j
  unfolding update_rows lookup
  update_rows_lem q n k [] rows after d u h j =
      ap (λ s. lookup j (table s q.model)) (sym (pure-ok n k rows after h).1)
  update_rows_lem q n k ((id, r) ∷ t) rows after d u h j =
      elim (Bool-cases (matches a.printer r q.predicate)) [
        | inl hit ↦
            let (v, s, ran, rest) =
              >>=-ok (update_row a q.model q.update id r) _ rows after k
                (rw (hit, update_rows) at h) in
            let (new, written) = update_row-ok a q.model q.update id r rows s v ran in
            let u' = rw (← written) at (Unvisited-write q.model id r v t rows d u) in
            update_rows_lem q (n + 1) k t s after d.1 u' rest j
            ∙ merged-cons q id r t rows s j d.0 (
                ground (
                  arith,
                  ap (λ (x : Rows). lookup j (table x q.model)) written,
                  table-write q.model q.model id v rows j,
                  eq_refl q.model,
                ))
        | inr miss ↦
            update_rows_lem q n k t rows after d.1 (Unvisited-tail q.model id r t rows d u)
              (rw (miss, update_rows) at h) j
            ∙ merged-cons q id r t rows rows j d.0 (ground (arith, eq_iff id j, eq_refl id, u id r))
      ]

  update_rows-other :
      (q : UpdateQuery) (n k : ℕ) (t : Table) (rows after : Rows) (m j : String)
      → (q.model == m) ≡ false
      → update_rows a q q.predicate n t rows ≡ (ok k, after)
      → lookup j (table after m) ≡ lookup j (table rows m)
  unfolding update_rows
  update_rows-other q n k [] rows after m j o h =
      ap (λ s. lookup j (table s m)) (sym (pure-ok n k rows after h).1)
  update_rows-other q n k ((id, r) ∷ t) rows after m j o h =
      elim (Bool-cases (matches a.printer r q.predicate)) [
        | inl hit ↦
            let (v, s, ran, rest) =
              >>=-ok (update_row a q.model q.update id r) _ rows after k
                (rw (hit, update_rows) at h) in
            let (new, written) = update_row-ok a q.model q.update id r rows s v ran in
            update_rows-other q (n + 1) k t s after m j o rest
            ∙ ground (
              arith,
              ap (λ (x : Rows). lookup j (table x m)) written,
              table-write q.model m id v rows j,
            )
        | inr miss ↦ update_rows-other q n k t rows after m j o (rw (miss, update_rows) at h)
      ]

  -- On a table with distinct ids, where the predicate is already as ValidateWhere returns it, an UpdateMany that
  -- succeeds updates every selected row of its table, and changes nothing else.
  pub update_many-ok :
      (q : UpdateQuery) (rows after : Rows) (k : ℕ)
      → validate_where q.predicate false ≡ ok q.predicate
      → DistinctKeys (table rows q.model)
      → update_many a q rows ≡ (ok k, after)
      → (m j : String)
      → lookup j (table after m) ≡ (
          if q.model == m then updated_row q (lookup j (table rows m)) else lookup j (table rows m))
  unfolding update_many lift
  update_many-ok q rows after k valid d h m j = elim (text_cases q.model m) [
    | inl same ↦
        rw (← same, eq_refl q.model)
          (update_rows_lem q 0 k (table rows q.model) rows after d (λ i r e. e) ran j ∙ all_rows)
    | inr other ↦ rw other (update_rows-other q 0 k (table rows q.model) rows after m j other ran)
  ]
    where
      ran : update_rows a q q.predicate 0 (table rows q.model) rows ≡ (ok k, after)
      ran = sym (>>=-run _ _ rows rows q.predicate (λ i. (valid i, rows))) ∙ h

      all_rows :
          merged q (table rows q.model) rows j ≡ updated_row q (lookup j (table rows q.model))
      all_rows = elim (Option-cases (lookup j (table rows q.model))) [
        | inl e ↦ ground arith
        | inr (r, e) ↦ ground arith
      ]

  -- what DeleteMany leaves of a row
  abbrev pub kept_by : DeleteQuery → Option Record → Option Record
  kept_by q none = none
  kept_by q (some r) = if matches a.printer r q.predicate then none else some r

  abbrev remaining : DeleteQuery → Table → Rows → String → Option Record
  remaining q t rows j = elim (lookup j t) [
    | none ↦ lookup j (table rows q.model)
    | some r ↦ kept_by q (some r)
  ]

  remaining-cons :
      (q : DeleteQuery) (id : String) (r : Record) (t : Table) (rows next : Rows) (j : String)
      → lookup id t ≡ none
      → lookup j (table next q.model)
        ≡ (if id == j then kept_by q (some r) else lookup j (table rows q.model))
      → remaining q t next j ≡ remaining q ((id, r) ∷ t) rows j
  unfolding lookup
  remaining-cons q id r t rows next j fresh e = elim (text_cases id j) [
    | inl same ↦ ground (arith, eq_iff id j, same, ap (λ x. lookup x t) same)
    | inr other ↦ ground arith
  ]

  Unvisited-erase :
      (m id : String) (r : Record) (t : Table) (rows : Rows)
      → DistinctKeys ((id, r) ∷ t)
      → Unvisited m ((id, r) ∷ t) rows
      → Unvisited m t (erase m id rows)
  unfolding lookup
  Unvisited-erase m id r t rows d u j s e =
      ground (arith, eq_iff id j, eq_refl m, d.0, u j s, table-erase m m id rows j)

  delete_rows_lem :
      (q : DeleteQuery) (t : Table) (n : ℕ) (rows : Rows)
      → DistinctKeys t
      → Unvisited q.model t rows
      → (j : String)
      → lookup j (table (delete_rows a q q.predicate n t rows).1 q.model) ≡ remaining q t rows j
  unfolding delete_rows lookup
  delete_rows_lem q [] n rows d u j = refl
  delete_rows_lem q ((id, r) ∷ t) n rows d u j =
      elim (Bool-cases (matches a.printer r q.predicate)) [
        | inl hit ↦
            rw (hit, delete_rows)
              (delete_rows_lem q t (n + 1) (erase q.model id rows) d.1
                  (Unvisited-erase q.model id r t rows d u) j
                ∙ remaining-cons q id r t rows _ j d.0
                    (ground (arith, table-erase q.model q.model id rows j, eq_refl q.model)))
        | inr miss ↦
            rw (miss, delete_rows)
              (delete_rows_lem q t n rows d.1 (Unvisited-tail q.model id r t rows d u) j
                ∙ remaining-cons q id r t rows rows j d.0
                    (ground (arith, eq_iff id j, eq_refl id, u id r)))
      ]

  delete_rows-other :
      (q : DeleteQuery) (t : Table) (n : ℕ) (rows : Rows) (m j : String)
      → (q.model == m) ≡ false
      → lookup j (table (delete_rows a q q.predicate n t rows).1 m) ≡ lookup j (table rows m)
  unfolding delete_rows
  delete_rows-other q [] n rows m j o = refl
  delete_rows-other q ((id, r) ∷ t) n rows m j o =
      delete_rows-other q t _ _ m j o ∙ ground (arith, table-erase q.model m id rows j)

  delete_rows-count :
      (q : DeleteQuery) (t : Table) (n : ℕ) (rows : Rows)
      → (k : ℕ) × ((delete_rows a q q.predicate n t rows).0 ≡ ok k)
  unfolding delete_rows
  delete_rows-count q [] n rows = (n, refl)
  delete_rows-count q ((id, r) ∷ t) n rows = delete_rows-count q t _ _

  -- On a table with distinct ids, where the predicate is already as ValidateWhere returns it, DeleteMany succeeds,
  -- deletes every selected row of its table, and changes nothing else.
  pub delete_many-ok :
      (q : DeleteQuery) (rows : Rows)
      → validate_where q.predicate false ≡ ok q.predicate
      → DistinctKeys (table rows q.model)
      → ((k : ℕ) × ((delete_many a q rows).0 ≡ ok k))
        × ((m j : String)
            → lookup j (table (delete_many a q rows).1 m) ≡ (
                if q.model == m
                then kept_by q (lookup j (table rows m))
                else lookup j (table rows m)))
  unfolding delete_many lift
  delete_many-ok q rows valid d =
      rw run (delete_rows-count q (table rows q.model) 0 rows, λ m j. after m j)
    where
      run : delete_many a q rows ≡ delete_rows a q q.predicate 0 (table rows q.model) rows
      run = >>=-run _ _ rows rows q.predicate (λ i. (valid i, rows))

      all_rows :
          (j : String)
          → remaining q (table rows q.model) rows j ≡ kept_by q (lookup j (table rows q.model))
      all_rows j = elim (Option-cases (lookup j (table rows q.model))) [
        | inl e ↦ ground arith
        | inr (r, e) ↦ ground arith
      ]

      after :
          (m j : String)
          → lookup j (table (delete_rows a q q.predicate 0 (table rows q.model) rows).1 m) ≡ (
              if q.model == m then kept_by q (lookup j (table rows m)) else lookup j (table rows m))
      after m j = elim (text_cases q.model m) [
        | inl same ↦
            rw (← same, eq_refl q.model)
              (delete_rows_lem q (table rows q.model) 0 rows d (λ i r e. e) j ∙ all_rows j)
        | inr other ↦ rw other (delete_rows-other q (table rows q.model) 0 rows m j other)
      ]
