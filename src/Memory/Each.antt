-- ===== src/Memory/Each.antt =====
-- A property of every row of one table that holds a given text in a field, under the adapter's methods.
use better_auth_go.Prelude.{
  String, ◌≡◌, refl, ap, ◌∙◌, inl, inr, Option, none, some, lookup, ◌==◌, eq_iff, eq_refl, arith,
  if_elim, text_cases,
}
use better_auth_go.Action.{Result, Action, throw}
use better_auth_go.Action.Preserves.{Preserves, lift-Preserves, bind-Preserves}
use better_auth_go.Value.{Record, text, field}
use better_auth_go.Database.{CreateQuery, DeleteQuery}
use better_auth_go.Memory.Table.{
  Adapter, Rows, table, ensure_model, find_row, conflicts, id_field, as_text,
}
use better_auth_go.Memory.Methods.{
  write, erase, insert_ready, insert_row, create, consume_found, consume_first, consume_one,
}
use better_auth_go.Memory.Effects.{table-write, table-erase}
use better_auth_go.Memory.Invariant.{table-ensure_model}
use better_auth_go.Memory.Untouched.{IsAt}

pub record Each (m f s : String) (Q : Record → Type 0) (rows : Rows) : Type 0 where
  pub at : (id : String) (r : Record) → lookup id (table rows m) ≡ some r → field r f ≡ text s → Q r

pub IsAt-Each :
    {A : Type 0} (m f s : String) (Q : Record → Type 0) (run : Action Rows A)
    → ((t : better_auth_go.Memory.Table.Table) → Preserves (IsAt m t) run)
    → Preserves (Each m f s Q) run
IsAt-Each m f s Q run same = record {
  after = λ rows e. record {
    at = λ id r here.
        e.at id r (rw (((same (table rows m)).after rows (record { same = refl })).same) at here);
  };
}

module _ (a : Adapter) (m f s : String) (Q : Record → Type 0) where
  write-Each :
      (id : String) (r : Record) (rows : Rows)
      → (field r f ≡ text s → Q r)
      → Each m f s Q rows
      → Each m f s Q (write m id r rows)
  write-Each id r rows new e = record {
    at = λ j q here fits. elim (text_cases id j) [
      | inl same ↦
          let is_new : r ≡ q =
            ground (arith, here, table-write m m id r rows j, eq_refl m, eq_iff id j, same) in
          rw is_new at (new (ap (λ x. field x f) is_new ∙ fits))
      | inr other ↦
          e.at j q (ground (arith, here, table-write m m id r rows j, eq_refl m, other)) fits
    ];
  }

  erase-Each : (id : String) (rows : Rows) → Each m f s Q rows → Each m f s Q (erase m id rows)
  erase-Each id rows e = record {
    at = λ j q here. e.at j q (ground (arith, here, table-erase m m id rows j, eq_refl m));
  }

  ensure_model-Each : (rows : Rows) → Each m f s Q rows → Each m f s Q (ensure_model rows m)
  ensure_model-Each rows e = record {
    at = λ j q here. e.at j q (rw (table-ensure_model a m m rows) at here);
  }

  written_there :
      (q : CreateQuery) (id : String) (rows : Rows)
      → q.model ≡ m
      → (field q.row f ≡ text s → Q q.row)
      → Each m f s Q rows
      → Each m f s Q (write q.model id q.row rows)
  written_there q id rows here new e = rw here (write-Each id q.row rows new e)

  insert_ready-Each :
      (q : CreateQuery) (id : String) (rows : Rows)
      → q.model ≡ m
      → (field q.row f ≡ text s → Q q.row)
      → Each m f s Q rows
      → Each m f s Q (insert_ready a q id rows).1
  unfolding insert_ready
  insert_ready-Each q id rows here new e =
      if_elim (λ (x : Result Record × Rows). Each m f s Q x.1) _ (λ _. e)
        λ _. written_there q id rows here new e

  -- a Create in the table itself
  pub create-Each :
      (q : CreateQuery)
      → q.model ≡ m
      → (field q.row f ≡ text s → Q q.row)
      → Preserves (Each m f s Q) (create a q)
  unfolding create insert_row throw
  create-Each q here new = record {
    after = λ rows e.
        if_elim (λ (x : Action Rows Record). Each m f s Q (x rows).1)
          (as_text (field q.row (id_field a q.model)) == "") (λ _. e)
          λ _.
            insert_ready-Each q (as_text (field q.row (id_field a q.model)))
              (ensure_model rows q.model) here new (rw here (ensure_model-Each rows e));
  }

  consume_found-Each :
      (q : DeleteQuery) (o : Option (String × Record)) (rows : Rows)
      → q.model ≡ m
      → Each m f s Q rows
      → Each m f s Q (consume_found q o rows).1
  unfolding consume_found
  consume_found-Each q none rows here e = e
  consume_found-Each q (some (id, r)) rows here e = rw here (erase-Each id rows e)

  -- a ConsumeOne in the table itself
  pub consume_one-Each :
      (q : DeleteQuery) → q.model ≡ m → Preserves (Each m f s Q) (consume_one a q)
  unfolding consume_one consume_first
  consume_one-Each q here = bind-Preserves _ _ (lift-Preserves _) λ ws. record {
    after = λ rows e. consume_found-Each q (find_row a.printer ws (table rows q.model)) rows here e;
  }
