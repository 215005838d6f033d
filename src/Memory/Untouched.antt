-- ===== src/Memory/Untouched.antt =====
-- A method that writes one table leaves the others as they are.
use better_auth_go.Prelude.{
  String, List, ◌≡◌, refl, Bool, true, false, Option, none, some, ◌==◌, arith, if◌then◌else◌,
  if_elim,
}
use better_auth_go.Prelude
use better_auth_go.Action.{Result, Action, throw}
use better_auth_go.Action.Preserves.{
  Preserves, pure-Preserves, lift-Preserves, bind-Preserves, if-Preserves, throw-Preserves,
}
use better_auth_go.Value.{Record, field}
use better_auth_go.Database.{
  Where, CreateQuery, UpdateQuery, DeleteQuery, IncrementQuery, validate_where,
}
use better_auth_go.Memory.Table.{
  Adapter, Table, Rows, table, ensure_model, find_row, conflicts, assign, id_field, as_text,
}
use better_auth_go.Memory.Methods.{
  write, insert_ready, insert_row, create, update_row, update_found, update_first, update, erase,
  consume_found, consume_first, consume_one, add_deltas, increment_found, increment_first,
  increment_one,
}
use better_auth_go.Memory.WellFormed.{table-put}
use better_auth_go.Memory.Invariant.{table-ensure_model}

-- the rows whose table `n` is `t`
pub record IsAt (n : String) (t : Table) (rows : Rows) : Type 0 where
  pub same : table rows n ≡ t

module _ (a : Adapter) (n : String) (t : Table) where
  write-IsAt :
      (m id : String) (r : Record) (rows : Rows)
      → (m == n) ≡ false
      → IsAt n t rows
      → IsAt n t (write m id r rows)
  unfolding write
  write-IsAt m id r rows other s = record {
    same = ground (arith, s.same, other, table-put m n (Prelude.put id r (table rows m)) rows);
  }

  insert_ready-IsAt :
      (q : CreateQuery) (id : String) (rows : Rows)
      → (q.model == n) ≡ false
      → IsAt n t rows
      → IsAt n t (insert_ready a q id rows).1
  unfolding insert_ready
  insert_ready-IsAt q id rows other v =
      if_elim (λ (x : Result Record × Rows). IsAt n t x.1) _ (λ _. v)
        λ _. write-IsAt q.model id q.row rows other v

  pub create-IsAt : (q : CreateQuery) → (q.model == n) ≡ false → Preserves (IsAt n t) (create a q)
  unfolding create insert_row throw
  create-IsAt q other = record {
    after = λ s v.
        if_elim (λ (m : Action Rows Record). IsAt n t (m s).1)
          (as_text (field q.row (id_field a q.model)) == "") (λ _. v)
          λ _.
            insert_ready-IsAt q (as_text (field q.row (id_field a q.model)))
              (ensure_model s q.model) other
              (record { same = rw (table-ensure_model a q.model n s) v.same });
  }

  update_row-IsAt :
      (m : String) (columns : Record) (id : String) (r : Record) (rows : Rows)
      → (m == n) ≡ false
      → IsAt n t rows
      → IsAt n t (update_row a m columns id r rows).1
  unfolding update_row
  update_row-IsAt m columns id r rows other v =
      if_elim (λ (x : Result Record × Rows). IsAt n t x.1)
        (conflicts a rows m (assign (id_field a m) columns r) id) (λ _. v)
        λ _. write-IsAt m id (assign (id_field a m) columns r) rows other v

  update_found-IsAt :
      (q : UpdateQuery) (o : Option (String × Record))
      → (q.model == n) ≡ false
      → Preserves (IsAt n t) (update_found a q o)
  unfolding update_found
  update_found-IsAt q none other = pure-Preserves none
  update_found-IsAt q (some (id, r)) other =
      bind-Preserves _ _ (record { after = λ s v. update_row-IsAt q.model q.update id r s other v })
        (λ u. pure-Preserves (some u))

  pub update-IsAt : (q : UpdateQuery) → (q.model == n) ≡ false → Preserves (IsAt n t) (update a q)
  unfolding update update_first
  update-IsAt q other = bind-Preserves _ _ (lift-Preserves (validate_where q.predicate false)) λ ws.
      record {
        after =
            λ s v. (update_found-IsAt q (find_row a.printer ws (table s q.model)) other).after s v;
      }

  increment_found-IsAt :
      (q : IncrementQuery) (o : Option (String × Record))
      → (q.model == n) ≡ false
      → Preserves (IsAt n t) (increment_found a q o)
  unfolding increment_found
  increment_found-IsAt q none other = pure-Preserves none
  increment_found-IsAt q (some (id, r)) other =
      bind-Preserves _ _ (lift-Preserves (add_deltas q.increment r)) λ x.
        bind-Preserves _ _ (record { after = λ s v. update_row-IsAt q.model q.set id x s other v })
          (λ u. pure-Preserves (some u))

  increment_first-IsAt :
      (q : IncrementQuery) (ws : List Where)
      → (q.model == n) ≡ false
      → Preserves (IsAt n t) (increment_first a q ws)
  unfolding increment_first
  increment_first-IsAt q ws other = record {
    after =
        λ s v. (increment_found-IsAt q (find_row a.printer ws (table s q.model)) other).after s v;
  }

  pub increment_one-IsAt :
      (q : IncrementQuery) → (q.model == n) ≡ false → Preserves (IsAt n t) (increment_one a q)
  unfolding increment_one
  increment_one-IsAt q other =
      bind-Preserves _ _ (lift-Preserves _)
        λ ws. if-Preserves _ _ _ (throw-Preserves _) (increment_first-IsAt q ws other)

  consume_found-IsAt :
      (q : DeleteQuery) (o : Option (String × Record)) (rows : Rows)
      → (q.model == n) ≡ false
      → IsAt n t rows
      → IsAt n t (consume_found q o rows).1
  unfolding consume_found erase
  consume_found-IsAt q none rows other s = s
  consume_found-IsAt q (some (id, r)) rows other s = record {
    same =
        ground
          (arith, s.same, other, table-put q.model n (Prelude.remove id (table rows q.model)) rows);
  }

  pub consume_one-IsAt :
      (q : DeleteQuery) → (q.model == n) ≡ false → Preserves (IsAt n t) (consume_one a q)
  unfolding consume_one consume_first
  consume_one-IsAt q other = bind-Preserves _ _ (lift-Preserves _) λ ws. record {
    after =
        λ rows s. consume_found-IsAt q (find_row a.printer ws (table rows q.model)) rows other s;
  }
