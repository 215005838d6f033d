-- ===== src/Memory/Removal.antt =====
-- Delete, DeleteMany and ConsumeOne of the adapter keep its tables well formed.
use better_auth_go.Memory.Invariant.{erase-WellFormed}
use better_auth_go.Prelude.{ℕ, String, false, List, [], ◌∷◌, Option, none, some, if_elim}
use better_auth_go.Action.Preserves.{Preserves, bind-Preserves, lift-Preserves}
use better_auth_go.Value.{Record}
use better_auth_go.Database.{Where, DeleteQuery, validate_where}
use better_auth_go.Memory.Match.{matches}
use better_auth_go.Memory.Table.{Adapter, Table, Rows, table}
use better_auth_go.Memory.Methods.{
  delete_first, delete_found, consume_found, delete, delete_rows, delete_many, consume_first,
  consume_one,
}
use better_auth_go.Memory.WellFormed.{WellFormed}

module _ (a : Adapter) where
  delete_found-WellFormed :
      (q : DeleteQuery) (o : Option (String × Record)) → Preserves (WellFormed a) (delete_found q o)
  unfolding delete_found
  delete_found-WellFormed q none = record { after = λ s v. v }
  delete_found-WellFormed q (some (id, r)) = record {
    after = λ s v. erase-WellFormed a q.model id s v;
  }

  delete_first-WellFormed :
      (q : DeleteQuery) (ws : List Where) → Preserves (WellFormed a) (delete_first a q ws)
  unfolding delete_first
  delete_first-WellFormed q ws = record { after = λ s v. (delete_found-WellFormed q _).after s v }

  -- Delete
  pub delete-WellFormed : (q : DeleteQuery) → Preserves (WellFormed a) (delete a q)
  unfolding delete
  delete-WellFormed q = bind-Preserves _ _ (lift-Preserves _) (λ ws. delete_first-WellFormed q ws)

  delete_rows-WellFormed :
      (q : DeleteQuery) (ws : List Where) (t : Table) (n : ℕ) (s : Rows)
      → WellFormed a s
      → WellFormed a (delete_rows a q ws n t s).1
  unfolding delete_rows
  delete_rows-WellFormed q ws [] n s v = v
  delete_rows-WellFormed q ws ((id, r) ∷ t) n s v = delete_rows-WellFormed q ws t _ _ (
      if_elim (WellFormed a) (matches a.printer r ws) (λ _. erase-WellFormed a q.model id s v)
        (λ _. v))

  -- DeleteMany
  pub delete_many-WellFormed : (q : DeleteQuery) → Preserves (WellFormed a) (delete_many a q)
  unfolding delete_many
  delete_many-WellFormed q = record {
    after = λ s v.
        (bind-Preserves _ _ (lift-Preserves (validate_where q.predicate false)) λ ws. record {
          after = λ s' v'. delete_rows-WellFormed q ws (table s q.model) 0 s' v';
        }).after
          s v;
  }

  consume_found-WellFormed :
      (q : DeleteQuery) (o : Option (String × Record))
      → Preserves (WellFormed a) (consume_found q o)
  unfolding consume_found
  consume_found-WellFormed q none = record { after = λ s v. v }
  consume_found-WellFormed q (some (id, r)) = record {
    after = λ s v. erase-WellFormed a q.model id s v;
  }

  consume_first-WellFormed :
      (q : DeleteQuery) (ws : List Where) → Preserves (WellFormed a) (consume_first a q ws)
  unfolding consume_first
  consume_first-WellFormed q ws = record { after = λ s v. (consume_found-WellFormed q _).after s v }

  -- ConsumeOne
  pub consume_one-WellFormed : (q : DeleteQuery) → Preserves (WellFormed a) (consume_one a q)
  unfolding consume_one
  consume_one-WellFormed q =
      bind-Preserves _ _ (lift-Preserves _) (λ ws. consume_first-WellFormed q ws)
