-- ===== src/Memory/History.antt =====
-- The methods of the adapter in adapter/memory as calls, and what holds after any sequence of them.
use better_auth_go.Prelude.{refl, List, [], ◌∷◌, lookup, arith}
use better_auth_go.Action.{Action, pure, ◌>>=◌}
use better_auth_go.Action.Preserves.{Preserves, preserves_rules}
use better_auth_go.Database.{
  CreateQuery, FindOneQuery, FindManyQuery, CountQuery, UpdateQuery, DeleteQuery, IncrementQuery,
}
use better_auth_go.Memory.Table.{Adapter, Rows, table}
use better_auth_go.Memory.Methods
use better_auth_go.Memory.WellFormed.{WellFormed}
use better_auth_go.Memory.Invariant
use better_auth_go.Memory.Removal
use better_auth_go.Memory.Increment

-- the methods of the adapter
pub data MemoryCall : Type 0 where
  create : CreateQuery → MemoryCall
  find_one : FindOneQuery → MemoryCall
  find_many : FindManyQuery → MemoryCall
  count : CountQuery → MemoryCall
  update update_many : UpdateQuery → MemoryCall
  delete delete_many consume_one : DeleteQuery → MemoryCall
  increment_one : IncrementQuery → MemoryCall

abbrev discard : {A : Type 0} → Action Rows A → Action Rows (Unit {0})
discard m = do x ← m; pure tt

-- the call, less the value that it returns
unfoldable pub run_call : Adapter → MemoryCall → Action Rows (Unit {0})
run_call a (create q) = discard (Methods.create a q)
run_call a (find_one q) = discard (Methods.find_one a q)
run_call a (find_many q) = discard (Methods.find_many a q)
run_call a (count q) = discard (Methods.count a q)
run_call a (update q) = discard (Methods.update a q)
run_call a (update_many q) = discard (Methods.update_many a q)
run_call a (delete q) = discard (Methods.delete a q)
run_call a (delete_many q) = discard (Methods.delete_many a q)
run_call a (consume_one q) = discard (Methods.consume_one a q)
run_call a (increment_one q) = discard (Methods.increment_one a q)

-- the rows after a sequence of calls, whether or not they succeed
unfoldable pub run_calls : Adapter → List MemoryCall → Rows → Rows
run_calls a [] rows = rows
run_calls a (c ∷ cs) rows = run_calls a cs (run_call a c rows).1

module _ (a : Adapter) where
  pub empty-WellFormed : WellFormed a []
  unfolding table lookup
  empty-WellFormed = record {
    at = λ m. record {
      distinct = tt;
      keyed = λ id r e. ground arith;
      named = refl;
      unique = λ i j r s er es d. ground arith;
    };
  }

  run_call-WellFormed : (c : MemoryCall) → Preserves (WellFormed a) (run_call a c)
  unfolding run_call
  run_call-WellFormed (create q) = search (preserves_rules, Invariant.create-WellFormed)
  run_call-WellFormed (find_one q) = search (preserves_rules, Invariant.find_one-Preserves)
  run_call-WellFormed (find_many q) = search (preserves_rules, Invariant.find_many-Preserves)
  run_call-WellFormed (count q) = search (preserves_rules, Invariant.count-Preserves)
  run_call-WellFormed (update q) = search (preserves_rules, Invariant.update-WellFormed)
  run_call-WellFormed (update_many q) = search (preserves_rules, Invariant.update_many-WellFormed)
  run_call-WellFormed (delete q) = search (preserves_rules, Removal.delete-WellFormed)
  run_call-WellFormed (delete_many q) = search (preserves_rules, Removal.delete_many-WellFormed)
  run_call-WellFormed (consume_one q) = search (preserves_rules, Removal.consume_one-WellFormed)
  run_call-WellFormed (increment_one q) =
      search (preserves_rules, Increment.increment_one-WellFormed)

  -- Any sequence of calls, whether they fail or not, takes well-formed rows to well-formed rows: each row stays
  -- under the id in its record, no id is empty, and no two rows of a table share a unique key of its model.
  pub run_calls-WellFormed :
      (cs : List MemoryCall) (rows : Rows) → WellFormed a rows → WellFormed a (run_calls a cs rows)
  unfolding run_calls
  run_calls-WellFormed [] rows v = v
  run_calls-WellFormed (c ∷ cs) rows v =
      run_calls-WellFormed cs (run_call a c rows).1 ((run_call-WellFormed c).after rows v)
