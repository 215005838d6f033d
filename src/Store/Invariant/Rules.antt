-- ===== src/Store/Invariant/Rules.antt =====
-- Rules for the invariants of the store's operations, one for each way to build one.
use better_auth_go.Prelude.{Option, none, some}
use better_auth_go.Action.{Error, Result, ok, err, Action}
use better_auth_go.Action.Preserves.{Preserves, preserves_rules}
use better_auth_go.Memory.Table.{Rows}
use better_auth_go.Memory.Invariant.{
  create-WellFormed, update-WellFormed, update_many-WellFormed, find_one-Preserves,
  find_many-Preserves, count-Preserves,
}
use better_auth_go.Memory.Removal.{
  delete-WellFormed, delete_many-WellFormed, consume_one-WellFormed,
}
use better_auth_go.Memory.Transactions.{atomically}
use better_auth_go.Store.Queries.{forgive_not_found, require}

module _ {A : Type 0} {P : Rows → Type 0} where
  -- a transaction that fails restores a state where the property held
  pub atomically-Preserves : (m : Action Rows A) → Preserves P m → Preserves P (atomically m)
  unfolding atomically
  atomically-Preserves m pm = record {
    after = λ s p. kept_either (m s).0 s (m s).1 p (pm.after s p);
  }
    where
      kept_either :
          (r : Result A) (before after : Rows)
          → P before
          → P after
          → P (atomically (λ s. (r, after)) before).1
      kept_either (ok x) before after p q = q
      kept_either (err e) before after p q = p

  pub forgive_not_found-Preserves :
      (m : Action Rows (Option A)) → Preserves P m → Preserves P (forgive_not_found m)
  unfolding forgive_not_found
  forgive_not_found-Preserves m pm = record { after = pm.after }

  pub require-Preserves : (e : Error) (o : Option A) → Preserves P (require e o)
  unfolding require
  require-Preserves e none = record { after = λ s p. p }
  require-Preserves e (some x) = record { after = λ s p. p }

pub ruleset store_rules = (
  preserves_rules, atomically-Preserves, forgive_not_found-Preserves, require-Preserves,
  create-WellFormed, update-WellFormed, update_many-WellFormed, delete-WellFormed,
  delete_many-WellFormed, consume_one-WellFormed, find_one-Preserves, find_many-Preserves,
  count-Preserves,
)
