-- ===== src/Memory/Reads.antt =====
-- FindOne of the adapter where one row is selected.
use better_auth_go.Prelude.{
  String, ◌≡◌, refl, sym, ap, ◌∙◌, true, List, [], Option, none, some, lookup, arith,
}
use mathlib.Core.Option
use better_auth_go.Action.{ok, lift, reads}
use better_auth_go.Action.Inversion.{>>=-run}
use better_auth_go.Value.{Record}
use better_auth_go.Database.{Where, FindOneQuery, validate_where}
use better_auth_go.Memory.Match.{project}
use better_auth_go.Memory.Table.{Adapter, Rows, table, find_row}
use better_auth_go.Memory.Methods.{find_one}
use better_auth_go.Memory.WellFormed.{WellFormed, find_row-some, find_row-none}
use better_auth_go.Memory.Effects.{Selected, NoneSelected, find_row-NoneSelected}

-- the query for one whole row
abbrev pub whole_row : String → List Where → FindOneQuery
whole_row m ws = record { model = m; predicate = ws; select = []; joins = [] }

module _ (a : Adapter) (m : String) (ws : List Where) (rows : Rows) (v : WellFormed a rows) where
  find_row_unique :
      (id : String) (r : Record) (o : Option (String × Record))
      → Selected a.printer ws (table rows m) id r
      → ((j : String) (s : Record) → Selected a.printer ws (table rows m) j s → j ≡ id)
      → find_row a.printer ws (table rows m) ≡ o
      → o ≡ some (id, r)
  find_row_unique id r none sel one e =
      absurd (ground (arith, find_row-none a.printer ws (table rows m) id r e sel.here, sel.hit))
  find_row_unique id r (some (j, s)) sel one e =
      let (here, hit) = find_row-some a.printer ws (table rows m) j s (v.at m).distinct e in
      let same : j ≡ id = one j s (record { here = here; hit = hit }) in
      let row : some r ≡ some s =
        sym sel.here ∙ ap (λ x. lookup x (table rows m)) (sym same) ∙ here in
      let rows_same : r ≡ s = cc row in λ i. some (same i, sym rows_same i)

  -- FindOne returns the row that its predicate selects, where it selects one row.
  pub find_one_unique :
      (id : String) (r : Record)
      → validate_where ws true ≡ ok ws
      → Selected a.printer ws (table rows m) id r
      → ((j : String) (s : Record) → Selected a.printer ws (table rows m) j s → j ≡ id)
      → find_one a (whole_row m ws) rows ≡ (ok (some r), rows)
  unfolding find_one lift reads project
  find_one_unique id r valid sel one = >>=-run _ _ rows rows ws (λ i. (valid i, rows)) ∙ λ i. (
    ok (
        Option.map (λ (x : String × Record). project x.1 [])
          (find_row_unique id r _ sel one refl i)),
    rows,
  )

  -- FindOne with selected columns returns those of the row that its predicate selects, where it selects one row.
  pub find_one-project :
      (select : List String) (id : String) (r : Record)
      → validate_where ws true ≡ ok ws
      → Selected a.printer ws (table rows m) id r
      → ((j : String) (s : Record) → Selected a.printer ws (table rows m) j s → j ≡ id)
      → find_one a (record { model = m; predicate = ws; select = select; joins = [] }) rows
        ≡ (ok (some (project r select)), rows)
  unfolding find_one lift reads
  find_one-project select id r valid sel one =
      >>=-run _ _ rows rows ws (λ i. (valid i, rows)) ∙ λ i. (
        ok (
            Option.map (λ (x : String × Record). project x.1 select)
              (find_row_unique id r _ sel one refl i)),
        rows,
      )

  -- FindOne returns no row where its predicate selects none.
  pub find_one-NoneSelected :
      validate_where ws true ≡ ok ws
      → NoneSelected a.printer ws (table rows m)
      → find_one a (whole_row m ws) rows ≡ (ok none, rows)
  unfolding find_one lift reads
  find_one-NoneSelected valid h = >>=-run _ _ rows rows ws (λ i. (valid i, rows)) ∙ λ i. (
    ok (
        Option.map (λ (x : String × Record). project x.1 [])
          (find_row-NoneSelected a.printer ws (table rows m) (v.at m).distinct h i)),
    rows,
  )
