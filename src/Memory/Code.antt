-- ===== src/Memory/Code.antt =====
-- One name for the code of the adapter, for the computations on concrete rows.
use better_auth_go.Prelude.{lookup, put, remove}
use better_auth_go.Action.{pure, throw, lift, reads, ◌>>=◌}
use better_auth_go.Value.{field, is_nil}
use better_auth_go.Value.Equality.{scalar_equal, deep_equal}
use better_auth_go.Database.{
  checked_operator, checked_connector, checked_mode, validate_item, validate_items, validate_where,
}
use better_auth_go.Schema.{core_schema}
use better_auth_go.Memory.Rules.{rules_from_schema}
use better_auth_go.Memory.Match.{
  sprint, number, compare_values, has_substring, has_suffix, is_member, test, match_one,
  matches_loop, matches, project,
}
use better_auth_go.Memory.Table.{
  table, ensure_model, as_text, id_field, unique_keys, same_unique_key, shares_key, clashes,
  conflicts, find_row, assign,
}
use better_auth_go.Memory.Methods.{
  write, erase, insert_ready, insert_row, create, find_one, matching, sort_order, insert_stable,
  sort_stable, sort_rows, find_page, find_many, count, update_row, update_found, update_first,
  update, update_rows, update_many, delete_found, delete_first, delete, delete_rows, delete_many,
  consume_found, consume_first, consume_one, add_deltas, increment_found, increment_first,
  increment_one,
}
use better_auth_go.Memory.Transactions.{atomically}

unfoldable pub memory_code : Unit {0}
unfolding lookup put remove pure throw lift reads ◌>>=◌ field is_nil scalar_equal deep_equal
    checked_operator checked_connector checked_mode validate_item validate_items validate_where
    core_schema rules_from_schema sprint number compare_values has_substring has_suffix is_member
    test match_one matches_loop matches project table ensure_model as_text id_field unique_keys
    same_unique_key shares_key clashes conflicts find_row assign write erase insert_ready insert_row
    create find_one matching sort_order insert_stable sort_stable sort_rows find_page find_many
    count update_row update_found update_first update update_rows update_many delete_found
    delete_first delete delete_rows delete_many consume_found consume_first consume_one add_deltas
    increment_found increment_first increment_one atomically
memory_code = tt
