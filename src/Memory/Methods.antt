-- ===== src/Memory/Methods.antt =====
-- adapter/memory/memory.go: the methods of the adapter on its rows.
use better_auth_go.Prelude.{
  ℕ, zero, ◌+◌, String, Bool, true, false, not, ◌||◌, List, [], ◌∷◌, map, Option, none, some, Assoc,
  lookup, put, remove, length, take, drop, leb, ltb, ◌==◌, Ordering, if◌then◌else◌,
}
use mathlib.Core.Option
use better_auth_go.Prelude.Int.{ℤ, pos, ◌+ℤ◌, pos_part, is_negative}
use better_auth_go.Action.{
  conflict, failure, Result, ok, err, Action, pure, throw, lift, reads, ◌>>=◌,
}
use better_auth_go.Value.{Record, scalar, float64, field}
use better_auth_go.Database.{
  Where, Sort, CreateQuery, FindOneQuery, FindManyQuery, CountQuery, UpdateQuery, DeleteQuery,
  IncrementQuery, validate_where,
}
use better_auth_go.Memory.Match.{Printer, matches, project, number, compare_values}
use better_auth_go.Memory.Table.{
  Adapter, Table, Rows, table, ensure_model, as_text, id_field, conflicts, find_row, assign,
}

abbrev is_empty {ℓ} : {A : Type ℓ} → List A → Bool
is_empty [] = true
is_empty (x ∷ xs) = false

abbrev pub is_some {ℓ} : {A : Type ℓ} → Option A → Bool
is_some none = false
is_some (some x) = true

-- Create
-- rows[model][id] = record
unfoldable pub write : String → String → Record → Rows → Rows
write m id r rows = put m (put id r (table rows m)) rows

-- delete(rows[model], id)
unfoldable pub erase : String → String → Rows → Rows
erase m id rows = put m (remove id (table rows m)) rows

unfoldable pub insert_ready : Adapter → CreateQuery → String → Action Rows Record
insert_ready a q id rows =
    if is_some (lookup id (table rows q.model)) || conflicts a rows q.model q.row ""
    then (err conflict, rows)
    else (ok (project q.row q.select), write q.model id q.row rows)

unfoldable pub insert_row : Adapter → CreateQuery → String → Action Rows Record
insert_row a q id rows = insert_ready a q id (ensure_model rows q.model)

unfoldable pub create : Adapter → CreateQuery → Action Rows Record
create a q =
    let id = as_text (field q.row (id_field a q.model)) in
    if id == "" then throw (failure "memory: record id is required") else insert_row a q id

-- FindOne; `none` is the nil record
unfoldable pub find_one : Adapter → FindOneQuery → Action Rows (Option Record)
find_one a q =
    if not (is_empty q.joins) then throw (failure "memory: joins are not supported") else do
      ws ← lift (validate_where q.predicate true)
      reads (λ s. ok (
          Option.map (λ (x : String × Record). project x.1 q.select)
            (find_row a.printer ws (table s q.model))))

unfoldable pub matching : Printer → List Where → Table → List Record
matching p ws [] = []
matching p ws ((id, r) ∷ t) =
    let rest = matching p ws t in if matches p r ws then r ∷ rest else rest

abbrev opposite : Ordering → Ordering
opposite Ordering.lt = Ordering.gt
opposite Ordering.eq = Ordering.eq
opposite Ordering.gt = Ordering.lt

-- the function handed to slices.SortStableFunc
unfoldable pub sort_order : Printer → Sort → Record → Record → Ordering
sort_order p s l r =
    let order = compare_values p (field l s.on_field) (field r s.on_field) in
    if s.direction == "desc" then opposite order else order

-- slices.SortStableFunc: equal records keep their order
unfoldable pub insert_stable : (Record → Record → Ordering) → Record → List Record → List Record
insert_stable o r [] = r ∷ []
insert_stable o r (s ∷ ss) =
    let rest = insert_stable o r ss in elim (o r s) [ Ordering.gt ↦ s ∷ rest | _ ↦ r ∷ s ∷ ss ]

unfoldable pub sort_stable : (Record → Record → Ordering) → List Record → List Record
sort_stable o [] = []
sort_stable o (r ∷ rs) = insert_stable o r (sort_stable o rs)

unfoldable pub sort_rows : Printer → Option Sort → List Record → List Record
unfolding sort_order
sort_rows p none rs = rs
sort_rows p (some s) rs = sort_stable (sort_order p s) rs

abbrev page : ℕ → ℕ → List Record → List Record
page offset limit rs = if leb (length rs) offset then [] else take limit (drop offset rs)

abbrev limit_of : ℤ → ℤ
limit_of (pos zero) = pos 100
limit_of l = l

unfoldable pub find_page : Adapter → FindManyQuery → ℤ → List Where → Action Rows (List Record)
find_page a q limit ws =
    if is_negative limit || ltb 1000 (pos_part limit) || is_negative q.offset
    then throw (failure "memory: pagination is out of bounds")
    else reads λ s. ok (
        map (λ r. project r q.select)
          (page (pos_part q.offset) (pos_part limit)
            (sort_rows a.printer q.sort (matching a.printer ws (table s q.model)))))

-- FindMany
unfoldable pub find_many : Adapter → FindManyQuery → Action Rows (List Record)
find_many a q =
    if not (is_empty q.joins)
    then throw (failure "memory: joins are not supported")
    else do ws ← lift (validate_where q.predicate true); find_page a q (limit_of q.limit) ws

-- Count
unfoldable pub count : Adapter → CountQuery → Action Rows ℕ
count a q = do
  rows ← find_many a (record {
    model = q.model;
    predicate = q.predicate;
    limit = pos 1000;
    offset = pos 0;
    select = [];
    sort = none;
    joins = [];
  })
  pure (length rows)

unfoldable pub update_row : Adapter → String → Record → String → Record → Action Rows Record
update_row a m update id r rows =
    let updated = assign (id_field a m) update r in
    if conflicts a rows m updated id
    then (err conflict, rows)
    else (ok updated, write m id updated rows)

-- Update
unfoldable pub update_found :
    Adapter → UpdateQuery → Option (String × Record) → Action Rows (Option Record)
update_found a q none = pure none
update_found a q (some (id, r)) = do u ← update_row a q.model q.update id r; pure (some u)

unfoldable pub update_first : Adapter → UpdateQuery → List Where → Action Rows (Option Record)
update_first a q ws rows = update_found a q (find_row a.printer ws (table rows q.model)) rows

unfoldable pub update : Adapter → UpdateQuery → Action Rows (Option Record)
update a q = do ws ← lift (validate_where q.predicate false); update_first a q ws

-- the loop of UpdateMany over the rows that the table had before it
unfoldable pub update_rows : Adapter → UpdateQuery → List Where → ℕ → Table → Action Rows ℕ
update_rows a q ws n [] = pure n
update_rows a q ws n ((id, r) ∷ t) =
    if matches a.printer r ws
    then (do u ← update_row a q.model q.update id r; update_rows a q ws (n + 1) t)
    else update_rows a q ws n t

-- UpdateMany
unfoldable pub update_many : Adapter → UpdateQuery → Action Rows ℕ
update_many a q rows =
    (do ws ← lift (validate_where q.predicate false); update_rows a q ws 0 (table rows q.model))
      rows

-- Delete
unfoldable pub delete_found : DeleteQuery → Option (String × Record) → Action Rows (Unit {0})
delete_found q none rows = (ok tt, rows)
delete_found q (some (id, r)) rows = (ok tt, erase q.model id rows)

unfoldable pub delete_first : Adapter → DeleteQuery → List Where → Action Rows (Unit {0})
delete_first a q ws rows = delete_found q (find_row a.printer ws (table rows q.model)) rows

unfoldable pub delete : Adapter → DeleteQuery → Action Rows (Unit {0})
delete a q = do ws ← lift (validate_where q.predicate false); delete_first a q ws

-- the loop of DeleteMany over the rows that the table had before it
unfoldable pub delete_rows : Adapter → DeleteQuery → List Where → ℕ → Table → Action Rows ℕ
delete_rows a q ws n [] rows = (ok n, rows)
delete_rows a q ws n ((id, r) ∷ t) rows =
    let hit = matches a.printer r ws in
    delete_rows a q ws (if hit then n + 1 else n) t (if hit then erase q.model id rows else rows)

-- DeleteMany
unfoldable pub delete_many : Adapter → DeleteQuery → Action Rows ℕ
delete_many a q rows =
    (do ws ← lift (validate_where q.predicate false); delete_rows a q ws 0 (table rows q.model))
      rows

-- ConsumeOne
unfoldable pub consume_found : DeleteQuery → Option (String × Record) → Action Rows (Option Record)
consume_found q none rows = (ok none, rows)
consume_found q (some (id, r)) rows = (ok (some r), erase q.model id rows)

unfoldable pub consume_first : Adapter → DeleteQuery → List Where → Action Rows (Option Record)
consume_first a q ws rows = consume_found q (find_row a.printer ws (table rows q.model)) rows

unfoldable pub consume_one : Adapter → DeleteQuery → Action Rows (Option Record)
consume_one a q = do ws ← lift (validate_where q.predicate false); consume_first a q ws

-- the loop of IncrementOne over `query.Increment`
unfoldable pub add_deltas : Assoc ℤ → Record → Result Record
add_deltas [] r = ok r
add_deltas ((f, delta) ∷ deltas) r = elim (number (field r f)) [
  | none ↦ err (failure "memory: field is not numeric")
  | some n ↦ add_deltas deltas (put f (scalar (float64 (n +ℤ delta))) r)
]

-- IncrementOne
unfoldable pub increment_found :
    Adapter → IncrementQuery → Option (String × Record) → Action Rows (Option Record)
increment_found a q none = pure none
increment_found a q (some (id, r)) = do
  added ← lift (add_deltas q.increment r)
  u ← update_row a q.model q.set id added
  pure (some u)

unfoldable pub increment_first : Adapter → IncrementQuery → List Where → Action Rows (Option Record)
increment_first a q ws rows = increment_found a q (find_row a.printer ws (table rows q.model)) rows

unfoldable pub increment_one : Adapter → IncrementQuery → Action Rows (Option Record)
increment_one a q = do
  ws ← lift (validate_where q.predicate false)
  if is_empty q.increment
      then throw (failure "memory: increment is empty")
      else increment_first a q ws
