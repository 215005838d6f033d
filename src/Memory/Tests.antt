-- ===== src/Memory/Tests.antt =====
-- The adapter on concrete rows.
use better_auth_go.Prelude.{
  ℕ, String, ◌≡◌, refl, true, false, not, ◌&&◌, ◌||◌, List, [], ◌∷◌, all, any, some, lookup,
  DistinctKeys, ◌==◌, if◌then◌else◌,
}
use better_auth_go.Action.{ok, err, conflict}
use better_auth_go.Value.{Record, text}
use better_auth_go.Database.{
  Where, CreateQuery, UpdateQuery, DeleteQuery, equals, or_connector, validate_where,
}
use better_auth_go.Schema.{core_schema}
use better_auth_go.Memory.Rules.{rules_from_schema}
use better_auth_go.Memory.Match.{matches, project, is_or}
use better_auth_go.Memory.Table.{Adapter, Rows, table}
use better_auth_go.Memory.Methods
use better_auth_go.Memory.WellFormed.{WellFormed}
use better_auth_go.Memory.History.{
  create, delete, run_calls, empty-WellFormed, run_calls-WellFormed,
}
use better_auth_go.Memory.Bulk.{updated_row, kept_by, update_many-ok, delete_many-ok}
use better_auth_go.Memory.Semantics.{matches-meaning, is_and_holds, is_or_holds}
use better_auth_go.Memory.Outcomes.{Inserted, Changed, create-Inserted, update-Changed}
use better_auth_go.Memory.Effects.{Consumed, consume-Consumed}
use better_auth_go.Memory.Transactions.{atomically, mutate, transaction, idle, transaction-mutate}
use better_auth_go.Memory.Code.{memory_code}

abbrev memory : Adapter
memory = record {
  rules = rules_from_schema core_schema;
  printer = record { print_other = λ v. "?"; to_lower = λ s. s };
}

abbrev alice : Record
alice = ("id", text "u1") ∷ ("email", text "a@x.y") ∷ []

abbrev bob : Record
bob = ("id", text "u2") ∷ ("email", text "b@x.y") ∷ []

abbrev two_users : Rows
two_users = ("user", ("u1", alice) ∷ ("u2", bob) ∷ []) ∷ []

abbrev row_of : Record → CreateQuery
row_of r = record { model = "user"; row = r; select = []; force_allow_id = true }

abbrev by_email : String → DeleteQuery
by_email e = record { model = "user"; predicate = equals "email" (text e) ∷ [] }

create_twice :
    Methods.create memory
      (record {
        model = "user";
        row = ("id", text "u3") ∷ ("email", text "a@x.y") ∷ [];
        select = [];
        force_allow_id = true;
      })
      two_users
    ≡ (err conflict, two_users)
unfolding memory_code
create_twice = refl

memory_two-WellFormed :
    WellFormed memory (run_calls memory (create (row_of alice) ∷ create (row_of bob) ∷ []) [])
memory_two-WellFormed =
    run_calls-WellFormed memory (create (row_of alice) ∷ create (row_of bob) ∷ []) []
      (empty-WellFormed memory)

-- the rows after two calls of Create
abbrev created_users : Rows
created_users = run_calls memory (create (row_of alice) ∷ create (row_of bob) ∷ []) []

run_calls-WellFormed_example :
    WellFormed memory
      (run_calls memory (delete (by_email "b@x.y") ∷ create (row_of alice) ∷ []) created_users)
run_calls-WellFormed_example =
    run_calls-WellFormed memory (delete (by_email "b@x.y") ∷ create (row_of alice) ∷ [])
      created_users memory_two-WellFormed

abbrev renamed : UpdateQuery
renamed = record {
  model = "user";
  predicate = equals "email" (text "b@x.y") ∷ [];
  update = ("name", text "Bob") ∷ [];
}

renamed-valid : validate_where renamed.predicate false ≡ ok renamed.predicate
unfolding memory_code
renamed-valid = refl

abbrev after_update_many : Rows
after_update_many = (Methods.update_many memory renamed two_users).1

update_many_works : Methods.update_many memory renamed two_users ≡ (ok 1, after_update_many)
unfolding memory_code
update_many_works = refl

two_users-DistinctKeys : DistinctKeys (table two_users "user")
unfolding memory_code
two_users-DistinctKeys = (refl, (refl, tt))

update_many-ok_example : lookup "u2" (table after_update_many "user") ≡ (
    if renamed.model == "user"
    then updated_row memory renamed (lookup "u2" (table two_users "user"))
    else lookup "u2" (table two_users "user"))
update_many-ok_example =
    update_many-ok memory renamed two_users after_update_many 1 renamed-valid two_users-DistinctKeys
      update_many_works "user" "u2"

by_email-valid : validate_where (by_email "b@x.y").predicate false ≡ ok (by_email "b@x.y").predicate
unfolding memory_code
by_email-valid = refl

delete_many-ok_example :
    ((k : ℕ) × ((Methods.delete_many memory (by_email "b@x.y") two_users).0 ≡ ok k))
    × ((m j : String)
        → lookup j (table (Methods.delete_many memory (by_email "b@x.y") two_users).1 m) ≡ (
            if (by_email "b@x.y").model == m
            then kept_by memory (by_email "b@x.y") (lookup j (table two_users m))
            else lookup j (table two_users m)))
delete_many-ok_example =
    delete_many-ok memory (by_email "b@x.y") two_users by_email-valid two_users-DistinctKeys

abbrev either : List Where
either =
    record (equals "email" (text "b@x.y")) { connector = or_connector }
    ∷ equals "id" (text "u2")
    ∷ []

matches-meaning_example : matches memory.printer bob either ≡ (
    all (is_and_holds memory.printer bob) either
    && (not (any (λ w. is_or w.connector) either) || any (is_or_holds memory.printer bob) either))
matches-meaning_example = matches-meaning memory.printer bob either

consumed :
    Methods.consume_one memory (by_email "b@x.y") two_users
    ≡ (ok (some bob), (Methods.consume_one memory (by_email "b@x.y") two_users).1)
unfolding memory_code
consumed = refl

consume-Consumed_example :
    Consumed memory "user"
      (by_email "b@x.y").predicate
      two_users
      bob
      (Methods.consume_one memory (by_email "b@x.y") two_users).1
consume-Consumed_example =
    consume-Consumed memory (by_email "b@x.y") (by_email "b@x.y").predicate two_users
      (Methods.consume_one memory (by_email "b@x.y") two_users).1 bob by_email-valid
      two_users-DistinctKeys consumed

abbrev new_bob : Record
new_bob = ("id", text "u2") ∷ ("email", text "b@x.y") ∷ ("name", text "Bob") ∷ []

updated :
    Methods.update memory renamed two_users
    ≡ (ok (some new_bob), (Methods.update memory renamed two_users).1)
unfolding memory_code
updated = refl

columns-DistinctKeys : DistinctKeys renamed.update
unfolding lookup
columns-DistinctKeys = (refl, tt)

update-Changed_example :
    Changed memory "user" renamed.predicate renamed.update two_users new_bob
      (Methods.update memory renamed two_users).1
update-Changed_example =
    update-Changed memory renamed two_users (Methods.update memory renamed two_users).1 new_bob
      renamed-valid two_users-DistinctKeys columns-DistinctKeys updated

created :
    Methods.create memory (row_of bob) [] ≡ (ok bob, (Methods.create memory (row_of bob) []).1)
unfolding memory_code
created = refl

create-Inserted_example :
    Inserted memory (row_of bob) [] (Methods.create memory (row_of bob) []).1
    × (bob ≡ project bob [])
create-Inserted_example =
    create-Inserted memory (row_of bob) [] (Methods.create memory (row_of bob) []).1 bob created

transaction-mutate_example :
    transaction (mutate (Methods.create memory (row_of alice))) (idle two_users) ≡ (
      (atomically (Methods.create memory (row_of alice)) two_users).0,
      idle (atomically (Methods.create memory (row_of alice)) two_users).1,
    )
transaction-mutate_example = transaction-mutate (Methods.create memory (row_of alice)) two_users

bob_selected : matches memory.printer bob (by_email "b@x.y").predicate ≡ true
unfolding memory_code
bob_selected = refl
