-- ===== src/Outbox/Tests.antt =====
-- A run of the dispatcher over two stored events, the second of which its handler refuses.
use better_auth_go.Prelude.{ℕ, String, ◌≡◌, refl, [], ◌∷◌, ◌==◌, if◌then◌else◌}
use better_auth_go.Prelude.Int.{pos}
use better_auth_go.Action.{Result, ok, err, failure}
use better_auth_go.Value.{Record, scalar, int, text, instant, nil}
use better_auth_go.Memory.Table.{Adapter, Rows}
use better_auth_go.Memory.Rules.{rules_from_schema}
use better_auth_go.Schema.{core_schema}
use better_auth_go.Memory.Code.{memory_code}
use better_auth_go.Store.Types.{DomainEvent}
use better_auth_go.Memory.Methods.{find_many}
use better_auth_go.Outbox.{run_once, unpublished}
use better_auth_go.Outbox.Batch.{Ran, run_once-Ran}

abbrev memory : Adapter
memory = record {
  rules = rules_from_schema core_schema;
  printer = record { print_other = λ v. "?"; to_lower = λ s. s };
}

abbrev stored_event : String → String → ℕ → Record
stored_event id name occurred =
    ("id", text id)
    ∷ ("name", text name)
    ∷ ("aggregateId", text "u1")
    ∷ ("occurredAt", instant occurred)
    ∷ ("schemaVersion", scalar (int (pos 1)))
    ∷ ("payload", nil)
    ∷ ("publishedAt", nil)
    ∷ []

abbrev handle : DomainEvent → Result (Unit {0})
handle event = if event.name == "user.created" then ok tt else err (failure "no route")

abbrev first_event : Record
first_event = stored_event "e1" "user.created" 3

abbrev second_event : Record
second_event = stored_event "e2" "user.deleted" 5

-- The later event is stored first.
abbrev stored_events : Rows
stored_events = ("outboxEvent", ("e2", second_event) ∷ ("e1", first_event) ∷ []) ∷ []

-- FindMany sorts the batch.
found :
    find_many memory (unpublished (pos 100)) stored_events
    ≡ (ok (first_event ∷ second_event ∷ []), stored_events)
unfolding memory_code
found = refl

run_once-Ran_example :
    let (r, after) = run_once memory handle 9 (pos 0) stored_events in
    Ran memory handle 9 stored_events
      (first_event ∷ second_event ∷ [])
      r.handed
      r.delivered
      r.error
      after
run_once-Ran_example =
    run_once-Ran memory handle 9 (pos 0) stored_events stored_events
      (first_event ∷ second_event ∷ []) refl found
