-- ===== src/Outbox.antt =====
-- outbox.go: the dispatcher of stored events. The handler is a parameter, and so is what the clock reads. The report
-- also lists the events that were handed to the handler.
pub mod Batch
mod Tests
use better_auth_go.Prelude.{
  ℕ, suc, String, Bool, true, false, ◌||◌, List, [], ◌∷◌, Option, none, some, ltb, if◌then◌else◌,
}
use better_auth_go.Prelude.Int.{ℤ, pos, negsuc, is_negative, pos_part}
use better_auth_go.Action.{Error, failure, Result, ok, err}
use better_auth_go.Action.Checks.{◌>>=◌}
use better_auth_go.Value.{Value, Record, scalar, int, int64, float64, text, nil, instant, field}
use better_auth_go.Database.{FindManyQuery, equals}
use better_auth_go.Schema.{model_outbox_event}
use better_auth_go.Memory.Table.{Adapter, Rows}
use better_auth_go.Memory.Methods.{find_many, update}
use better_auth_go.Store.Types.{DomainEvent}
use better_auth_go.Store.Records.{record_string, record_time, record_string_map}
use better_auth_go.Store.Queries.{change}

-- recordInt; the values of a row here have no int32, which no adapter of the model returns
unfoldable pub record_int : Value → Result ℤ
record_int (scalar (int n)) = ok n
record_int (scalar (int64 n)) = ok n
record_int (scalar (float64 n)) = ok n
record_int _ = err (failure "betterauth: adapter returned invalid integer")

-- domainEventFromRecord
unfoldable pub domain_event_from_record : Record → Result DomainEvent
domain_event_from_record row = do
  id ← record_string row "id"
  name ← record_string row "name"
  aggregate ← record_string row "aggregateId"
  occurred ← record_time row "occurredAt"
  version ← record_int (field row "schemaVersion")
  ok (record {
    id = id;
    schema_version = version;
    name = name;
    aggregate_id = aggregate;
    occurred_at = occurred;
    payload = record_string_map (field row "payload");
  })

pub record Report : Type 0 where
  pub delivered : ℕ
  pub error : Option Error
  pub handed : List DomainEvent

-- a return with an error, or at the end of the batch
abbrev pub report : ℕ → Option Error → Report
report n e = record { delivered = n; error = e; handed = [] }

abbrev pub with_handed : DomainEvent → Report × Rows → Report × Rows
with_handed event (r, rows) = (record r { handed = event ∷ r.handed }, rows)

-- what the rest of the loop does from a count of delivered events on
abbrev Rest : Type 0
Rest = ℕ → Rows → Report × Rows

-- the marker of an event: where no row is updated, another dispatcher has won it
unfoldable pub after_mark : ℕ → Rest → Result (Option Record) × Rows → Report × Rows
after_mark n rest (err e, rows) = (report n (some (failure "betterauth: mark outbox event")), rows)
after_mark n rest (ok none, rows) = rest n rows
after_mark n rest (ok (some row), rows) = rest (suc n) rows

abbrev pub unpublished : ℤ → FindManyQuery
unpublished size = record {
  model = model_outbox_event;
  predicate = equals "publishedAt" nil ∷ [];
  limit = size;
  offset = pos 0;
  select = [];
  sort = some (record { on_field = "occurredAt"; direction = "asc" });
  joins = [];
}

abbrev pub batch_size : ℤ → ℤ
batch_size (pos ℕ.zero) = pos 100
batch_size n = n

module _ (a : Adapter) (handle : DomainEvent → Result (Unit {0})) (now : ℕ) where
  unfoldable pub after_handler : DomainEvent → ℕ → Rest → Result (Unit {0}) → Rows → Report × Rows
  after_handler event n rest (err e) rows =
      (report n (some (failure "betterauth: deliver outbox event")), rows)
  after_handler event n rest (ok u) rows = after_mark n rest (
      update a
        (change model_outbox_event (equals "id" (text event.id) ∷ equals "publishedAt" nil ∷ [])
          (("publishedAt", instant now) ∷ []))
        rows)

  -- one turn of the loop
  unfoldable pub deliver_row : Result DomainEvent → ℕ → Rest → Rows → Report × Rows
  deliver_row (err e) n rest rows = (report n (some e), rows)
  deliver_row (ok event) n rest rows =
      with_handed event (after_handler event n rest (handle event) rows)

  -- the loop of RunOnce
  unfoldable pub deliver_rows : List Record → ℕ → Rows → Report × Rows
  deliver_rows [] n rows = (report n none, rows)
  deliver_rows (r ∷ rs) n rows = deliver_row (domain_event_from_record r) n (deliver_rows rs) rows

  unfoldable pub deliver_found : Result (List Record) × Rows → Report × Rows
  deliver_found (err e, rows) = (report 0 (some (failure "betterauth: read outbox")), rows)
  deliver_found (ok rs, rows) = deliver_rows rs 0 rows

  -- RunOnce, on a dispatcher whose database and handler are there
  unfoldable pub run_once : ℤ → Rows → Report × Rows
  run_once given rows =
      let size = batch_size given in
      if is_negative size || ltb 1000 (pos_part size)
      then (report 0 (some (failure "betterauth: outbox batch size is out of bounds")), rows)
      else deliver_found (find_many a (unpublished size) rows)
