-- ===== src/Outbox/Batch.antt =====
-- outbox.go, `RunOnce`: what a run hands to the handler, which events it marks as published, and what it counts.
use better_auth_go.Prelude.{
  ℕ, suc, ◌≡◌, ◌+◌, refl, subst, false, ◌||◌, List, [], ◌∷◌, Option, none, some, ltb, arith,
}
use better_auth_go.Prelude.Int.{ℤ, is_negative, pos_part}
use better_auth_go.Action.{Error, failure, Result, ok, err, Action}
use better_auth_go.Value.{Record, text, instant, nil}
use better_auth_go.Memory.Table.{Adapter, Rows}
use better_auth_go.Memory.Methods.{find_many, update}
use better_auth_go.Store.Types.{DomainEvent}
use better_auth_go.Outbox.{
  domain_event_from_record, Report, with_handed, after_mark, after_handler, deliver_row,
  deliver_rows, deliver_found, batch_size, unpublished, run_once,
}
use better_auth_go.Database.{equals}
use better_auth_go.Schema.{model_outbox_event}
use better_auth_go.Store.Queries.{change}

module _ (a : Adapter) (handle : DomainEvent → Result (Unit {0})) (now : ℕ) where
  -- the update that marks an event as published, unless it already is
  abbrev pub marking : DomainEvent → Action Rows (Option Record)
  marking event = update a (
      change model_outbox_event (equals "id" (text event.id) ∷ equals "publishedAt" nil ∷ [])
        (("publishedAt", instant now) ∷ []))

  -- A run over a batch, from the rows before it: the events that were handed to the handler, how many of them were
  -- marked as published, the error that ended the run, and the rows after it.
  pub data Ran : Rows → List Record → List DomainEvent → ℕ → Option Error → Rows → Type 0 where
    finished : {s : Rows} → Ran s [] [] 0 none s
    unreadable :
        {s : Rows} {r : Record} {rs : List Record} {e : Error}
        → domain_event_from_record r ≡ err e
        → Ran s (r ∷ rs) [] 0 (some e) s
    refused :
        {s : Rows} {r : Record} {rs : List Record} {event : DomainEvent} {e : Error}
        → domain_event_from_record r ≡ ok event
        → handle event ≡ err e
        → Ran s (r ∷ rs) (event ∷ []) 0 (some (failure "betterauth: deliver outbox event")) s
    unmarked :
        {s t : Rows} {r : Record} {rs : List Record} {event : DomainEvent} {e : Error}
        → domain_event_from_record r ≡ ok event
        → handle event ≡ ok tt
        → marking event s ≡ (err e, t)
        → Ran s (r ∷ rs) (event ∷ []) 0 (some (failure "betterauth: mark outbox event")) t
    already_marked :
        {s t u : Rows} {r : Record} {rs : List Record} {event : DomainEvent}
        {events : List DomainEvent} {n : ℕ} {e : Option Error}
        → domain_event_from_record r ≡ ok event
        → handle event ≡ ok tt
        → marking event s ≡ (ok none, t)
        → Ran t rs events n e u
        → Ran s (r ∷ rs) (event ∷ events) n e u
    marked :
        {s t u : Rows} {r row : Record} {rs : List Record} {event : DomainEvent}
        {events : List DomainEvent} {n : ℕ} {e : Option Error}
        → domain_event_from_record r ≡ ok event
        → handle event ≡ ok tt
        → marking event s ≡ (ok (some row), t)
        → Ran t rs events n e u
        → Ran s (r ∷ rs) (event ∷ events) (suc n) e u

  -- The outcome of a run over a batch that starts from a count.
  Reports : Rows → List Record → ℕ → Report × Rows → Type 0
  Reports s rs n (r, t) = (k : ℕ) × (r.delivered ≡ n + k) × Ran s rs r.handed k r.error t

  -- The rest of the loop, from any count and any rows.
  abbrev RestReports : List Record → Type 0
  RestReports rs = (m : ℕ) (t : Rows) → Reports t rs m (deliver_rows a handle now rs m t)

  after_mark-Reports :
      (r : Record) (rs : List Record) (event : DomainEvent) (n : ℕ) (s : Rows)
      → domain_event_from_record r ≡ ok event
      → handle event ≡ ok tt
      → RestReports rs
      → (out : Result (Option Record) × Rows) → marking event s ≡ out
      → Reports s (r ∷ rs) n (with_handed event (after_mark n (deliver_rows a handle now rs) out))
  unfolding after_mark Reports
  after_mark-Reports r rs event n s readable handled rest (err e, t) h =
      (0, omega arith, unmarked readable handled h)
  after_mark-Reports r rs event n s readable handled rest (ok none, t) h =
      let (k, count, ran) = rest n t in (k, count, already_marked readable handled h ran)
  after_mark-Reports r rs event n s readable handled rest (ok (some row), t) h =
      let (k, count, ran) = rest (suc n) t in
      (suc k, omega (arith, count), marked readable handled h ran)

  after_handler-Reports :
      (r : Record) (rs : List Record) (event : DomainEvent) (n : ℕ) (s : Rows)
      → domain_event_from_record r ≡ ok event
      → RestReports rs
      → (handled : Result (Unit {0})) → handle event ≡ handled
      → Reports s (r ∷ rs) n (
          with_handed event
            (after_handler a handle now event n (deliver_rows a handle now rs) handled s))
  unfolding after_handler Reports
  after_handler-Reports r rs event n s readable rest (err e) h =
      (0, omega arith, refused readable h)
  after_handler-Reports r rs event n s readable rest (ok u) h =
      after_mark-Reports r rs event n s readable h rest _ refl

  deliver_row-Reports :
      (r : Record) (rs : List Record) (n : ℕ) (s : Rows)
      → RestReports rs
      → (read : Result DomainEvent) → domain_event_from_record r ≡ read
      → Reports s (r ∷ rs) n (deliver_row a handle now read n (deliver_rows a handle now rs) s)
  unfolding deliver_row Reports
  deliver_row-Reports r rs n s rest (err e) h = (0, omega arith, unreadable h)
  deliver_row-Reports r rs n s rest (ok event) h =
      after_handler-Reports r rs event n s h rest (handle event) refl

  deliver_rows-Reports :
      (rs : List Record) (n : ℕ) (s : Rows) → Reports s rs n (deliver_rows a handle now rs n s)
  unfolding deliver_rows Reports
  deliver_rows-Reports [] n s = (0, omega arith, finished)
  deliver_rows-Reports (r ∷ rs) n s =
      deliver_row-Reports r rs n s (deliver_rows-Reports rs) (domain_event_from_record r) refl

  -- Where the batch size is within its bounds and FindMany returns a batch, RunOnce goes through the rows of the
  -- batch in order. It hands each event to the handler once and then updates publishedAt of the event, unless it
  -- is set already, and counts just the events whose row that update returned; one that was marked already is
  -- passed over. It ends with an error at the first row that cannot be read, that the handler refuses, or whose
  -- update fails, and at the end of the batch without one.
  pub run_once-Ran :
      (size : ℤ) (s t : Rows) (batch : List Record)
      → is_negative (batch_size size) || ltb 1000 (pos_part (batch_size size)) ≡ false
      → find_many a (unpublished (batch_size size)) s ≡ (ok batch, t)
      → let (r, after) = run_once a handle now size s in
        Ran t batch r.handed r.delivered r.error after
  unfolding run_once deliver_found Reports
  run_once-Ran size s t batch small found =
      rw (small, found)
        (let (k, count, ran) = deliver_rows-Reports batch 0 t in
          let (r, after) = deliver_rows a handle now batch 0 t in
          subst (λ n. Ran t batch r.handed n r.error after) (omega (arith, count)) ran)
