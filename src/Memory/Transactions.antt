-- ===== src/Memory/Transactions.antt =====
-- adapter/memory/memory.go, `mutateValue`, `readValue` and `Transaction`: an adapter works on the stored rows, or, inside a
-- transaction, on the snapshot `tx_rows`. The lock that the methods hold makes each call one step.
use better_auth_go.Prelude.{◌≡◌, refl, ap, Option, none, some, arith}
use better_auth_go.Action.{Error, Result, ok, err, Action}
use better_auth_go.Memory.Table.{Rows}

pub record Handle : Type 0 where
  pub rows : Rows
  pub tx_rows : Option Rows

abbrev or_snapshot : Option Rows → Rows → Rows
or_snapshot none rows = rows
or_snapshot (some t) rows = t

module _ {A : Type 0} where
  -- mutateValue and readValue
  pub mutate : Action Rows A → Action Handle A
  mutate op h = elim h.tx_rows [
    | none ↦ ((op h.rows).0, record h { rows = (op h.rows).1 })
    | some t ↦ ((op t).0, record h { tx_rows = some (op t).1 })
  ]

  -- `a.storage.rows = snapshot`, unless the callback failed
  commit : Result A → Handle → Handle → Result A × Handle
  commit (ok x) before after =
      (ok x, record before { rows = or_snapshot after.tx_rows before.rows })
  commit (err e) before after = (err e, before)

  -- Transaction
  pub transaction : Action Handle A → Action Handle A
  unfolding commit
  transaction callback h = elim h.tx_rows [
    | none ↦ let r = callback (record h { tx_rows = some h.rows }) in commit r.0 h r.1
    | some t ↦ callback h
  ]

  kept : Result A → Rows → Rows → Rows
  kept (ok x) before after = after
  kept (err e) before after = before

  -- A transaction as the store sees it: all of its writes, or none where it fails.
  unfoldable pub atomically : Action Rows A → Action Rows A
  unfolding kept
  atomically m rows = ((m rows).0, kept (m rows).0 rows (m rows).1)

module _ {A : Type 0} where
  kept_lem :
      (m : Result A × Rows) (before after : Rows) (x : A)
      → ◌≡◌ {A = Result A × Rows} (m.0, kept m.0 before m.1) (ok x, after)
      → m ≡ (ok x, after)
  unfolding kept
  kept_lem (ok y, t) before after x h = h
  kept_lem (err e, t) before after x h = ground arith

  -- A transaction that succeeded has run its body.
  pub atomically-ok :
      (m : Action Rows A) (rows after : Rows) (x : A)
      → atomically m rows ≡ (ok x, after)
      → m rows ≡ (ok x, after)
  unfolding atomically
  atomically-ok m rows after x h = kept_lem (m rows) rows after x h

  pub atomically-run :
      (m : Action Rows A) (rows after : Rows) (x : A)
      → m rows ≡ (ok x, after)
      → atomically m rows ≡ (ok x, after)
  unfolding atomically kept
  atomically-run m rows after x h = ap (λ (r : Result A × Rows). (r.0, kept r.0 rows r.1)) h

  rollback_lem :
      (m : Result A × Rows) (before : Rows) (e : Error) → m.0 ≡ err e → kept m.0 before m.1 ≡ before
  unfolding kept
  rollback_lem (ok x, t) before e h = ground arith
  rollback_lem (err f, t) before e h = refl

  -- A transaction that failed has changed nothing.
  pub atomically_rollback :
      (m : Action Rows A) (rows : Rows) (e : Error)
      → (atomically m rows).0 ≡ err e
      → (atomically m rows).1 ≡ rows
  unfolding atomically
  atomically_rollback m rows e h = rollback_lem (m rows) rows e h

  pub atomically-err :
      (m : Action Rows A) (rows t : Rows) (e : Error)
      → m rows ≡ (err e, t)
      → atomically m rows ≡ (err e, rows)
  unfolding atomically kept
  atomically-err m rows t e h = ap (λ (r : Result A × Rows). (r.0, kept r.0 rows r.1)) h

-- an adapter outside a transaction
abbrev pub idle : Rows → Handle
idle rows = record { rows = rows; tx_rows = none }

-- an adapter inside one
abbrev pub inside : Rows → Rows → Handle
inside rows t = record { rows = rows; tx_rows = some t }

module _ {A : Type 0} where
  commit-kept :
      (r : Result A) (before after : Rows)
      → commit r (idle before) (inside before after) ≡ (r, idle (kept r before after))
  unfolding commit kept
  commit-kept (ok x) before after = refl
  commit-kept (err e) before after = refl

  -- Outside a transaction, Transaction on a body of adapter calls returns the body's result and commits the rows
  -- that `atomically` gives: those of the body where it succeeds, the old ones where it fails.
  pub transaction-mutate :
      (m : Action Rows A) (rows : Rows)
      → transaction (mutate m) (idle rows) ≡ ((atomically m rows).0, idle (atomically m rows).1)
  unfolding transaction mutate atomically
  transaction-mutate m rows = commit-kept (m rows).0 rows (m rows).1
