-- ===== src/Store/LastAccount.antt =====
-- UnlinkAccount of store.go: unless the caller allows it, the last account of a user is not unlinked.
use better_auth_go.Prelude.{
  ℕ, zero, suc, ◌≤◌, String, ◌≡◌, refl, sym, ap, ◌∙◌, inl, inr, Bool, true, false, List, [], ◌∷◌,
  map, Option, none, some, lookup, arith, ◌==◌, eq_refl, leb, length, take, DistinctKeys,
  Bool-cases, text_cases, if◌then◌else◌,
}
use better_auth_go.Action.{Result, ok, pure, lift, reads}
use better_auth_go.Action.Inversion.{>>=-ok, >>=-run, pure-ok, lift-ok, unless-ok}
use better_auth_go.Value.{Record, text, field}
use better_auth_go.Database.{
  Where, equals, DeleteQuery, validate_where, validate_items, validate_item,
}
use better_auth_go.Schema.{model_account}
use better_auth_go.Memory.Match.{Printer, matches, project}
use better_auth_go.Memory.Table.{Adapter, Table, Rows, table}
use better_auth_go.Memory.Methods.{
  matching, find_many, find_page, count, sort_rows, delete, delete_first, delete_found,
}
use better_auth_go.Memory.WellFormed.{WellFormed}
use better_auth_go.Memory.Effects.{Selected, table-erase}
use better_auth_go.Store.Queries.{counted, rows_where, require-ok}
use better_auth_go.Store.Accounts.{check_not_last, unlink_account}
use better_auth_go.Memory.Transactions.{atomically-ok}
use better_auth_go.Memory.Invariant.{find_one-Preserves}
use better_auth_go.Memory.Semantics.{matches-ands, holds-equals, deep_equal-text}

-- a row that the predicate selects
abbrev ASelected : Printer → List Where → Table → Type 0
ASelected p ws t = (i : String) × (r : Record) × Selected p ws t i r

later :
    (p : Printer) (ws : List Where) (id j : String) (r s : Record) (t : Table)
    → lookup id t ≡ none
    → Selected p ws t j s
    → Selected p ws ((id, r) ∷ t) j s × ((id == j) ≡ false)
unfolding lookup
later p ws id j r s t fresh sel = elim (text_cases id j) [
  | inl same ↦ absurd (ground (arith, sym fresh ∙ ap (λ x. lookup x t) same ∙ sel.here))
  | inr other ↦ (record { here = ground (arith, other, sel.here); hit = sel.hit }, other)
]

one_selected :
    (p : Printer) (ws : List Where) (t : Table)
    → DistinctKeys t
    → leb (length (matching p ws t)) 0 ≡ false
    → ASelected p ws t
unfolding matching lookup
one_selected p ws [] d h = absurd (ground arith)
one_selected p ws ((id, r) ∷ t) d h = elim (Bool-cases (matches p r ws)) [
  | inl hit ↦ (id, r, record { here = rw eq_refl refl; hit = hit })
  | inr miss ↦
      let (j, s, sel) = one_selected p ws t d.1 (rw miss at h) in
      (j, s, (later p ws id j r s t d.0 sel).0)
]

two_selected :
    (p : Printer) (ws : List Where) (t : Table)
    → DistinctKeys t
    → leb (length (matching p ws t)) 1 ≡ false
    → (first : ASelected p ws t) × (second : ASelected p ws t) × ((first.0 == second.0) ≡ false)
unfolding matching lookup
two_selected p ws [] d h = absurd (ground arith)
two_selected p ws ((id, r) ∷ t) d h = elim (Bool-cases (matches p r ws)) [
  | inl hit ↦
      let (j, s, sel) = one_selected p ws t d.1 (ground (arith, rw hit at h)) in
      let (there, apart) = later p ws id j r s t d.0 sel in
      ((id, r, record { here = rw eq_refl refl; hit = hit }), (j, s, there), apart)
  | inr miss ↦
      let ((i, q, one), (j, s, two), apart) = two_selected p ws t d.1 (rw miss at h) in
      ((i, q, (later p ws id i r q t d.0 one).0), (j, s, (later p ws id j r s t d.0 two).0), apart)
]

length-map : {A B : Type 0} (f : A → B) (xs : List A) → length (map f xs) ≡ length xs
length-map f [] = refl
length-map f (x ∷ xs) = ap suc (length-map f xs)

length-take : (n : ℕ) (xs : List Record) → length (take n xs) ≤ length xs
length-take zero xs = omega arith
length-take (suc n) [] = omega arith
length-take (suc n) (x ∷ xs) = omega (arith, length-take n xs)

length_page :
    (b : Bool) (xs : List Record)
    → length (map (λ r. project r []) (if b then [] else take 1000 xs)) ≤ length xs
length_page true xs = omega arith
length_page false xs = rw (length-map (λ r. project r []) (take 1000 xs)) (length-take 1000 xs)

module _ (a : Adapter) (m : String) (ws : List Where) (rows : Rows)
    (valid : validate_where ws true ≡ ok ws) where
  count_lem :
      (n : ℕ) (after : Rows)
      → count a (counted m ws) rows ≡ (ok n, after)
      → (after ≡ rows) × (n ≤ length (matching a.printer ws (table rows m)))
  unfolding count find_many find_page sort_rows project reads lift pure
  count_lem n after h =
      let xs = matching a.printer ws (table rows m) in
      let counted_rows : count a (counted m ws) rows ≡ (
        ok (length (map (λ r. project r []) (if leb (length xs) 0 then [] else take 1000 xs))),
        rows,
      ) =
        >>=-run _ _ rows rows _ (>>=-run _ _ rows rows ws (λ i. (valid i, rows))) in
      let both = sym counted_rows ∙ h in
      (ground (arith, both), rw (the_count both) (length_page (leb (length xs) 0) xs))
    where
      the_count : {k : ℕ} → ◌≡◌ {A = Result ℕ × Rows} (ok k, rows) (ok n, after) → n ≡ k
      the_count e = ground (arith, e)

module _ (a : Adapter) (q : DeleteQuery) (rows after : Rows)
    (valid : validate_where q.predicate false ≡ ok q.predicate) where
  deleted_one :
      (o : Option (String × Record))
      → delete_found q o rows ≡ (ok tt, after)
      → (x : String) × ((j : String)
          → (x == j) ≡ false
          → lookup j (table after q.model) ≡ lookup j (table rows q.model))
  unfolding delete_found
  deleted_one none h = ("", λ j other. ground arith)
  deleted_one (some (id, r)) h = (
    id,
    λ j other.
        ap (λ (x : Result (Unit {0}) × Rows). lookup j (table x.1 q.model)) (sym h)
        ∙ table-erase q.model q.model id rows j
        ∙ rw (eq_refl q.model, other) refl,
  )

abbrev of_user : String → List Where
of_user user = equals "userId" (text user) ∷ []

of_user-valid : (user : String) → validate_where (of_user user) true ≡ ok (of_user user)
unfolding validate_where validate_items validate_item
of_user-valid user = refl

abbrev the_account : String → String → DeleteQuery
the_account id user =
    rows_where model_account (equals "id" (text id) ∷ equals "userId" (text user) ∷ [])

the_account-valid :
    (id user : String)
    → validate_where (the_account id user).predicate false ≡ ok (the_account id user).predicate
unfolding validate_where validate_items validate_item
the_account-valid id user = refl

-- an account row of the user
abbrev pub HasAccount : String → Rows → Type 0
HasAccount user rows =
    (j : String) × (r : Record) × (lookup j (table rows model_account) ≡ some r)
    × (field r "userId" ≡ text user)

module _ (a : Adapter) (user : String) where
  owner_of :
      (t : Table) (j : String) (r : Record)
      → Selected a.printer (of_user user) t j r
      → field r "userId" ≡ text user
  owner_of t j r sel = deep_equal-text _ user (
      ground (
        arith,
        sel.hit,
        matches-ands a.printer r (of_user user) refl,
        holds-equals a.printer r "userId" (text user),
      ))

  still_there :
      (x : String) (rows after : Rows)
      → ((j : String)
          → (x == j) ≡ false
          → lookup j (table after model_account) ≡ lookup j (table rows model_account))
      → (first second : ASelected a.printer (of_user user) (table rows model_account))
      → (first.0 == second.0) ≡ false
      → HasAccount user after
  still_there x rows after kept (i, q, one) (j, s, two) apart = elim (text_cases x i) [
    | inl same ↦ (
      j,
      s,
      kept j (ap (λ k. k == j) same ∙ apart) ∙ two.here,
      owner_of (table rows model_account) j s two,
    )
    | inr other ↦ (i, q, kept i other ∙ one.here, owner_of (table rows model_account) i q one)
  ]

  not_last :
      (rows t : Rows) (u : Unit {0})
      → check_not_last a user false rows ≡ (ok u, t)
      → (t ≡ rows)
        × (leb (length (matching a.printer (of_user user) (table rows model_account))) 1 ≡ false)
  unfolding check_not_last
  not_last rows t u h =
      let (n, s, counted_n, rest) = >>=-ok _ _ rows t u h in
      let (many, done) = unless-ok (leb n 1) _ _ u s t rest in
      let (same, bound) =
        count_lem a model_account (of_user user) rows (of_user-valid user) n s counted_n in
      let end : s ≡ t = (pure-ok tt u s t done).1 in (sym end ∙ same, ground (arith, many, bound))

  delete_remains :
      (id : String) (rows after : Rows)
      → DistinctKeys (table rows model_account)
      → leb (length (matching a.printer (of_user user) (table rows model_account))) 1 ≡ false
      → delete a (the_account id user) rows ≡ (ok tt, after)
      → HasAccount user after
  unfolding delete delete_first lift
  delete_remains id rows after d many h =
      let ran =
        sym (
          >>=-run _ _ rows rows (the_account id user).predicate
            (λ i. (the_account-valid id user i, rows)))
        ∙ h in
      let (x, kept) =
        deleted_one a (the_account id user) rows after (the_account-valid id user) _ ran in
      let (first, second, apart) =
        two_selected a.printer (of_user user) (table rows model_account) d many in
      still_there x rows after kept first second apart

  -- On well-formed tables, an UnlinkAccount that may not unlink the last account, and that succeeds, leaves the user an
  -- account.
  pub unlink_account-HasAccount :
      (provider account : String) (rows after : Rows)
      → WellFormed a rows
      → unlink_account a user provider account false rows ≡ (ok tt, after)
      → HasAccount user after
  unfolding unlink_account
  unlink_account-HasAccount provider account rows after v h =
      let (u, t1, checked, rest1) = >>=-ok _ _ rows after tt (atomically-ok _ rows after tt h) in
      let (same1, many) = not_last rows t1 u checked in
      let (row, t2, found, rest2) = >>=-ok _ _ t1 after tt rest1 in
      let same2 : t2 ≡ t1 =
        ap (λ (x : Result (Option Record) × Rows). x.1) (sym found)
        ∙ (find_one-Preserves a {P = λ s. s ≡ t1} _).after t1 refl in
      let (r, t3, required, rest3) = >>=-ok _ _ t2 after tt rest2 in
      let (id, t4, read, last) = >>=-ok _ _ t3 after tt rest3 in
      let same : t4 ≡ rows =
        sym (lift-ok _ id t3 t4 read).1
        ∙ sym (require-ok _ row t2 t3 r required).1
        ∙ same2
        ∙ same1 in
      delete_remains id rows after (v.at model_account).distinct many (rw same at last)
