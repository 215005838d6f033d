-- ===== src/Store/Deletion.antt =====
-- DeleteUser of store.go: which rows it leaves.
use better_auth_go.Prelude.{
  ℕ, String, ◌≡◌, refl, sym, ap, ◌∙◌, inl, inr, Bool, true, false, not, ◌&&◌, ◌||◌, List, [], ◌∷◌,
  Option, none, some, lookup, arith, text_cases, ◌==◌, eq_refl, Option-cases, if◌then◌else◌,
}
use better_auth_go.Action.{ok, lift}
use better_auth_go.Action.Inversion.{>>=-run}
use better_auth_go.Value.{Record, text, field}
use better_auth_go.Value.Equality.{deep_equal}
use better_auth_go.Database.{Where, equals, validate_where, validate_items, validate_item}
use better_auth_go.Schema.{model_user, model_session, model_account}
use better_auth_go.Memory.Match.{Printer, matches}
use better_auth_go.Memory.Table.{Adapter, Rows, table, id_field, find_row}
use better_auth_go.Memory.Methods.{delete, delete_first, delete_found, delete_many}
use better_auth_go.Memory.WellFormed.{WellFormed, find_row-some, find_row-none}
use better_auth_go.Memory.Removal.{delete_many-WellFormed}
use better_auth_go.Memory.Bulk.{kept_by, delete_many-ok}
use better_auth_go.Memory.Effects.{table-erase}
use better_auth_go.Memory.Semantics.{matches-ands, holds-equals, deep_equal-text, text-deep_equal}
use better_auth_go.Memory.Transactions.{atomically-run}
use better_auth_go.Store.Core.{core_memory, id_field-user}
use better_auth_go.Store.Queries.{rows_where}
use better_auth_go.Store.Users.{delete_user}

abbrev one_equal : String → String → List Where
one_equal f s = equals f (text s) ∷ []

one_equal-valid :
    (f s : String) → (f == "") ≡ false → validate_where (one_equal f s) false ≡ ok (one_equal f s)
unfolding validate_where validate_items validate_item
one_equal-valid f s h = rw h refl

matches-one_equal :
    (p : Printer) (r : Record) (f s : String)
    → matches p r (one_equal f s) ≡ (deep_equal (field r f) (text s) && true)
matches-one_equal p r f s = matches-ands p r (one_equal f s) refl ∙ rw (holds-equals p r f (text s))

module _ (a : Adapter) (m x : String) (rows : Rows) (v : WellFormed a rows)
    (keyed : id_field a m ≡ "id") where
  delete-run :
      delete a (rows_where m (one_equal "id" x)) rows
      ≡ delete_found
          (rows_where m (one_equal "id" x))
          (find_row a.printer (one_equal "id" x) (table rows m))
          rows
  unfolding delete delete_first lift
  delete-run = >>=-run _ _ rows rows (one_equal "id" x) (λ i. (one_equal-valid "id" x refl i, rows))

  missing :
      find_row a.printer (one_equal "id" x) (table rows m) ≡ none → lookup x (table rows m) ≡ none
  missing e = elim (Option-cases (lookup x (table rows m))) [
    | inl none_there ↦ none_there
    | inr (r, there) ↦
        let id_is : field r "id" ≡ text x = ap (field r) (sym keyed) ∙ (v.at m).keyed x r there in
        absurd (
          ground (
            arith,
            find_row-none a.printer (one_equal "id" x) (table rows m) x r e there,
            matches-one_equal a.printer r "id" x,
            ap (λ w. deep_equal w (text x)) id_is,
            text-deep_equal x,
          ))
  ]

  found_id :
      (id : String) (r : Record)
      → find_row a.printer (one_equal "id" x) (table rows m) ≡ some (id, r)
      → id ≡ x
  found_id id r e =
      let (there, hit) =
        find_row-some a.printer (one_equal "id" x) (table rows m) id r (v.at m).distinct e in
      let id_is : field r "id" ≡ text x =
        deep_equal-text _ x (ground (arith, hit, matches-one_equal a.printer r "id" x)) in
      let named : text id ≡ text x = sym ((v.at m).keyed id r there) ∙ ap (field r) keyed ∙ id_is in
      cc named

  -- Delete by id: the row under the id goes, all others stay.
  deleted :
      (o : Option (String × Record))
      → find_row a.printer (one_equal "id" x) (table rows m) ≡ o
      → (n j : String)
      → lookup j (table (delete_found (rows_where m (one_equal "id" x)) o rows).1 n)
        ≡ (if (m == n) && (x == j) then none else lookup j (table rows n))
  unfolding delete_found
  deleted none e n j = elim (text_cases m n) [
    | inl same ↦ elim (text_cases x j) [
      | inl at_x ↦ rw (← same, ← at_x, eq_refl m, eq_refl x) (missing e)
      | inr other ↦ rw (other, ← same, eq_refl m) refl
    ]
    | inr other ↦ rw other refl
  ]
  deleted (some (id, r)) e n j = elim (text_cases m n) [
    | inl same ↦ table-erase m n id rows j ∙ rw (found_id id r e, ← same, eq_refl m) refl
    | inr other ↦ table-erase m n id rows j ∙ rw other refl
  ]

  delete_found-ok :
      (o : Option (String × Record))
      → (delete_found (rows_where m (one_equal "id" x)) o rows).0 ≡ ok tt
  unfolding delete_found
  delete_found-ok none = refl
  delete_found-ok (some (id, r)) = refl

  pub delete-by_id :
      ((delete a (rows_where m (one_equal "id" x)) rows).0 ≡ ok tt)
      × ((n j : String)
          → lookup j (table (delete a (rows_where m (one_equal "id" x)) rows).1 n)
            ≡ (if (m == n) && (x == j) then none else lookup j (table rows n)))
  delete-by_id = rw delete-run (delete_found-ok _, λ n j. deleted _ refl n j)

-- what DeleteUser leaves of a row under an id of a table
abbrev pub survives : String → String → String → Record → Bool
survives user m j r =
    if model_session == m || model_account == m
    then not (deep_equal (field r "userId") (text user))
    else not (model_user == m && user == j)

abbrev pub survivor : String → String → String → Option Record → Option Record
survivor user m j none = none
survivor user m j (some r) = if survives user m j r then some r else none

module _ (p : Printer) where
  abbrev unowned : String → Option Record → Option Record
  unowned user none = none
  unowned user (some r) = if deep_equal (field r "userId") (text user) then none else some r

  kept_by-unowned :
      (m user : String) (o : Option Record)
      → kept_by (core_memory p) (rows_where m (one_equal "userId" user)) o ≡ unowned user o
  kept_by-unowned m user none = refl
  kept_by-unowned m user (some r) = rw (matches-one_equal p r "userId" user) (ground arith)

  three_deletes :
      (user m j : String) (o o1 o2 o3 : Option Record)
      → o1 ≡ (if model_session == m then unowned user o else o)
      → o2 ≡ (if model_account == m then unowned user o1 else o1)
      → o3 ≡ (if (model_user == m) && (user == j) then none else o2)
      → o3 ≡ survivor user m j o
  three_deletes user m j o o1 o2 o3 e1 e2 e3 =
      rw (e3, e2, e1)
        (elim (text_cases model_session m) [
          | inl session ↦ rw (← session) (by_row o)
          | inr no_session ↦ rw no_session (elim (text_cases model_account m) [
            | inl account ↦ rw (← account) (by_row o)
            | inr no_account ↦ rw no_account (others no_session no_account o)
          ])
        ])
    where
      by_row : (o : Option Record) → unowned user o ≡ survivor user model_session j o
      by_row none = refl
      by_row (some r) = ground arith

      others :
          (model_session == m) ≡ false
          → (model_account == m) ≡ false
          → (o : Option Record)
          → (if (model_user == m) && (user == j) then none else o) ≡ survivor user m j o
      others s a none = ground arith
      others s a (some r) = ground arith

  -- the rows after each of the three deletions
  abbrev without_sessions : String → Rows → Rows
  without_sessions user rows =
      (delete_many (core_memory p) (rows_where model_session (one_equal "userId" user)) rows).1

  abbrev without_accounts : String → Rows → Rows
  without_accounts user rows =
      (delete_many (core_memory p) (rows_where model_account (one_equal "userId" user))
        (without_sessions user rows)).1

  abbrev without_user : String → Rows → Rows
  without_user user rows =
      (delete (core_memory p) (rows_where model_user (one_equal "id" user))
        (without_accounts user rows)).1

  delete_many_user :
      (m user : String) (rows : Rows)
      → WellFormed (core_memory p) rows
      → (k : ℕ) × (delete_many (core_memory p) (rows_where m (one_equal "userId" user)) rows
          ≡ (ok k, (delete_many (core_memory p) (rows_where m (one_equal "userId" user)) rows).1))
  delete_many_user m user rows v =
      let ((k, e), _) =
        delete_many-ok (core_memory p) (rows_where m (one_equal "userId" user)) rows
          (one_equal-valid "userId" user refl) (v.at m).distinct in
      (k, λ i. (e i, (delete_many (core_memory p) (rows_where m (one_equal "userId" user)) rows).1))

  swept :
      (n user : String) (rows : Rows)
      → WellFormed (core_memory p) rows
      → (m j : String)
      → lookup j
          (table (delete_many (core_memory p) (rows_where n (one_equal "userId" user)) rows).1 m)
        ≡ (if n == m then unowned user (lookup j (table rows m)) else lookup j (table rows m))
  swept n user rows v m j =
      (delete_many-ok (core_memory p) (rows_where n (one_equal "userId" user)) rows
          (one_equal-valid "userId" user refl) (v.at n).distinct).1
        m j
      ∙ rw (kept_by-unowned n user) refl

  delete_user-run :
      (user : String) (rows : Rows)
      → WellFormed (core_memory p) rows
      → delete_user (core_memory p) user rows ≡ (ok tt, without_user user rows)
  unfolding delete_user
  delete_user-run user rows v =
      let (k, e) = delete_many_user model_session user rows v in
      let v1 =
        (delete_many-WellFormed (core_memory p)
            (rows_where model_session (one_equal "userId" user))).after
          rows v in
      let (n, f) = delete_many_user model_account user (without_sessions user rows) v1 in
      let v2 =
        (delete_many-WellFormed (core_memory p)
            (rows_where model_account (one_equal "userId" user))).after
          _ v1 in
      let (done, _) =
        delete-by_id (core_memory p) model_user user (without_accounts user rows) v2
          (id_field-user p) in
      atomically-run _ rows (without_user user rows) tt (
        >>=-run _ _ rows (without_sessions user rows) k e
        ∙ >>=-run _ _ (without_sessions user rows) (without_accounts user rows) n f
        ∙ (λ i. (done i, without_user user rows)))

  -- On well-formed tables DeleteUser succeeds, and of the rows it leaves exactly those that are neither a session
  -- or an account with the user's id in `userId`, nor the user's own row.
  pub delete_user-ok :
      (user : String) (rows : Rows)
      → WellFormed (core_memory p) rows
      → ((delete_user (core_memory p) user rows).0 ≡ ok tt)
        × ((m j : String)
            → lookup j (table (delete_user (core_memory p) user rows).1 m)
              ≡ survivor user m j (lookup j (table rows m)))
  delete_user-ok user rows v = rw (delete_user-run user rows v) (
    refl,
    λ m j.
        let v1 =
          (delete_many-WellFormed (core_memory p)
              (rows_where model_session (one_equal "userId" user))).after
            rows v in
        let v2 =
          (delete_many-WellFormed (core_memory p)
              (rows_where model_account (one_equal "userId" user))).after
            _ v1 in
        three_deletes user m j (lookup j (table rows m))
          (lookup j (table (without_sessions user rows) m))
          (lookup j (table (without_accounts user rows) m))
          (lookup j (table (without_user user rows) m)) (swept model_session user rows v m j)
          (swept model_account user (without_sessions user rows) v1 m j)
          ((delete-by_id (core_memory p) model_user user (without_accounts user rows) v2
              (id_field-user p)).1
            m j),
  )
