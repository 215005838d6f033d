-- ===== src/Memory/Increment.antt =====
-- IncrementOne of the adapter keeps its tables well formed.
use better_auth_go.Memory.Invariant.{found_row, update_row-WellFormed}
use better_auth_go.Prelude.{
  String, ◌≡◌, refl, ap, ◌≢◌, inl, inr, List, [], ◌∷◌, Option, none, some, Assoc, put, arith,
  Option-cases, text_cases,
}
use better_auth_go.Prelude.Int.{ℤ, ◌+ℤ◌}
use better_auth_go.Action.{Result, ok, err, pure, lift, ◌>>=◌}
use better_auth_go.Action.Preserves.{
  Preserves, throw-Preserves, proceed-Preserves, pure-Preserves, bind-Preserves, lift-Preserves,
  if-Preserves,
}
use better_auth_go.Value.{Record, text, field, scalar, float64}
use better_auth_go.Database.{Where, IncrementQuery}
use better_auth_go.Memory.Match.{number}
use better_auth_go.Memory.Table.{Adapter, Rows, table, id_field, find_row}
use better_auth_go.Memory.Methods.{
  update_row, increment_found, add_deltas, increment_first, increment_one,
}
use better_auth_go.Memory.WellFormed.{WellFormed, field-put}

number-text : (s : String) → number (text s) ≡ none
unfolding number
number-text s = refl

module _ (a : Adapter) where
  -- an increment fails at a field that holds a text, so it never reaches the id
  add_deltas-id :
      (id_name id : String) (deltas : Assoc ℤ) (r s : Record)
      → field r id_name ≡ text id
      → add_deltas deltas r ≡ ok s
      → field s id_name ≡ text id
  unfolding add_deltas
  add_deltas-id id_name id [] r s f h = ground arith
  add_deltas-id id_name id ((g, delta) ∷ deltas) r s f h =
      elim (Option-cases (number (field r g))) [
        | inl e ↦ cc (rw (e, add_deltas) at h)
        | inr (n, e) ↦ add_deltas-id id_name id deltas _ s (still n e) (rw (e, add_deltas) at h)
      ]
    where
      still :
          (n : ℤ)
          → number (field r g) ≡ some n
          → field (put g (scalar (float64 (n +ℤ delta))) r) id_name ≡ text id
      still n e = elim (text_cases g id_name) [
        | inl same ↦ cc (e, ap (λ x. number (field r x)) same, ap number f, number-text id)
        | inr other ↦ rw (field-put, other) f
      ]

  increment_found-WellFormed :
      (q : IncrementQuery) (ws : List Where) (s : Rows) (o : Option (String × Record))
      → find_row a.printer ws (table s q.model) ≡ o
      → WellFormed a s
      → WellFormed a (increment_found a q o s).1
  unfolding increment_found pure lift ◌>>=◌
  increment_found-WellFormed q ws s none e v = v
  increment_found-WellFormed q ws s (some (id, r)) e v =
      let (f, n) = found_row a q.model ws s id r v e in added f n (add_deltas q.increment r) refl
    where
      added :
          field r (id_field a q.model) ≡ text id
          → id ≢ ""
          → (res : Result Record) → add_deltas q.increment r ≡ res
          → WellFormed a ((do x ← lift res; u ← update_row a q.model q.set id x; pure (some u)) s).1
      added f n (err x) h = v
      added f n (ok x) h =
          proceed-Preserves {P = WellFormed a} (update_row a q.model q.set id x s).0
            (λ u. pure (some u)) _
            (update_row-WellFormed a q.model q.set id x s (add_deltas-id _ id q.increment r x f h) n
              v)
            (λ u. pure-Preserves (some u))

  increment_first-WellFormed :
      (q : IncrementQuery) (ws : List Where) → Preserves (WellFormed a) (increment_first a q ws)
  unfolding increment_first
  increment_first-WellFormed q ws = record {
    after = λ s v. increment_found-WellFormed q ws s _ refl v;
  }

  -- IncrementOne
  pub increment_one-WellFormed : (q : IncrementQuery) → Preserves (WellFormed a) (increment_one a q)
  unfolding increment_one
  increment_one-WellFormed q =
      bind-Preserves _ _ (lift-Preserves _)
        λ ws. if-Preserves _ _ _ (throw-Preserves _) (increment_first-WellFormed q ws)
