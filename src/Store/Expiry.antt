-- ===== src/Store/Expiry.antt =====
-- The expiry of one-time tokens: from its `expiresAt` on, a token is refused to every use.
use better_auth_go.Prelude.{
  ℕ, String, ◌≡◌, refl, sym, ap, ◌∙◌, inl, inr, true, false, none, some, lookup, arith, leb,
  compare, Ordering, Bool-cases,
}
use better_auth_go.Action.{replay, err}
use better_auth_go.Action.Inversion.{>>=-run}
use better_auth_go.Value.{Record, text, instant, field}
use better_auth_go.Database.{Where, operator_on, gt}
use better_auth_go.Schema.{model_verification}
use better_auth_go.Memory.Match.{Printer, matches, match_one, compare_values, test}
use better_auth_go.Memory.Table.{Rows, table}
use better_auth_go.Memory.WellFormed.{WellFormed}
use better_auth_go.Memory.Effects.{NoneSelected, consume-NoneSelected}
use better_auth_go.Memory.Semantics.{holds, deep_equal-text}
use better_auth_go.Store.Core.{core_memory, unique_keys-verification, same_text-same_id}
use better_auth_go.Store.Queries.{require-none, rows_where, live_token}
use better_auth_go.Store.Tokens.{consume_token}
use better_auth_go.Store.SingleUse.{checked, checked_token, live_token-valid, matches-token}
use better_auth_go.Store.TokenUses.{TokenUse, use_token, refused_use_token}

not_after :
    (o : Ordering)
    → (elim o [ Ordering.gt ↦ false | _ ↦ true ]) ≡ true
    → (elim o [ Ordering.gt ↦ true | _ ↦ false ]) ≡ false
not_after Ordering.lt h = refl
not_after Ordering.eq h = refl
not_after Ordering.gt h = ground arith

-- the condition that a token has not expired
abbrev unexpired : ℕ → Where
unexpired now = checked (operator_on "expiresAt" gt (instant now))

expired-holds :
    (p : Printer) (r : Record) (x now : ℕ)
    → field r "expiresAt" ≡ instant x
    → leb x now ≡ true
    → holds p r (unexpired now) ≡ false
unfolding match_one test compare_values
expired-holds p r x now e h = rw e (not_after (compare x now) h)

module _ (p : Printer) (hash : String) (now x : ℕ) (id : String) (r : Record) (rows : Rows) where
  expired-NoneSelected :
      (w : Where)
      → WellFormed (core_memory p) rows
      → lookup id (table rows model_verification) ≡ some r
      → field r "value" ≡ text hash
      → field r "expiresAt" ≡ instant x
      → leb x now ≡ true
      → NoneSelected p (checked_token w hash now) (table rows model_verification)
  expired-NoneSelected w v here value expires late j s e =
      elim (Bool-cases (matches p s (checked_token w hash now))) [
        | inl hit ↦
            let of_hash : field s "value" ≡ text hash =
              deep_equal-text _ hash (ground (arith, matches-token p w hash now s)) in
            let same : id ≡ j =
              same_text-same_id (core_memory p) rows v model_verification "value" hash id j r s
                (unique_keys-verification p) here e value of_hash in
            let row : some r ≡ some s =
              sym here ∙ ap (λ k. lookup k (table rows model_verification)) same ∙ e in
            let rows_same : r ≡ s = cc row in
            absurd (
              ground (
                arith,
                hit,
                matches-token p w hash now s,
                ap (λ q. holds p q (unexpired now)) rows_same,
                expired-holds p r x now expires late,
              ))
        | inr miss ↦ miss
      ]

  -- On well-formed tables, where the row of a token hash expires at or before now, every use of the hash returns
  -- ErrReplay and changes nothing.
  pub use_token_expired :
      (u : TokenUse)
      → WellFormed (core_memory p) rows
      → lookup id (table rows model_verification) ≡ some r
      → field r "value" ≡ text hash
      → field r "expiresAt" ≡ instant x
      → leb x now ≡ true
      → use_token p u hash now rows ≡ (err replay, rows)
  unfolding consume_token
  use_token_expired u v here value expires late = refused_use_token p hash now u rows λ w valid.
      >>=-run _ _ rows rows none (
        consume-NoneSelected (core_memory p)
          (rows_where model_verification (live_token w hash (instant now)))
          (checked_token w hash now) rows (live_token-valid w hash now valid)
          (v.at model_verification).distinct (expired-NoneSelected w v here value expires late))
      ∙ require-none replay rows
