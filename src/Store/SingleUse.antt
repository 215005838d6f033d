-- ===== src/Store/SingleUse.antt =====
-- The one-time tokens of store.go: a token that was consumed is consumed by no later call.
use better_auth_go.Prelude.{
  ℕ, String, ◌≡◌, refl, sym, ap, ◌∙◌, ◌≢◌, inl, inr, true, false, ◌&&◌, List, [], ◌∷◌, none, some,
  lookup, arith, text_cases, ◌==◌, eq_refl, eq_iff, Bool-cases, if◌then◌else◌,
}
use better_auth_go.Action.{replay, ok, err}
use better_auth_go.Action.Inversion.{>>=-ok, >>=-run}
use better_auth_go.Value.{Value, Record, text, instant, field}
use better_auth_go.Value.Equality.{deep_equal}
use better_auth_go.Database.{
  Where, and_connector, sensitive, equals, operator_on, gt, validate_where, validate_items,
  validate_item,
}
use better_auth_go.Schema.{model_verification}
use better_auth_go.Memory.Match.{Printer, matches}
use better_auth_go.Memory.Table.{Rows, table}
use better_auth_go.Memory.WellFormed.{WellFormed}
use better_auth_go.Memory.Effects.{
  NoneSelected, Consumed, consume-Consumed, consume-NoneSelected, table-erase,
}
use better_auth_go.Memory.Semantics.{matches-ands, holds, holds-equals, deep_equal-text}
use better_auth_go.Store.Core.{core_memory, unique_keys-verification, same_text-same_id}
use better_auth_go.Store.Queries.{rows_where, live_token, require-ok, require-none}
use better_auth_go.Store.Tokens.{consume_token}

-- what ValidateWhere makes of a condition without connector and mode
abbrev pub checked : Where → Where
checked w = record w { connector = and_connector; mode = sensitive }

abbrev pub checked_token : Where → String → ℕ → List Where
checked_token identifier hash now =
    checked identifier
    ∷ equals "value" (text hash)
    ∷ checked (operator_on "expiresAt" gt (instant now))
    ∷ []

value-valid : (v : Value) → validate_item (equals "value" v) ≡ ok (equals "value" v)
unfolding validate_item
value-valid v = refl

expires-valid :
    (v : Value)
    → validate_item (operator_on "expiresAt" gt v) ≡ ok (checked (operator_on "expiresAt" gt v))
unfolding validate_item
expires-valid v = refl

pub live_token-valid :
    (identifier : Where) (hash : String) (now : ℕ)
    → validate_item identifier ≡ ok (checked identifier)
    → validate_where (live_token identifier hash (instant now)) false
      ≡ ok (checked_token identifier hash now)
unfolding validate_where validate_items
live_token-valid identifier hash now valid =
    rw (valid, value-valid (text hash), expires-valid (instant now)) refl

-- No verification row holds the token hash.
abbrev pub NoToken : String → Rows → Type 0
NoToken hash rows =
    (id : String) (r : Record)
    → lookup id (table rows model_verification) ≡ some r
    → field r "value" ≢ text hash

module _ (p : Printer) (identifier : Where) (hash : String) (now : ℕ) where
  pub matches-token :
      (r : Record)
      → matches p r (checked_token identifier hash now) ≡ (
          holds p r (checked identifier)
          && (deep_equal (field r "value") (text hash)
              && (holds p r (checked (operator_on "expiresAt" gt (instant now))) && true)))
  matches-token r =
      matches-ands p r (checked_token identifier hash now) refl
      ∙ rw (holds-equals p r "value" (text hash))

  NoToken-NoneSelected :
      (rows : Rows)
      → NoToken hash rows
      → NoneSelected p (checked_token identifier hash now) (table rows model_verification)
  NoToken-NoneSelected rows n id r e =
      elim (Bool-cases (matches p r (checked_token identifier hash now))) [
        | inl hit ↦ absurd (n id r e (deep_equal-text _ hash (ground (arith, matches-token r))))
        | inr miss ↦ miss
      ]

  Consumed-NoToken :
      (rows after : Rows) (r : Record)
      → WellFormed (core_memory p) rows
      → Consumed (core_memory p) model_verification (checked_token identifier hash now) rows r after
      → NoToken hash after
  Consumed-NoToken rows after r v c id s e f = elim (text_cases c.id id) [
    | inl same ↦ ground (arith, sym later ∙ e, eq_refl model_verification, eq_iff c.id id)
    | inr other ↦ ground (
      arith,
      other,
      eq_refl id,
      ap (λ x. x == id)
          (same_text-same_id (core_memory p) rows v model_verification "value" hash c.id id r s
            (unique_keys-verification p) c.selected.here
            (ground (arith, sym later ∙ e, other, eq_refl model_verification)) hash_of f),
    )
  ]
    where
      later : lookup id (table after model_verification) ≡ (
          if model_verification == model_verification
          then (if c.id == id then none else lookup id (table rows model_verification))
          else lookup id (table rows model_verification))
      later =
          ap (λ x. lookup id (table x model_verification)) c.erased
          ∙ table-erase model_verification model_verification c.id rows id

      hash_of : field r "value" ≡ text hash
      hash_of = deep_equal-text _ hash (ground (arith, matches-token r, c.selected.hit))

  module _ (valid : validate_item identifier ≡ ok (checked identifier)) where
    pub consume_token-NoToken :
        (rows after : Rows) (r : Record)
        → WellFormed (core_memory p) rows
        → consume_token (core_memory p) identifier hash now rows ≡ (ok r, after)
        → NoToken hash after
    unfolding consume_token
    consume_token-NoToken rows after r v h =
        let (o, mid, ran, last) = >>=-ok _ _ rows after r h in
        let (found, same) = require-ok replay o mid after r last in
        rw same at (
          Consumed-NoToken rows mid r v (
            consume-Consumed (core_memory p)
              (rows_where model_verification (live_token identifier hash (instant now)))
              (checked_token identifier hash now) rows mid r
              (live_token-valid identifier hash now valid) (v.at model_verification).distinct
              (rw found at ran)))

    pub NoToken-consume_token :
        (rows : Rows)
        → WellFormed (core_memory p) rows
        → NoToken hash rows
        → consume_token (core_memory p) identifier hash now rows ≡ (err replay, rows)
    unfolding consume_token
    NoToken-consume_token rows v n =
        >>=-run _ _ rows rows none (
          consume-NoneSelected (core_memory p)
            (rows_where model_verification (live_token identifier hash (instant now)))
            (checked_token identifier hash now) rows (live_token-valid identifier hash now valid)
            (v.at model_verification).distinct (NoToken-NoneSelected rows n))
        ∙ require-none replay rows
