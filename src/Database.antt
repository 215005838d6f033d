-- ===== src/Database.antt =====
-- database.go: the queries of a `DatabaseAdapter`, and `ValidateWhere`, which every adapter calls
-- before it evaluates a predicate. The operators, connectors and modes are Go strings: `unset` is "", and any
-- other text than the declared ones is `other_operator` and so on. The context argument is not modelled.
pub mod Validated
use better_auth_go.Prelude.{
  String, Bool, true, false, List, [], ◌∷◌, Option, none, ◌==◌, Assoc, if◌then◌else◌,
}
use better_auth_go.Prelude.Int.{ℤ, pos}
use better_auth_go.Action.{Result, ok, err, failure}
use better_auth_go.Value.{Value, Record}

pub data WhereOperator : Type 0 where
  unset_operator eq ne lt lte gt gte in_list not_in contains starts_with ends_with : WhereOperator
  other_operator : String → WhereOperator

pub data WhereConnector : Type 0 where
  unset_connector and_connector or_connector : WhereConnector
  other_connector : String → WhereConnector

pub data StringMode : Type 0 where
  unset_mode sensitive insensitive : StringMode
  other_mode : String → StringMode

pub record Where : Type 0 where
  pub on_field : String
  pub operator : WhereOperator
  pub value : Value
  pub connector : WhereConnector
  pub mode : StringMode

-- Eq(field, value)
abbrev pub equals : String → Value → Where
equals f v = record {
  on_field = f;
  operator = eq;
  value = v;
  connector = and_connector;
  mode = sensitive;
}

-- Where{Field: field, Operator: WhereGT, Value: value}
abbrev pub operator_on : String → WhereOperator → Value → Where
operator_on f o v = record {
  on_field = f;
  operator = o;
  value = v;
  connector = unset_connector;
  mode = unset_mode;
}

pub record Sort : Type 0 where
  pub on_field : String
  pub direction : String

pub record Join : Type 0 where
  pub model : String
  pub from : String
  pub to : String
  pub limit : ℤ
  pub relation : String

pub record CreateQuery : Type 0 where
  pub model : String
  pub row : Record
  pub select : List String
  pub force_allow_id : Bool

pub record FindOneQuery : Type 0 where
  pub model : String
  pub predicate : List Where
  pub select : List String
  pub joins : List Join

pub record FindManyQuery : Type 0 where
  pub model : String
  pub predicate : List Where
  pub limit : ℤ
  pub offset : ℤ
  pub select : List String
  pub sort : Option Sort
  pub joins : List Join

pub record CountQuery : Type 0 where
  pub model : String
  pub predicate : List Where

pub record UpdateQuery : Type 0 where
  pub model : String
  pub predicate : List Where
  pub update : Record

pub record DeleteQuery : Type 0 where
  pub model : String
  pub predicate : List Where

pub record IncrementQuery : Type 0 where
  pub model : String
  pub predicate : List Where
  pub increment : Assoc ℤ
  pub set : Record

-- the three defaulting blocks of the loop in ValidateWhere
unfoldable pub checked_operator : WhereOperator → Result WhereOperator
checked_operator unset_operator = ok eq
checked_operator (other_operator s) = err (failure "unsupported where operator")
checked_operator o = ok o

unfoldable pub checked_connector : WhereConnector → Result WhereConnector
checked_connector unset_connector = ok and_connector
checked_connector (other_connector s) = err (failure "unsupported where connector")
checked_connector c = ok c

unfoldable pub checked_mode : StringMode → Result StringMode
checked_mode unset_mode = ok sensitive
checked_mode (other_mode s) = err (failure "unsupported string mode")
checked_mode m = ok m

infixl 10 ◌>>=◌
abbrev ◌>>=◌ : {A B : Type 0} → Result A → (A → Result B) → Result B
ok a >>= f = f a
err e >>= f = err e

unfoldable pub validate_item : Where → Result Where
unfolding checked_operator checked_connector checked_mode
validate_item w = if w.on_field == "" then err (failure "where field is required") else do
  o ← checked_operator w.operator
  c ← checked_connector w.connector
  m ← checked_mode w.mode
  ok (record w { operator = o; connector = c; mode = m })

unfoldable pub validate_items : List Where → Result (List Where)
validate_items [] = ok []
validate_items (w ∷ ws) = do v ← validate_item w; vs ← validate_items ws; ok (v ∷ vs)

abbrev is_empty {ℓ} : {A : Type ℓ} → List A → Bool
is_empty [] = true
is_empty (x ∷ xs) = false

-- ValidateWhere(where, allowEmpty)
unfoldable pub validate_where : List Where → Bool → Result (List Where)
validate_where [] false = err (failure "empty where clause is unsafe")
validate_where ws allow_empty = validate_items ws
