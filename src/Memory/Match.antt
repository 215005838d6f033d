-- ===== src/Memory/Match.antt =====
-- adapter/memory/memory.go, `matches`, `match`, `compare`, `number` and `project`: the evaluation of a
-- checked predicate on a record. What fmt.Sprint prints for other values than texts and booleans, and
-- strings.ToLower, are fields of `Printer`.
use Prim.Native.String.{compare as compare_text}
use better_auth_go.Prelude.{
  ℕ, String, Bool, true, false, not, ◌&&◌, ◌||◌, List, [], ◌∷◌, Option, none, some, any, lookup,
  put, compare, Ordering, ◌==◌, starts_with, if◌then◌else◌,
}
use better_auth_go.Prelude.Int.{ℤ, compare_ℤ}
use better_auth_go.Value.{
  int, int64, float64, float32, Value, scalar, strings, any_list, Record, text, flag, instant,
  field,
}
use better_auth_go.Value.Equality.{deep_equal}
use better_auth_go.Database.{
  Where, WhereOperator, WhereConnector, StringMode, eq, ne, lt, lte, gt, gte, in_list, not_in,
  contains, ends_with, unset_operator, other_operator, or_connector, insensitive,
}

pub record Printer : Type 0 where
  pub print_other : Value → String
  pub to_lower : String → String

-- fmt.Sprint(value)
unfoldable pub sprint : Printer → Value → String
sprint p (text s) = s
sprint p (flag true) = "true"
sprint p (flag false) = "false"
sprint p v = p.print_other v

-- number(value)
unfoldable pub number : Value → Option ℤ
number (scalar (int n)) = some n
number (scalar (int64 n)) = some n
number (scalar (float64 n)) = some n
number (scalar (float32 n)) = some n
number _ = none

abbrev moment : Value → Option ℕ
moment (instant t) = some t
moment _ = none

compare_numbers : Printer → Value → Value → Option ℤ → Option ℤ → Ordering
unfolding sprint
compare_numbers p l r (some a) (some b) = compare_ℤ a b
compare_numbers p l r _ _ = compare_text (sprint p l) (sprint p r)

compare_times : Printer → Value → Value → Option ℕ → Option ℕ → Ordering
unfolding compare_numbers number
compare_times p l r (some a) (some b) = compare a b
compare_times p l r _ _ = compare_numbers p l r (number l) (number r)

-- compare(left, right): times, then numbers, then what fmt.Sprint prints
unfoldable pub compare_values : Printer → Value → Value → Ordering
unfolding compare_times
compare_values p l r = compare_times p l r (moment l) (moment r)

-- strings.Contains and strings.HasSuffix
unfoldable pub has_substring : String → String → Bool
has_substring String.[] t = starts_with "" t
has_substring (String.◌∷◌ c s) t = starts_with (String.◌∷◌ c s) t || has_substring s t

unfoldable pub has_suffix : String → String → Bool
has_suffix String.[] t = "" == t
has_suffix (String.◌∷◌ c s) t = (String.◌∷◌ c s) == t || has_suffix s t

-- the loop of WhereIn over a slice; any other value holds no element
unfoldable pub is_member : Value → Value → Bool
unfolding deep_equal
is_member v (strings xs) = any (λ x. deep_equal v (text x)) xs
is_member v (any_list xs) = any (λ x. deep_equal v (scalar x)) xs
is_member v _ = false

abbrev is_lt : Ordering → Bool
is_lt Ordering.lt = true
is_lt _ = false

abbrev is_gt : Ordering → Bool
is_gt Ordering.gt = true
is_gt _ = false

-- the `switch condition.Operator`
unfoldable pub test : Printer → WhereOperator → Value → Value → Bool
test p eq a e = deep_equal a e
test p ne a e = not (deep_equal a e)
test p lt a e = is_lt (compare_values p a e)
test p lte a e = not (is_gt (compare_values p a e))
test p gt a e = is_gt (compare_values p a e)
test p gte a e = not (is_lt (compare_values p a e))
test p contains a e = has_substring (sprint p a) (sprint p e)
test p WhereOperator.starts_with a e = starts_with (sprint p a) (sprint p e)
test p ends_with a e = has_suffix (sprint p a) (sprint p e)
test p in_list a e = is_member a e
test p not_in a e = not (is_member a e)
test p unset_operator a e = false
test p (other_operator s) a e = false

abbrev is_insensitive : StringMode → Bool
is_insensitive insensitive = true
is_insensitive _ = false

abbrev folded : Printer → Value → Value
folded p v = text (p.to_lower (sprint p v))

-- match(actual, condition)
unfoldable pub match_one : Printer → Value → Where → Bool
unfolding test
match_one p actual w =
    if is_insensitive w.mode
    then test p w.operator (folded p actual) (folded p w.value)
    else test p w.operator actual w.value

abbrev pub is_or : WhereConnector → Bool
is_or or_connector = true
is_or _ = false

-- the loop of `matches`: andMatch, orPresent, orMatch
unfoldable pub matches_loop : Printer → Record → Bool → Bool → Bool → List Where → Bool
unfolding match_one field
matches_loop p r and_match or_present or_match [] = and_match && (not or_present || or_match)
matches_loop p r and_match or_present or_match (w ∷ ws) =
    let hit = match_one p (field r w.on_field) w in
    matches_loop p r (if is_or w.connector then and_match else and_match && hit)
      (if is_or w.connector then true else or_present)
      (if is_or w.connector then or_match || hit else or_match) ws

-- matches(record, where)
unfoldable pub matches : Printer → Record → List Where → Bool
unfolding matches_loop
matches p r [] = true
matches p r (w ∷ ws) = matches_loop p r true false false (w ∷ ws)

unfoldable pub projected : Record → List String → Record → Record
unfolding lookup put
projected r [] result = result
projected r (f ∷ fs) result =
    projected r fs (elim (lookup f r) [ none ↦ result | some v ↦ put f v result ])

-- project(record, fields)
unfoldable pub project : Record → List String → Record
unfolding projected
project r [] = r
project r (f ∷ fs) = projected r (f ∷ fs) []
