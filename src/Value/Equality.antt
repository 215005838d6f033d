-- ===== src/Value/Equality.antt =====
-- reflect.DeepEqual on the values of a record: equal dynamic types and equal contents, maps as sets of entries.
use better_auth_go.Prelude.{
  ℕ, String, ◌≡◌, refl, Bool, true, false, ◌&&◌, none, some, List, [], ◌∷◌, Assoc, lookup, compare,
  Ordering, arith, ◌==◌, eq_iff,
}
use better_auth_go.Prelude.Int.{ℤ, pos, negsuc}
use better_auth_go.Value.Types.{
  Scalar, null, str, bool, int, int64, float64, float32, time, Value, scalar, strings, any_list,
  string_map, any_map, request, request,
}

abbrev nat_equal : ℕ → ℕ → Bool
nat_equal a b = elim (compare a b) [ Ordering.eq ↦ true | _ ↦ false ]

abbrev int_equal : ℤ → ℤ → Bool
int_equal (pos a) (pos b) = nat_equal a b
int_equal (negsuc a) (negsuc b) = nat_equal a b
int_equal _ _ = false

abbrev bool_equal : Bool → Bool → Bool
bool_equal true b = b
bool_equal false true = false
bool_equal false false = true

unfoldable pub scalar_equal : Scalar → Scalar → Bool
scalar_equal null null = true
scalar_equal (str a) (str b) = a == b
scalar_equal (bool a) (bool b) = bool_equal a b
scalar_equal (int a) (int b) = int_equal a b
scalar_equal (int64 a) (int64 b) = int_equal a b
scalar_equal (float64 a) (float64 b) = int_equal a b
scalar_equal (float32 a) (float32 b) = int_equal a b
scalar_equal (time a) (time b) = nat_equal a b
scalar_equal _ _ = false

module _ {A : Type 0} (equal : A → A → Bool) where
  list_equal : List A → List A → Bool
  list_equal [] [] = true
  list_equal (x ∷ xs) (y ∷ ys) = equal x y && list_equal xs ys
  list_equal _ _ = false

  -- every entry of the first map has an equal value in the second
  within : Assoc A → Assoc A → Bool
  within [] b = true
  within ((k, v) ∷ a) b = elim (lookup k b) [ none ↦ false | some w ↦ equal v w ] && within a b

  map_equal : Assoc A → Assoc A → Bool
  map_equal a b = within a b && within b a

unfoldable pub deep_equal : Value → Value → Bool
unfolding scalar_equal list_equal map_equal within
deep_equal (scalar a) (scalar b) = scalar_equal a b
deep_equal (strings a) (strings b) = list_equal ◌==◌ a b
deep_equal (any_list a) (any_list b) = list_equal scalar_equal a b
deep_equal (string_map a) (string_map b) = map_equal ◌==◌ a b
deep_equal (any_map a) (any_map b) = map_equal scalar_equal a b
deep_equal (request a b c) (request a' b' c') = a == a' && b == b' && c == c'
deep_equal _ _ = false

nat_equal_symm : (a b : ℕ) → nat_equal a b ≡ nat_equal b a
nat_equal_symm a b = ground arith

int_equal_symm : (a b : ℤ) → int_equal a b ≡ int_equal b a
int_equal_symm (pos a) (pos b) = nat_equal_symm a b
int_equal_symm (negsuc a) (negsuc b) = nat_equal_symm a b
int_equal_symm (pos a) (negsuc b) = refl
int_equal_symm (negsuc a) (pos b) = refl

eq_symm : (s t : String) → (s == t) ≡ (t == s)
eq_symm s t = ground (arith, eq_iff s t, eq_iff t s)

bool_equal_symm : (a b : Bool) → bool_equal a b ≡ bool_equal b a
bool_equal_symm a b = ground arith

scalar_equal_symm : (a b : Scalar) → scalar_equal a b ≡ scalar_equal b a
unfolding scalar_equal
scalar_equal_symm null null = refl
scalar_equal_symm (str a) (str b) = eq_symm a b
scalar_equal_symm (bool a) (bool b) = bool_equal_symm a b
scalar_equal_symm (int a) (int b) = int_equal_symm a b
scalar_equal_symm (int64 a) (int64 b) = int_equal_symm a b
scalar_equal_symm (float64 a) (float64 b) = int_equal_symm a b
scalar_equal_symm (float32 a) (float32 b) = int_equal_symm a b
scalar_equal_symm (time a) (time b) = nat_equal_symm a b
scalar_equal_symm _ _ = refl

module _ {A : Type 0} (equal : A → A → Bool) (symm : (a b : A) → equal a b ≡ equal b a) where
  list_equal_symm : (a b : List A) → list_equal equal a b ≡ list_equal equal b a
  unfolding list_equal
  list_equal_symm [] [] = refl
  list_equal_symm [] (y ∷ ys) = refl
  list_equal_symm (x ∷ xs) [] = refl
  list_equal_symm (x ∷ xs) (y ∷ ys) = ground (arith, symm x y, list_equal_symm xs ys)

module _ {A : Type 0} (equal : A → A → Bool) where
  map_equal_symm : (a b : Assoc A) → map_equal equal a b ≡ map_equal equal b a
  unfolding map_equal
  map_equal_symm a b = ground arith

-- Deep equality does not depend on the order of its arguments.
pub deep_equal_symm : (a b : Value) → deep_equal a b ≡ deep_equal b a
unfolding deep_equal
deep_equal_symm (scalar a) (scalar b) = scalar_equal_symm a b
deep_equal_symm (strings a) (strings b) = list_equal_symm ◌==◌ eq_symm a b
deep_equal_symm (any_list a) (any_list b) = list_equal_symm scalar_equal scalar_equal_symm a b
deep_equal_symm (string_map a) (string_map b) = map_equal_symm ◌==◌ a b
deep_equal_symm (any_map a) (any_map b) = map_equal_symm scalar_equal a b
deep_equal_symm (request a b c) (request a' b' c') =
    ground (arith, eq_symm a a', eq_symm b b', eq_symm c c')
deep_equal_symm _ _ = refl
