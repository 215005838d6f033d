-- ===== src/Prelude/Maps.antt =====
-- Go's maps with string keys, as association lists. The order of the entries stands for the order
-- in which a `range` loop visits them.
use Prim.Native.String.{String}
use mathlib.Core.Path.{◌≡◌, refl}
use mathlib.Core.Option.{Option, none, some}
use mathlib.Core.List.{List, [], ◌∷◌}
use native.Mathlib.Omega.{arith}
use text.Mathlib.Text.{◌==◌}
use text.Mathlib.TextEquality.{eq_iff}
use better_auth_go.Prelude.Tests.{if◌then◌else◌}

abbrev pub Assoc {ℓ} : Type ℓ → Type ℓ
Assoc V = List (String × V)

module _ {ℓ} {V : Type ℓ} where
  -- m[k], with the second result of the two-value form
  unfoldable pub lookup : String → Assoc V → Option V
  lookup k [] = none
  lookup k ((j, v) ∷ m) = if j == k then some v else lookup k m

  -- m[k] = v
  unfoldable pub put : String → V → Assoc V → Assoc V
  put k v [] = (k, v) ∷ []
  put k v ((j, w) ∷ m) = if j == k then (k, v) ∷ m else (j, w) ∷ put k v m

  -- delete(m, k)
  unfoldable pub remove : String → Assoc V → Assoc V
  remove k [] = []
  remove k ((j, v) ∷ m) = let rest = remove k m in if j == k then rest else (j, v) ∷ rest

  pub lookup-put :
      (k j : String) (v : V) (m : Assoc V)
      → lookup j (put k v m) ≡ (if k == j then some v else lookup j m)
  unfolding lookup put
  lookup-put k j v [] = refl
  lookup-put k j v ((i, w) ∷ m) =
      ground (arith, eq_iff k j, eq_iff i k, eq_iff i j, lookup-put k j v m)

  pub lookup-remove :
      (k j : String) (m : Assoc V) → lookup j (remove k m) ≡ (if k == j then none else lookup j m)
  unfolding lookup remove
  lookup-remove k j [] = ground arith
  lookup-remove k j ((i, w) ∷ m) =
      ground (arith, eq_iff k j, eq_iff i k, eq_iff i j, lookup-remove k j m)

  -- Every key stands once, as in a Go map.
  abbrev pub DistinctKeys : Assoc V → Type ℓ
  DistinctKeys [] = Unit
  DistinctKeys ((k, v) ∷ m) = (lookup k m ≡ none) × DistinctKeys m

  pub put-DistinctKeys :
      (k : String) (v : V) (m : Assoc V) → DistinctKeys m → DistinctKeys (put k v m)
  unfolding lookup put
  put-DistinctKeys k v [] d = (refl, tt)
  put-DistinctKeys k v ((j, w) ∷ m) d =
      ground (arith, eq_iff j k, eq_iff k j, lookup-put k j v m, put-DistinctKeys k v m d.1)

  pub remove-DistinctKeys : (k : String) (m : Assoc V) → DistinctKeys m → DistinctKeys (remove k m)
  unfolding lookup remove
  remove-DistinctKeys k [] d = tt
  remove-DistinctKeys k ((j, w) ∷ m) d =
      ground (arith, eq_iff k j, lookup-remove k j m, remove-DistinctKeys k m d.1)
