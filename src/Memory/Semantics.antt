-- ===== src/Memory/Semantics.antt =====
-- What a predicate means: every AND condition holds, and one of the OR conditions where there are any.
use better_auth_go.Prelude.{
  String, ◌≡◌, refl, ap, ◌∙◌, Bool, true, false, not, ◌&&◌, ◌||◌, List, [], ◌∷◌, all, any, eq_iff,
  eq_refl, arith, if◌then◌else◌,
}
use better_auth_go.Value.{Value, Record, scalar, text, nil, field}
use better_auth_go.Value.Equality.{deep_equal}
use better_auth_go.Database.{Where, equals}
use better_auth_go.Memory.Match.{Printer, matches, matches_loop, match_one, is_or}

-- the condition holds of the record
abbrev pub holds : Printer → Record → Where → Bool
holds p r w = match_one p (field r w.on_field) w

abbrev pub is_and_holds : Printer → Record → Where → Bool
is_and_holds p r w = is_or w.connector || holds p r w

abbrev pub is_or_holds : Printer → Record → Where → Bool
is_or_holds p r w = is_or w.connector && holds p r w

loop-meaning :
    (p : Printer) (r : Record) (x o y : Bool) (ws : List Where)
    → matches_loop p r x o y ws ≡ (
        (x && all (is_and_holds p r) ws)
        && (not (o || any (λ w. is_or w.connector) ws) || (y || any (is_or_holds p r) ws)))
unfolding matches_loop
loop-meaning p r x o y [] = ground arith
loop-meaning p r x o y (w ∷ ws) =
    let c = is_or w.connector in
    let h = holds p r w in
    loop-meaning p r (if c then x else x && h) (if c then true else o) (if c then y || h else y) ws
    ∙ ground arith

-- A record matches a predicate exactly when it meets every AND condition, and one OR condition where there is one.
pub matches-meaning :
    (p : Printer) (r : Record) (ws : List Where)
    → matches p r ws ≡ (
        all (is_and_holds p r) ws
        && (not (any (λ w. is_or w.connector) ws) || any (is_or_holds p r) ws))
unfolding matches
matches-meaning p r [] = refl
matches-meaning p r (w ∷ ws) = loop-meaning p r true false false (w ∷ ws)

-- A predicate without OR conditions is a conjunction.
pub matches-ands :
    (p : Printer) (r : Record) (ws : List Where)
    → any (λ w. is_or w.connector) ws ≡ false
    → matches p r ws ≡ all (holds p r) ws
matches-ands p r ws none = matches-meaning p r ws ∙ rw none (ands ws none)
  where
    ands :
        (ws : List Where)
        → any (λ w. is_or w.connector) ws ≡ false
        → (all (is_and_holds p r) ws && true) ≡ all (holds p r) ws
    ands [] h = refl
    ands (w ∷ ws) h = ground (arith, ands ws)

pub deep_equal-text : (v : Value) (s : String) → deep_equal v (text s) ≡ true → v ≡ text s
unfolding deep_equal
deep_equal-text (text t) s h = ap text ((eq_iff t s).0 h)
deep_equal-text (nil) s h = cc
deep_equal-text (scalar v) s h = cc
deep_equal-text v s h = cc

pub text-deep_equal : (s : String) → deep_equal (text s) (text s) ≡ true
unfolding deep_equal
text-deep_equal s = eq_refl s

pub deep_equal-nil : (v : Value) → deep_equal v nil ≡ true → v ≡ nil
unfolding deep_equal
deep_equal-nil nil h = refl
deep_equal-nil (scalar v) h = cc
deep_equal-nil v h = cc

pub nil-deep_equal : deep_equal nil nil ≡ true
unfolding deep_equal
nil-deep_equal = refl

pub holds-equals :
    (p : Printer) (r : Record) (f : String) (v : Value)
    → holds p r (equals f v) ≡ deep_equal (field r f) v
unfolding match_one
holds-equals p r f v = refl
