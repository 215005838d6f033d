-- ===== src/Database/Validated.antt =====
-- What `ValidateWhere` promises: a predicate that it returns is fully specified, and it returns
-- such a predicate unchanged.
use better_auth_go.Prelude.{◌≡◌, refl, Bool, true, false, List, [], ◌∷◌, ◌==◌, arith}
use better_auth_go.Action.{ok}
use better_auth_go.Database.{
  Where, WhereOperator, WhereConnector, StringMode, unset_operator, other_operator, unset_connector,
  other_connector, unset_mode, other_mode, validate_item, validate_items, validate_where,
}

-- a declared operator, connector or mode
abbrev pub is_known : WhereOperator → Bool
is_known unset_operator = false
is_known (other_operator s) = false
is_known _ = true

abbrev pub is_connected : WhereConnector → Bool
is_connected unset_connector = false
is_connected (other_connector s) = false
is_connected _ = true

abbrev pub is_mode : StringMode → Bool
is_mode unset_mode = false
is_mode (other_mode s) = false
is_mode _ = true

pub record IsSpecified (w : Where) : Type 0 where
  pub named : (w.on_field == "") ≡ false
  pub known : is_known w.operator ≡ true
  pub connected : is_connected w.connector ≡ true
  pub moded : is_mode w.mode ≡ true

abbrev pub AllSpecified : List Where → Type 0
AllSpecified [] = Unit
AllSpecified (w ∷ ws) = IsSpecified w × AllSpecified ws

validate_item-IsSpecified : (w v : Where) → validate_item w ≡ ok v → IsSpecified v
unfolding validate_item
validate_item-IsSpecified w v h = ground arith

validate_item_fixed : (w : Where) → IsSpecified w → validate_item w ≡ ok w
unfolding validate_item
validate_item_fixed w s = ground arith

pub validate_items-AllSpecified : (ws vs : List Where) → validate_items ws ≡ ok vs → AllSpecified vs
unfolding validate_items
validate_items-AllSpecified [] [] h = tt
validate_items-AllSpecified [] (v ∷ vs) h = cc
validate_items-AllSpecified (w ∷ ws) [] h = ground arith
validate_items-AllSpecified (w ∷ ws) (v ∷ vs) h =
    let parts : (validate_item w ≡ ok v) × (validate_items ws ≡ ok vs) =
      (ground arith, ground arith) in
    (validate_item-IsSpecified w v parts.0, validate_items-AllSpecified ws vs parts.1)

pub validate_items_fixed : (ws : List Where) → AllSpecified ws → validate_items ws ≡ ok ws
unfolding validate_items
validate_items_fixed [] h = refl
validate_items_fixed (w ∷ ws) h = rw (validate_item_fixed w h.0, validate_items_fixed ws h.1)

-- A predicate that ValidateWhere returns names a field, a declared operator, a connector and a mode in every
-- condition, and it is returned unchanged when it is checked again.
pub validate_where-AllSpecified :
    (ws vs : List Where) (allow_empty : Bool)
    → validate_where ws allow_empty ≡ ok vs
    → AllSpecified vs × (validate_where vs allow_empty ≡ ok vs)
unfolding validate_where validate_items
validate_where-AllSpecified [] vs true h = ground arith
validate_where-AllSpecified [] vs false h = cc
validate_where-AllSpecified (w ∷ ws) [] b h = ground arith
validate_where-AllSpecified (w ∷ ws) (v ∷ vs) b h =
    let all = validate_items-AllSpecified (w ∷ ws) (v ∷ vs) h in
    (all, validate_items_fixed (v ∷ vs) all)
