-- ===== src/Grants/Views.antt =====
-- The lists of grants that AuthorizationRegistry of crates/host-agent/src/authorization.rs makes.
use roammand.Base.{
  Bool, true, false, not, Option, none, some, List, [], ◌∷◌, Bytes, bytes_eq, if◌then◌else◌,
}
use roammand.Grants.{ControllerGrant, ControllerGrantView, controller_device_id_for}
use roammand.Grants.Maps.{bytes_lt}

abbrev pub GrantMap : Type 0
GrantMap = List (Bytes × ControllerGrantView)

-- `.as_ref().is_some_and(|grant| grant.grant_id == grant_id)`
unfoldable pub grant_is : Bytes → Option ControllerGrant → Bool
grant_is grant_id none = false
grant_is grant_id (some grant) = bytes_eq grant.grant_id grant_id

unfoldable pub has_grant_id : Bytes → ControllerGrantView → Bool
has_grant_id grant_id view = grant_is grant_id view.grant

-- The order of two keys of `sort_grants`: None is before Some.
unfoldable pub key_lt : Option Bytes → Option Bytes → Bool
key_lt none none = false
key_lt none (some b) = true
key_lt (some a) none = false
key_lt (some a) (some b) = bytes_lt a b

-- The stable sort of `sort_by`, by insertion.
unfoldable pub insert_grant :
    ControllerGrantView → List ControllerGrantView → List ControllerGrantView
insert_grant view [] = view ∷ []
insert_grant view (other ∷ grants) =
    let rest = insert_grant view grants in
    if key_lt (controller_device_id_for other) (controller_device_id_for view)
    then other ∷ rest
    else view ∷ other ∷ grants

unfoldable pub sort_grants : List ControllerGrantView → List ControllerGrantView
sort_grants [] = []
sort_grants (view ∷ grants) = insert_grant view (sort_grants grants)

-- `== Some(controller_id)`
unfoldable pub key_is : Bytes → Option Bytes → Bool
key_is controller_id none = false
key_is controller_id (some id) = bytes_eq id controller_id

unfoldable pub is_of : Bytes → ControllerGrantView → Bool
is_of controller_id view = key_is controller_id (controller_device_id_for view)

-- `iter_mut().find(..)` and the assignment to what it found
unfoldable pub replace_first :
    Bytes → ControllerGrantView → List ControllerGrantView → Option (List ControllerGrantView)
replace_first controller_id updated [] = none
replace_first controller_id updated (view ∷ grants) =
    let rest = replace_first controller_id updated grants in
    if is_of controller_id view
    then some (updated ∷ grants)
    else elim rest [ none ↦ none | some others ↦ some (view ∷ others) ]

-- `retain` on the grants of the other controllers
unfoldable pub retain_others : Bytes → List ControllerGrantView → List ControllerGrantView
retain_others controller_id [] = []
retain_others controller_id (view ∷ grants) =
    let rest = retain_others controller_id grants in
    if not (is_of controller_id view) then view ∷ rest else rest

-- `iter().find_map(..)`: the controller of the first grant with this identifier
unfoldable pub find_grant : Bytes → GrantMap → Option Bytes
find_grant grant_id [] = none
find_grant grant_id ((controller_id, view) ∷ grants) =
    let rest = find_grant grant_id grants in
    if has_grant_id grant_id view then some controller_id else rest

unfoldable pub any_grant_id : Bytes → List ControllerGrantView → Bool
any_grant_id grant_id [] = false
any_grant_id grant_id (view ∷ views) =
    let rest = any_grant_id grant_id views in if has_grant_id grant_id view then true else rest
