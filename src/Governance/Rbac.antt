-- ===== src/Governance/Rbac.antt =====
-- crates/waf-governance/src/rbac.rs: roles, permissions, and the role that a login's claims give.
pub mod Claims
use mathlib.Core.Option
use light_waf.Prelude.{
  ℕ, Bool, true, Option, none, some, List, [], ◌∷◌, Bytes, codes, ◌=bytes◌, find, leb, ◌==◌,
  if◌then◌else◌,
}

pub data Role : Type 0 where
  viewer operator admin : Role

-- the derived order
unfoldable pub rank : Role → ℕ
rank viewer = 0
rank operator = 1
rank admin = 2

pub data Permission : Type 0 where
  read_observability manage_alerts manage_users manage_tokens : Permission
  view_audit manage_config manage_rules view_captures : Permission

unfoldable pub allows : Role → Permission → Bool
unfolding rank
allows role read_observability = true
allows role manage_alerts = leb (rank operator) (rank role)
allows role manage_rules = leb (rank operator) (rank role)
allows role view_captures = leb (rank operator) (rank role)
allows role manage_users = rank role == rank admin
allows role manage_tokens = rank role == rank admin
allows role view_audit = rank role == rank admin
allows role manage_config = rank role == rank admin

unfoldable pub as_str : Role → Bytes
as_str viewer = codes "viewer"
as_str operator = codes "operator"
as_str admin = codes "admin"

-- `Role::from_str`; `none` is the error for an unknown role
unfoldable pub from_str : Bytes → Option Role
from_str s =
    if s =bytes codes "viewer"
    then some viewer
    else if s =bytes codes "operator"
    then some operator
    else if s =bytes codes "admin"
    then some admin
    else none

-- the first entry of the table for a claim
unfoldable pub role_of : List (Bytes × Role) → Bytes → Option Role
role_of role_map value =
    Option.map (λ (p : Bytes × Role). p.1) (find (λ (p : Bytes × Role). p.0 =bytes value) role_map)

-- one step of `max`, over what the claims so far have given
unfoldable pub higher : Option Role → Option Role → Option Role
unfolding rank
higher none found = found
higher (some r) none = some r
higher (some r) (some t) = if leb (rank r) (rank t) then some t else some r

unfoldable pub map_claims_to_role : List Bytes → List (Bytes × Role) → Option Role
unfolding role_of higher
map_claims_to_role [] role_map = none
map_claims_to_role (value ∷ values) role_map =
    higher (role_of role_map value) (map_claims_to_role values role_map)
