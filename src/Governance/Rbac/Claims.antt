-- ===== src/Governance/Rbac/Claims.antt =====
-- The role that the claims give may do exactly what some claim's role may do.
use light_waf.Prelude.{
  Bool, true, false, ◌||◌, Option, none, some, List, [], ◌∷◌, Bytes, ◌=bytes◌, ◌≡◌, refl, ◌∙◌, ap,
  any, arith,
}
use light_waf.Governance.Rbac.{
  Role, viewer, operator, admin, rank, Permission, allows, as_str, from_str, role_of, higher,
  map_claims_to_role,
}

-- what a login may do: nothing without a role
abbrev pub grants : Permission → Option Role → Bool
grants perm none = false
grants perm (some role) = allows role perm

||_false : (b : Bool) → b ≡ b || false
||_false true = refl
||_false false = refl

grants-higher :
    (perm : Permission) (a b : Option Role)
    → grants perm (higher a b) ≡ grants perm a || grants perm b
unfolding higher rank allows
grants-higher perm none b = refl
grants-higher perm (some r) none = ||_false (allows r perm)
grants-higher perm (some r) (some t) = ground arith

-- A login's role, where the claims give one, allows a permission exactly when the role that the table has
-- for one of the claims does; where they give none, no claim's role allows anything.
pub map_claims_to_role_lem :
    (perm : Permission) (values : List Bytes) (role_map : List (Bytes × Role))
    → grants perm (map_claims_to_role values role_map)
      ≡ any (λ value. grants perm (role_of role_map value)) values
unfolding map_claims_to_role
map_claims_to_role_lem perm [] role_map = refl
map_claims_to_role_lem perm (value ∷ values) role_map =
    grants-higher perm (role_of role_map value) (map_claims_to_role values role_map)
    ∙ ap (λ b. grants perm (role_of role_map value) || b)
        (map_claims_to_role_lem perm values role_map)

-- Parsing gives back every role from its wire form.
from_str-as_str : (role : Role) → from_str (as_str role) ≡ some role
unfolding from_str as_str ◌=bytes◌
from_str-as_str viewer = refl
from_str-as_str operator = refl
from_str-as_str admin = refl
