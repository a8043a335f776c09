-- ===== src/Schema/Dialect.antt =====
-- crates/waf-schema-enforcement/src/api_schema.rs, `normalize_schema_3_0`, `enforce_additional_properties` and
-- `compile_validator`: a schema of OpenAPI 3.0 is written as JSON Schema before it is compiled.
--
-- The source changes an object and then the values in it; here the values come first. Dialect.Order shows that
-- this is the source's recursion. The order of an object's members has no meaning.
pub mod Order
use light_waf.Prelude.{
  ℕ, Bool, true, false, not, ◌&&◌, ◌||◌, Option, none, some, List, [], ◌∷◌, ◌++◌, Bytes, codes,
  ◌=bytes◌, any, if◌then◌else◌,
}
use light_waf.Schema.Value.{
  Value, Values, Members, null, bool, number, string, array, object, no_values, value_and,
  no_members, member_and, member, get,
}
use light_waf.Schema.Value

-- `Map::remove`
unfoldable pub remove : Bytes → Members → Members
remove key no_members = no_members
remove key (member_and k v rest) =
    let kept = remove key rest in if k =bytes key then kept else member_and k v kept

-- `Map::insert`, and a write through `get_mut`
unfoldable pub insert : Bytes → Value → Members → Members
insert key w no_members = member_and key w no_members
insert key w (member_and k v rest) =
    let later = member_and k v (insert key w rest) in
    if k =bytes key then member_and key w rest else later

abbrev pub is_null_text : Value → Bool
is_null_text (string s) = s =bytes codes "null"
is_null_text null = false
is_null_text (bool b) = false
is_null_text (number n) = false
is_null_text (array items) = false
is_null_text (object fields_of) = false

unfoldable pub contains_null : Values → Bool
contains_null no_values = false
contains_null (value_and v rest) = is_null_text v || contains_null rest

unfoldable pub push : Values → Value → Values
push no_values w = value_and w no_values
push (value_and v rest) w = value_and v (push rest w)

unfoldable pub add_null_to_type : Value → Value
unfolding contains_null push
add_null_to_type (string s) =
    array (value_and (string s) (value_and (string (codes "null")) no_values))
add_null_to_type (array items) =
    if contains_null items then array items else array (push items (string (codes "null")))
add_null_to_type null = null
add_null_to_type (bool b) = bool b
add_null_to_type (number n) = number n
add_null_to_type (object fields_of) = object fields_of

abbrev pub bool_of : Option Value → Option Bool
bool_of (some (bool b)) = some b
bool_of none = none
bool_of (some null) = none
bool_of (some (number n)) = none
bool_of (some (string s)) = none
bool_of (some (array items)) = none
bool_of (some (object fields_of)) = none

-- `map.insert(key, v)` if there is a value
abbrev pub insert_some : Bytes → Option Value → Members → Members
unfolding insert
insert_some key none m = m
insert_some key (some v) m = insert key v m

abbrev pub fix_with : Option Bool → Bytes → Bytes → Members → Members
unfolding remove insert_some
fix_with none excl bound m = m
fix_with (some false) excl bound m = remove excl m
fix_with (some true) excl bound m =
    insert_some excl (member bound (remove excl m)) (remove bound (remove excl m))

unfoldable pub fix_exclusive_bound : Bytes → Bytes → Members → Members
unfolding fix_with
fix_exclusive_bound excl bound m = fix_with (bool_of (member excl m)) excl bound m

abbrev pub widen_type : Option Value → Members → Members
unfolding insert add_null_to_type
widen_type none m = m
widen_type (some t) m = insert (codes "type") (add_null_to_type t) m

abbrev pub widen_with : Option Bool → Members → Members
unfolding widen_type
widen_with (some true) m = widen_type (member (codes "type") m) m
widen_with (some false) m = m
widen_with none m = m

-- what `normalize_schema_3_0` does to one object, before it goes into the members
unfoldable pub normalize_object : Members → Members
unfolding widen_with remove fix_exclusive_bound
normalize_object m = fix_exclusive_bound (codes "exclusiveMaximum") (codes "maximum") (
    fix_exclusive_bound (codes "exclusiveMinimum") (codes "minimum")
      (remove (codes "nullable") (widen_with (bool_of (member (codes "nullable") m)) m)))

unfoldable mutual
  unfolding normalize_object

  pub normalize_schema_3_0 : Value → Value
  normalize_schema_3_0 (object fields_of) = object (normalize_object (normalize_members fields_of))
  normalize_schema_3_0 (array items) = array (normalize_values items)
  normalize_schema_3_0 null = null
  normalize_schema_3_0 (bool b) = bool b
  normalize_schema_3_0 (number n) = number n
  normalize_schema_3_0 (string s) = string s

  pub normalize_values : Values → Values
  normalize_values no_values = no_values
  normalize_values (value_and v rest) = value_and (normalize_schema_3_0 v) (normalize_values rest)

  pub normalize_members : Members → Members
  normalize_members no_members = no_members
  normalize_members (member_and k v rest) =
      member_and k (normalize_schema_3_0 v) (normalize_members rest)

unfoldable pub has_key : Members → Bytes → Bool
has_key m key = elim (member key m) [ none ↦ false | some v ↦ true ]

abbrev pub text_of : Option Value → Option Bytes
text_of (some (string s)) = some s
text_of none = none
text_of (some null) = none
text_of (some (bool b)) = none
text_of (some (number n)) = none
text_of (some (array items)) = none
text_of (some (object fields_of)) = none

-- `as_str() == Some(s)`
abbrev pub is_text : Option Bytes → Bytes → Bool
is_text none s = false
is_text (some t) s = t =bytes s

unfoldable pub enforce_additional_properties : Value → Value
unfolding has_key insert
enforce_additional_properties (object m) =
    let composed =
      any (has_key m)
        (codes "allOf" ∷ codes "anyOf" ∷ codes "oneOf" ∷ codes "$ref" ∷ codes "not" ∷ []) in
    let is_object =
      is_text (text_of (member (codes "type") m)) (codes "object")
      || has_key m (codes "properties") in
    if is_object && (not composed && not (has_key m (codes "additionalProperties")))
    then object (insert (codes "additionalProperties") (bool false) m)
    else object m
enforce_additional_properties null = null
enforce_additional_properties (bool b) = bool b
enforce_additional_properties (number n) = number n
enforce_additional_properties (string s) = string s
enforce_additional_properties (array items) = array items

-- `entry("components").or_insert_with`
unfoldable pub with_components : Option Value → Value → Value
unfolding has_key insert
with_components none v = v
with_components (some comps) (object m) =
    if has_key m (codes "components")
    then object m
    else object (insert (codes "components") comps m)
with_components (some comps) null = null
with_components (some comps) (bool b) = bool b
with_components (some comps) (number n) = number n
with_components (some comps) (string s) = string s
with_components (some comps) (array items) = array items

-- the schema that `compile_validator` hands on
unfoldable pub prepared : Value → Value → Bool → Bool → Value
unfolding enforce_additional_properties with_components normalize_schema_3_0
prepared doc schema is_3_0 strict_object =
    let s = if strict_object then enforce_additional_properties schema else schema in
    let s' = with_components (get (codes "components") doc) s in
    if is_3_0 then normalize_schema_3_0 s' else s'
