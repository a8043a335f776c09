-- ===== src/Schema/Value.antt =====
-- `serde_json::Value`, as api_schema.rs reads it. A string is its bytes and a number its text; the members
-- of an object have different names.
use light_waf.Prelude.{Bool, Option, none, some, List, [], ◌∷◌, Bytes, ◌=bytes◌, if◌then◌else◌}

mutual
  pub data Value : Type 0 where
    null : Value
    bool : Bool → Value
    number : Bytes → Value
    string : Bytes → Value
    array : Values → Value
    object : Members → Value

  pub data Values : Type 0 where
    no_values : Values
    value_and : Value → Values → Values

  pub data Members : Type 0 where
    no_members : Members
    member_and : Bytes → Value → Members → Members

-- `Map::get`
unfoldable pub member : Bytes → Members → Option Value
member key no_members = none
member key (member_and k v rest) = if k =bytes key then some v else member key rest

unfoldable pub members_list : Members → List (Bytes × Value)
members_list no_members = []
members_list (member_and k v rest) = (k, v) ∷ members_list rest

unfoldable pub values_list : Values → List Value
values_list no_values = []
values_list (value_and v rest) = v ∷ values_list rest

abbrev pub as_object : Value → Option Members
as_object (object members) = some members
as_object null = none
as_object (bool b) = none
as_object (number n) = none
as_object (string s) = none
as_object (array items) = none

-- `Value::get`: none where the value is no object
unfoldable pub get : Bytes → Value → Option Value
unfolding member
get key (object members) = member key members
get key null = none
get key (bool b) = none
get key (number n) = none
get key (string s) = none
get key (array items) = none

-- `as_array`, and the empty list where it fails
unfoldable pub array_items : Option Value → List Value
unfolding values_list
array_items (some (array items)) = values_list items
array_items none = []
array_items (some null) = []
array_items (some (bool b)) = []
array_items (some (number n)) = []
array_items (some (string s)) = []
array_items (some (object fields_of)) = []

unfoldable pub object_entries : Option Value → List (Bytes × Value)
unfolding members_list
object_entries (some (object fields_of)) = members_list fields_of
object_entries none = []
object_entries (some null) = []
object_entries (some (bool b)) = []
object_entries (some (number n)) = []
object_entries (some (string s)) = []
object_entries (some (array items)) = []
