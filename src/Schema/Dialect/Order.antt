-- ===== src/Schema/Dialect/Order.antt =====
-- Changing an object before its members, as the source does, gives the same.
use light_waf.Prelude.{
  Bool, true, false, ◌||◌, Option, none, some, Bytes, codes, ◌=bytes◌, ◌≡◌, refl, ap, ◌∙◌,
  Bool-cases, inl, inr,
}
use light_waf.Schema.Value.{
  Value, Values, Members, null, bool, number, string, array, object, no_values, value_and,
  no_members, member_and, member,
}
use light_waf.Schema.Dialect.{
  remove, insert, contains_null, push, add_null_to_type, bool_of, insert_some, fix_with,
  fix_exclusive_bound, widen_type, widen_with, normalize_object, normalize_schema_3_0,
  normalize_values, normalize_members,
}
use mathlib.Core.Option

abbrev normalize_some : Option Value → Option Value
normalize_some = Option.map normalize_schema_3_0

member-normalize_members :
    (k : Bytes) (m : Members) → member k (normalize_members m) ≡ normalize_some (member k m)
unfolding member normalize_members
member-normalize_members k no_members = refl
member-normalize_members k (member_and j v rest) = elim (Bool-cases (j =bytes k)) [
  | inl same ↦ rw same refl
  | inr other ↦ rw other (member-normalize_members k rest)
]

remove-normalize_members :
    (k : Bytes) (m : Members) → remove k (normalize_members m) ≡ normalize_members (remove k m)
unfolding remove normalize_members
remove-normalize_members k no_members = refl
remove-normalize_members k (member_and j v rest) = elim (Bool-cases (j =bytes k)) [
  | inl same ↦ rw same (remove-normalize_members k rest)
  | inr other ↦
      rw other (ap (member_and j (normalize_schema_3_0 v)) (remove-normalize_members k rest))
]

insert-normalize_members :
    (k : Bytes) (w : Value) (m : Members)
    → insert k (normalize_schema_3_0 w) (normalize_members m) ≡ normalize_members (insert k w m)
unfolding insert normalize_members
insert-normalize_members k w no_members = refl
insert-normalize_members k w (member_and j v rest) = elim (Bool-cases (j =bytes k)) [
  | inl same ↦ rw same refl
  | inr other ↦
      rw other (ap (member_and j (normalize_schema_3_0 v)) (insert-normalize_members k w rest))
]

bool_of-normalize_some : (o : Option Value) → bool_of (normalize_some o) ≡ bool_of o
unfolding normalize_schema_3_0
bool_of-normalize_some none = refl
bool_of-normalize_some (some null) = refl
bool_of-normalize_some (some (bool b)) = refl
bool_of-normalize_some (some (number n)) = refl
bool_of-normalize_some (some (string s)) = refl
bool_of-normalize_some (some (array items)) = refl
bool_of-normalize_some (some (object m)) = refl

contains_null-normalize_values :
    (items : Values) → contains_null (normalize_values items) ≡ contains_null items
unfolding contains_null normalize_values normalize_schema_3_0
contains_null-normalize_values no_values = refl
contains_null-normalize_values (value_and (string s) rest) =
    ap (λ b. (s =bytes codes "null") || b) (contains_null-normalize_values rest)
contains_null-normalize_values (value_and null rest) = contains_null-normalize_values rest
contains_null-normalize_values (value_and (bool b) rest) = contains_null-normalize_values rest
contains_null-normalize_values (value_and (number n) rest) = contains_null-normalize_values rest
contains_null-normalize_values (value_and (array items) rest) = contains_null-normalize_values rest
contains_null-normalize_values (value_and (object m) rest) = contains_null-normalize_values rest

push-normalize_values :
    (items : Values) (w : Value)
    → push (normalize_values items) (normalize_schema_3_0 w) ≡ normalize_values (push items w)
unfolding push normalize_values
push-normalize_values no_values w = refl
push-normalize_values (value_and v rest) w =
    ap (value_and (normalize_schema_3_0 v)) (push-normalize_values rest w)

add_null_to_type-normalize :
    (t : Value)
    → add_null_to_type (normalize_schema_3_0 t) ≡ normalize_schema_3_0 (add_null_to_type t)
unfolding add_null_to_type normalize_schema_3_0 normalize_values
add_null_to_type-normalize (string s) = refl
add_null_to_type-normalize null = refl
add_null_to_type-normalize (bool b) = refl
add_null_to_type-normalize (number n) = refl
add_null_to_type-normalize (object m) = refl
add_null_to_type-normalize (array items) = elim (Bool-cases (contains_null items)) [
  | inl has ↦ rw has (rw (contains_null-normalize_values items ∙ has) refl)
  | inr lacks ↦ rw lacks (
      rw (contains_null-normalize_values items ∙ lacks)
        (ap array (push-normalize_values items (string (codes "null")))))
]

widen_type-normalize :
    (o : Option Value) (m : Members)
    → widen_type (normalize_some o) (normalize_members m) ≡ normalize_members (widen_type o m)
unfolding normalize_members widen_type
widen_type-normalize none m = refl
widen_type-normalize (some t) m =
    ap (λ v. insert (codes "type") v (normalize_members m)) (add_null_to_type-normalize t)
    ∙ insert-normalize_members (codes "type") (add_null_to_type t) m

widen_with-normalize :
    (o : Option Bool) (m : Members)
    → widen_with o (normalize_members m) ≡ normalize_members (widen_with o m)
unfolding normalize_members widen_with
widen_with-normalize none m = refl
widen_with-normalize (some false) m = refl
widen_with-normalize (some true) m =
    ap (λ o. widen_type o (normalize_members m)) (member-normalize_members (codes "type") m)
    ∙ widen_type-normalize (member (codes "type") m) m

insert_some-normalize :
    (k : Bytes) (o : Option Value) (m : Members)
    → insert_some k (normalize_some o) (normalize_members m) ≡ normalize_members (insert_some k o m)
unfolding normalize_members insert_some
insert_some-normalize k none m = refl
insert_some-normalize k (some v) m = insert-normalize_members k v m

fix_with-normalize :
    (o : Option Bool) (excl bound : Bytes) (m : Members)
    → fix_with o excl bound (normalize_members m) ≡ normalize_members (fix_with o excl bound m)
unfolding normalize_members fix_with
fix_with-normalize none excl bound m = refl
fix_with-normalize (some false) excl bound m = remove-normalize_members excl m
fix_with-normalize (some true) excl bound m =
    ap (λ n. insert_some excl (member bound n) (remove bound n)) (remove-normalize_members excl m)
    ∙ ap (λ o. insert_some excl o (remove bound (normalize_members (remove excl m))))
        (member-normalize_members bound (remove excl m))
    ∙ ap (insert_some excl (normalize_some (member bound (remove excl m))))
        (remove-normalize_members bound (remove excl m))
    ∙ insert_some-normalize excl (member bound (remove excl m)) (remove bound (remove excl m))

fix_exclusive_bound-normalize :
    (excl bound : Bytes) (m : Members)
    → fix_exclusive_bound excl bound (normalize_members m)
      ≡ normalize_members (fix_exclusive_bound excl bound m)
unfolding fix_exclusive_bound
fix_exclusive_bound-normalize excl bound m =
    ap (λ o. fix_with o excl bound (normalize_members m))
      (ap bool_of (member-normalize_members excl m) ∙ bool_of-normalize_some (member excl m))
    ∙ fix_with-normalize (bool_of (member excl m)) excl bound m

-- For every object, normalising its members after the object itself was changed, as the source does, gives the
-- same as changing the object after its members were normalised.
pub normalize_object-normalize_members :
    (m : Members) → normalize_object (normalize_members m) ≡ normalize_members (normalize_object m)
unfolding normalize_object
normalize_object-normalize_members m =
    let nullable = bool_of (member (codes "nullable") m) in
    let plain = remove (codes "nullable") (widen_with nullable m) in
    ap
      (λ o. fix_exclusive_bound (codes "exclusiveMaximum") (codes "maximum") (
        fix_exclusive_bound (codes "exclusiveMinimum") (codes "minimum")
          (remove (codes "nullable") (widen_with o (normalize_members m)))))
      (ap bool_of (member-normalize_members (codes "nullable") m)
        ∙ bool_of-normalize_some (member (codes "nullable") m))
    ∙ ap
        (λ n.
          fix_exclusive_bound (codes "exclusiveMaximum") (codes "maximum")
            (fix_exclusive_bound (codes "exclusiveMinimum") (codes "minimum") n))
        (ap (remove (codes "nullable")) (widen_with-normalize nullable m)
          ∙ remove-normalize_members (codes "nullable") (widen_with nullable m))
    ∙ ap (fix_exclusive_bound (codes "exclusiveMaximum") (codes "maximum"))
        (fix_exclusive_bound-normalize (codes "exclusiveMinimum") (codes "minimum") plain)
    ∙ fix_exclusive_bound-normalize (codes "exclusiveMaximum") (codes "maximum")
        (fix_exclusive_bound (codes "exclusiveMinimum") (codes "minimum") plain)
