-- ===== src/Schema/Contract.antt =====
-- crates/waf-schema-enforcement/src/api_schema.rs, the contract of an operation: a request's parameters and
-- body are held against what the operation declares.
--
-- A compiled JSON-Schema validator, with its answers, the JSON parser and the parser of an `f64` are
-- parameters. A `BTreeSet` of violations is the ascending list of its elements.
pub mod Violations
use light_waf.Prelude.{
  ℕ, zero, suc, ◌+◌, ◌-◌, ◌*◌, ◌^◌, Bool, true, false, not, ◌&&◌, ◌||◌, Option, none, some, List,
  [], ◌∷◌, ◌++◌, Bytes, codes, ◌=bytes◌, ◌==◌, ltb, leb, any, filterb, find, is_empty, map, split,
  to_ascii_lowercase, eq_ignore_ascii_case, trim, decimal, if◌then◌else◌,
}
use mathlib.Core.Option
use light_waf.Schema.Value.{Value, number, string, bool}
use light_waf.Schema.Rules.{
  Rule, api_unknown_param, api_missing_required, api_type_violation, api_unknown_property,
  api_content_type, api_body_parse_error,
}

pub data Violation : Type 0 where
  unknown_param missing_required type_violation unknown_property content_type body_parse_error :
      Violation

unfoldable pub rule : Violation → Rule
rule unknown_param = api_unknown_param
rule missing_required = api_missing_required
rule type_violation = api_type_violation
rule unknown_property = api_unknown_property
rule content_type = api_content_type
rule body_parse_error = api_body_parse_error

-- the derived `Ord`
unfoldable pub rank : Violation → ℕ
rank unknown_param = 0
rank missing_required = 1
rank type_violation = 2
rank unknown_property = 3
rank content_type = 4
rank body_parse_error = 5

-- `BTreeSet::insert`
unfoldable pub insert : Violation → List Violation → List Violation
insert v [] = v ∷ []
insert v (w ∷ out) =
    let later = w ∷ insert v out in
    if rank v == rank w then w ∷ out else if ltb (rank v) (rank w) then v ∷ w ∷ out else later

abbrev pub insert_if : Bool → Violation → List Violation → List Violation
unfolding insert
insert_if true v out = insert v out
insert_if false v out = out

pub data ParamIn : Type 0 where
  in_path in_query in_header : ParamIn

pub data ScalarType : Type 0 where
  integer number_type boolean string_type : ScalarType

-- the kinds of validation error that `classify` tells apart
pub data ErrorKind : Type 0 where
  additional_properties unevaluated_properties required_missing other_kind : ErrorKind

pub record RequestParts : Type 0 where
  pub path_params : List (Bytes × Bytes)
  pub query_params : List (Bytes × Bytes)
  pub headers : List (Bytes × Bytes)
  pub media_type : Option Bytes
  pub body : Option Bytes

pub record CompiledParam (Validator : Type 0) : Type 0 where
  pub name : Bytes
  pub location : ParamIn
  pub required : Bool
  pub scalar : Option ScalarType
  pub validator : Option Validator

pub record CompiledBody (Validator : Type 0) : Type 0 where
  pub required : Bool
  pub media_types : List Bytes
  pub json : Option Validator

pub record CompiledOp (Validator : Type 0) : Type 0 where
  pub params : List (CompiledParam Validator)
  pub body : Option (CompiledBody Validator)

unfoldable pub find_value : List (Bytes × Bytes) → Bytes → Bool → Option Bytes
find_value pairs name ci =
    Option.map (λ (p : Bytes × Bytes). p.1)
      (find (λ (p : Bytes × Bytes). if ci then eq_ignore_ascii_case p.0 name else p.0 =bytes name)
        pairs)

unfoldable pub classify : ErrorKind → Violation
classify additional_properties = unknown_property
classify unevaluated_properties = unknown_property
classify required_missing = missing_required
classify other_kind = type_violation

-- the value of a run of digits after `n`
unfoldable pub digits_from : ℕ → Bytes → Option ℕ
digits_from n [] = some n
digits_from n (c ∷ cs) =
    let rest = digits_from (n * 10 + (c - 48)) cs in if leb 48 c && leb c 57 then rest else none

unfoldable pub digits_upto : ℕ → Bytes → Option ℕ
unfolding digits_from
digits_upto max cs =
    if is_empty cs
    then none
    else elim (digits_from 0 cs) [ none ↦ none | some n ↦ if leb n max then some n else none ]

-- `parse::<i64>`, as the text of the number
unfoldable pub parse_i64 : Bytes → Option Bytes
unfolding digits_upto
parse_i64 [] = none
parse_i64 (c ∷ cs) =
    if c == b'-'
    then Option.map (λ n. if n == 0 then decimal 0 else b'-' ∷ decimal n) (digits_upto (2 ^ 63) cs)
    else Option.map decimal (digits_upto (2 ^ 63 - 1) (if c == b'+' then cs else c ∷ cs))

abbrev number_or : Option Bytes → Bytes → Value
number_or none val = string val
number_or (some n) val = number n

unfoldable pub coerce : (Bytes → Option Bytes) → Bytes → ScalarType → Value
unfolding parse_i64
coerce parse_f64 val string_type = string val
coerce parse_f64 val boolean =
    if val =bytes codes "true"
    then bool true
    else if val =bytes codes "false"
    then bool false
    else string val
coerce parse_f64 val integer = number_or (parse_i64 val) val
coerce parse_f64 val number_type = number_or (parse_f64 val) val

abbrev first : List Bytes → Bytes
first [] = []
first (p ∷ ps) = p

unfoldable pub media_type_key : Bytes → Bytes
media_type_key ct = to_ascii_lowercase (trim (first (split b';' ct)))

unfoldable pub ends_with : Bytes → Bytes → Bool
ends_with suffix [] = suffix =bytes []
ends_with suffix (c ∷ cs) = (suffix =bytes c ∷ cs) || ends_with suffix cs

unfoldable pub is_json_media_type : Bytes → Bool
unfolding ends_with
is_json_media_type ct = (ct =bytes codes "application/json") || ends_with (codes "+json") ct
