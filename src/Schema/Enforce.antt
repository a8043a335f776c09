-- ===== src/Schema/Enforce.antt =====
-- crates/waf-schema-enforcement/src/api_schema.rs, `CompiledSpec::validate` and the module: a request to a
-- declared operation is held against its contract, and what fails becomes score items.
pub mod Exact
pub mod Validate
use light_waf.Prelude.{
  ℕ, Bool, true, false, not, ◌&&◌, ◌||◌, Option, none, some, List, [], ◌∷◌, Bytes, codes, ◌=bytes◌,
  any, filterb, find, is_empty, map, strip_prefix, to_ascii_lowercase, if◌then◌else◌,
}
use mathlib.Core.Option
use light_waf.Core.Decision.{Severity, ScoreItem, Decision, allow, scores}
use light_waf.Core.Request.{RequestContext}
use light_waf.Schema.Value.{Value}
use light_waf.Schema.Rules.{Rule, id, api_unknown_route, api_method_not_allowed}
use light_waf.Schema.Router.{Route, Resolution, unknown_route, method_not_allowed, matched, resolve}
use light_waf.Schema.Contract.{
  Violation, unknown_param, missing_required, content_type, body_parse_error, type_violation, rule,
  insert, insert_if, ParamIn, in_path, in_query, in_header, ScalarType, ErrorKind, RequestParts,
  CompiledParam, CompiledBody, CompiledOp, find_value, classify, coerce, media_type_key,
  is_json_media_type,
}

pub record CompiledSpec (Validator : Type 0) : Type 0 where
  pub router : List Route
  pub strict_params : Bool
  pub ops : List ((Bytes × Bytes) × CompiledOp Validator)

-- `ops.get(&(template, method))`
unfoldable pub find_op :
    {Validator : Type 0}
    → List ((Bytes × Bytes) × CompiledOp Validator)
    → Bytes
    → Bytes
    → Option (CompiledOp Validator)
find_op [] template method = none
find_op (((t, m), op) ∷ ops) template method =
    if (t =bytes template) && (m =bytes method) then some op else find_op ops template method

unfoldable pub observed :
    {Validator : Type 0} → RequestParts → CompiledParam Validator → Option Bytes
unfolding find_value
observed req p = elim p.location [
  | in_path ↦ find_value req.path_params p.name false
  | in_query ↦ find_value req.query_params p.name false
  | in_header ↦ find_value req.headers p.name true
]

abbrev is_query : ParamIn → Bool
is_query in_path = false
is_query in_query = true
is_query in_header = false

-- `declared.contains(k)` for the names of the declared query parameters
unfoldable pub is_declared : {Validator : Type 0} → CompiledOp Validator → Bytes → Bool
is_declared op k =
    any (λ n. n =bytes k) (map (λ p. p.name) (filterb (λ p. is_query p.location) op.params))

abbrev is_present : Option Bytes → Bool
is_present none = false
is_present (some b) = not (is_empty b)

-- `unwrap_or_default`
unfoldable pub request_media_type : RequestParts → Bytes
request_media_type req = elim req.media_type [ none ↦ [] | some ct ↦ media_type_key ct ]

unfoldable pub accepts : {Validator : Type 0} → CompiledBody Validator → Bytes → Bool
accepts body ct =
    is_empty body.media_types || any (λ m. (m =bytes ct) || (m =bytes codes "*/*")) body.media_types

abbrev or_empty : Option Bytes → Bytes
or_empty none = []
or_empty (some b) = b

module _ {Validator : Type 0} (is_valid : Validator → Value → Bool)
    (iter_errors : Validator → Value → List ErrorKind) (from_slice : Bytes → Option Value)
    (parse_f64 : Bytes → Option Bytes) where
  -- whether an observed value fails its scalar type
  unfoldable pub fails_scalar : CompiledParam Validator → Bytes → Bool
  fails_scalar p val = elim p.scalar [
    | none ↦ false
    | some scalar ↦ elim p.validator [
      | none ↦ false
      | some v ↦ not (is_valid v (coerce parse_f64 val scalar))
    ]
  ]

  -- what one parameter adds, by its observed value
  unfoldable pub judge_param :
      CompiledParam Validator → Option Bytes → List Violation → List Violation
  unfolding fails_scalar
  judge_param p none out = insert_if p.required missing_required out
  judge_param p (some val) out = insert_if (fails_scalar p val) type_violation out

  unfoldable pub check_params :
      RequestParts → List (CompiledParam Validator) → List Violation → List Violation
  unfolding observed judge_param
  check_params req [] out = out
  check_params req (p ∷ params) out = check_params req params (judge_param p (observed req p) out)

  unfoldable pub insert_errors : List ErrorKind → List Violation → List Violation
  unfolding insert
  insert_errors [] out = out
  insert_errors (kind ∷ kinds) out = insert_errors kinds (insert (classify kind) out)

  -- what a JSON body adds, by the result of parsing it
  unfoldable pub judge_json : Validator → Option Value → List Violation → List Violation
  unfolding insert insert_errors
  judge_json v none out = insert body_parse_error out
  judge_json v (some instance_value) out = insert_errors (iter_errors v instance_value) out

  abbrev json_with : Option Validator → Bytes → List Violation → List Violation
  unfolding judge_json
  json_with none body out = out
  json_with (some v) body out = judge_json v (from_slice body) out

  unfoldable pub check_body :
      RequestParts → CompiledBody Validator → List Violation → List Violation
  unfolding json_with
  check_body req body out =
      if not (is_present req.body)
      then insert_if body.required missing_required out
      else let ct = request_media_type req in
        let out' = insert_if (not (accepts body ct)) content_type out in
        if is_json_media_type ct then json_with body.json (or_empty req.body) out' else out'

  abbrev body_with :
      RequestParts → Option (CompiledBody Validator) → List Violation → List Violation
  unfolding check_body
  body_with req none out = out
  body_with req (some body) out = check_body req body out

  -- `validate` of the operation that it finds
  unfoldable pub validate_op : Bool → CompiledOp Validator → RequestParts → List Violation
  unfolding check_params body_with
  validate_op strict_params op req = body_with req op.body (
      insert_if (strict_params && any (λ q. not (is_declared op q.0)) req.query_params)
        unknown_param (check_params req op.params []))

  abbrev validate_with : Bool → Option (CompiledOp Validator) → RequestParts → List Violation
  unfolding validate_op
  validate_with strict_params none req = []
  validate_with strict_params (some op) req = validate_op strict_params op req

  unfoldable pub validate : CompiledSpec Validator → Bytes → Bytes → RequestParts → List Violation
  unfolding validate_with
  validate spec template method req =
      validate_with spec.strict_params (find_op spec.ops template (to_ascii_lowercase method)) req

pub record ApiSchemaModule (Validator : Type 0) : Type 0 where
  pub compiled : CompiledSpec Validator
  pub enabled : Bool
  pub paths : List Bytes
  pub unknown_route_severity : Severity
  pub violation_severity : Severity

unfoldable pub starts_with : Bytes → Bytes → Bool
starts_with s p = elim (strip_prefix p s) [ none ↦ false | some rest ↦ true ]

unfoldable pub guards : {Validator : Type 0} → ApiSchemaModule Validator → Bytes → Bool
unfolding starts_with
guards m path = any (starts_with path) m.paths

unfoldable pub one : Rule → Severity → Decision
one r severity = scores (record { rule_id = id r; severity = severity } ∷ [])

unfoldable pub parts : RequestContext → List (Bytes × Bytes) → RequestParts
unfolding find_value
parts ctx path_params = record {
  path_params = path_params;
  query_params = ctx.normalized.query_params;
  headers = ctx.normalized.headers;
  media_type = find_value ctx.normalized.headers (codes "content-type") false;
  body = if is_empty ctx.body then none else some ctx.body;
}

module _ {Validator : Type 0} (is_valid : Validator → Value → Bool)
    (iter_errors : Validator → Value → List ErrorKind) (from_slice : Bytes → Option Value)
    (parse_f64 : Bytes → Option Bytes) where
  unfoldable pub scores_of : ApiSchemaModule Validator → List Violation → Decision
  scores_of m [] = allow
  scores_of m (v ∷ violations) = scores (
      map (λ w. record { rule_id = id (rule w); severity = m.violation_severity }) (v ∷ violations))

  unfoldable pub inspect : ApiSchemaModule Validator → RequestContext → Decision
  unfolding one guards scores_of
  inspect m ctx =
      if not m.enabled
      then allow
      else if not (guards m ctx.normalized.path)
      then allow
      else elim (resolve m.compiled.router ctx.normalized.path ctx.method) [
        | unknown_route ↦ one api_unknown_route m.unknown_route_severity
        | method_not_allowed ↦ one api_method_not_allowed m.unknown_route_severity
        | matched template path_params ↦ scores_of m (
            validate is_valid iter_errors from_slice parse_f64 m.compiled template ctx.method
              (parts ctx path_params))
      ]
