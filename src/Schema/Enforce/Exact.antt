-- ===== src/Schema/Enforce/Exact.antt =====
-- Which violations a request is found to have.
use light_waf.Prelude.{
  Bool, true, false, not, ◌&&◌, ◌||◌, Option, none, some, List, [], ◌∷◌, Bytes, ◌≡◌, refl, ap, ◌∙◌,
  arith, any, ◌==◌, Bool-cases, inl, inr, if◌then◌else◌,
}
use light_waf.Schema.Value.{Value}
use light_waf.Schema.Contract.{
  Violation, unknown_param, missing_required, type_violation, content_type, body_parse_error, rank,
  insert, insert_if, ErrorKind, RequestParts, CompiledParam, CompiledBody, CompiledOp, classify,
  is_json_media_type,
}
use light_waf.Schema.Contract.Violations.{has, has-insert, has-insert_if}
use light_waf.Schema.Enforce.{
  observed, is_declared, is_present, request_media_type, accepts, or_empty, fails_scalar,
  judge_param, check_params, insert_errors, judge_json, json_with, body_with, validate_op,
  check_body,
}

or_assoc : (a b c : Bool) → ((a || b) || c) ≡ (a || (b || c))
or_assoc a b c = ground arith

or_false : (b : Bool) → b ≡ (b || false)
or_false b = ground arith

merge :
    (h m b ms bs x y : Bool)
    → ((h || ((m && x) || (b && y))) || ((ms && x) || (bs && y)))
      ≡ (h || (((m || ms) && x) || ((b || bs) && y)))
merge true m b ms bs x y = refl
merge false true b ms bs x y = ground arith
merge false false b ms bs x y = ground arith

is_missing_value : Bool → Option Bytes → Bool
is_missing_value required none = required
is_missing_value required (some val) = false

module _ {Validator : Type 0} (is_valid : Validator → Value → Bool)
    (iter_errors : Validator → Value → List ErrorKind) (from_slice : Bytes → Option Value)
    (parse_f64 : Bytes → Option Bytes) where
  is_bad_value : CompiledParam Validator → Option Bytes → Bool
  is_bad_value p none = false
  is_bad_value p (some val) = fails_scalar is_valid iter_errors from_slice parse_f64 p val

  -- a required parameter that the request does not have
  unfoldable pub is_missing : RequestParts → CompiledParam Validator → Bool
  unfolding is_missing_value
  is_missing req p = is_missing_value p.required (observed req p)

  -- a parameter whose value fails its schema
  unfoldable pub is_bad : RequestParts → CompiledParam Validator → Bool
  unfolding is_bad_value
  is_bad req p = is_bad_value p (observed req p)

  has-judge_param :
      (v : Violation) (p : CompiledParam Validator) (o : Option Bytes) (out : List Violation)
      → has v (judge_param is_valid iter_errors from_slice parse_f64 p o out) ≡ (
          has v out
          || ((is_missing_value p.required o && (rank v == rank missing_required))
              || (is_bad_value p o && (rank v == rank type_violation))))
  unfolding judge_param is_missing_value is_bad_value
  has-judge_param v p none out =
      has-insert_if v p.required missing_required out
      ∙ ap (λ t. has v out || t) (or_false (p.required && (rank v == rank missing_required)))
  has-judge_param v p (some val) out =
      has-insert_if v (fails_scalar is_valid iter_errors from_slice parse_f64 p val) type_violation
        out

  has-check_params :
      (v : Violation) (req : RequestParts) (params : List (CompiledParam Validator))
      (out : List Violation)
      → has v (check_params is_valid iter_errors from_slice parse_f64 req params out) ≡ (
          has v out
          || ((any (is_missing req) params && (rank v == rank missing_required))
              || (any (is_bad req) params && (rank v == rank type_violation))))
  unfolding check_params is_missing is_bad
  has-check_params v req [] out = ground arith
  has-check_params v req (p ∷ params) out =
      has-check_params v req params
        (judge_param is_valid iter_errors from_slice parse_f64 p (observed req p) out)
      ∙ ap
          (λ h.
            h
            || ((any (is_missing req) params && (rank v == rank missing_required))
                || (any (is_bad req) params && (rank v == rank type_violation))))
          (has-judge_param v p (observed req p) out)
      ∙ merge (has v out) (is_missing_value p.required (observed req p))
          (is_bad_value p (observed req p)) (any (is_missing req) params) (any (is_bad req) params)
          (rank v == rank missing_required) (rank v == rank type_violation)

  has-insert_errors :
      (v : Violation) (kinds : List ErrorKind) (out : List Violation)
      → has v (insert_errors is_valid iter_errors from_slice parse_f64 kinds out)
        ≡ (has v out || any (λ k. rank v == rank (classify k)) kinds)
  unfolding insert_errors
  has-insert_errors v [] out = or_false (has v out)
  has-insert_errors v (k ∷ kinds) out =
      has-insert_errors v kinds (insert (classify k) out)
      ∙ ap (λ h. h || any (λ k'. rank v == rank (classify k')) kinds)
          (has-insert v (classify k) out)
      ∙ or_assoc (has v out) (rank v == rank (classify k))
          (any (λ k'. rank v == rank (classify k')) kinds)

  -- what is wrong with a JSON body, by the result of parsing it
  json_raises : Validator → Option Value → Violation → Bool
  json_raises validator none v = rank v == rank body_parse_error
  json_raises validator (some instance_value) v =
      any (λ k. rank v == rank (classify k)) (iter_errors validator instance_value)

  schema_raises : Option Validator → Bytes → Violation → Bool
  unfolding json_raises
  schema_raises none body v = false
  schema_raises (some validator) body v = json_raises validator (from_slice body) v

  has-judge_json :
      (v : Violation) (validator : Validator) (o : Option Value) (out : List Violation)
      → has v (judge_json is_valid iter_errors from_slice parse_f64 validator o out)
        ≡ (has v out || json_raises validator o v)
  unfolding judge_json json_raises
  has-judge_json v validator none out = has-insert v body_parse_error out
  has-judge_json v validator (some instance_value) out =
      has-insert_errors v (iter_errors validator instance_value) out

  has-json_with :
      (v : Violation) (json : Option Validator) (body : Bytes) (out : List Violation)
      → has v (json_with is_valid iter_errors from_slice parse_f64 json body out)
        ≡ (has v out || schema_raises json body v)
  unfolding json_with schema_raises
  has-json_with v none body out = or_false (has v out)
  has-json_with v (some validator) body out = has-judge_json v validator (from_slice body) out

  -- what is wrong with a body, for an operation that declares one
  body_raises : RequestParts → CompiledBody Validator → Violation → Bool
  unfolding schema_raises
  body_raises req body v =
      if not (is_present req.body)
      then body.required && (rank v == rank missing_required)
      else (not (accepts body (request_media_type req)) && (rank v == rank content_type))
        || (is_json_media_type (request_media_type req)
            && schema_raises body.json (or_empty req.body) v)

  has-check_body :
      (v : Violation) (req : RequestParts) (body : CompiledBody Validator) (out : List Violation)
      → has v (check_body is_valid iter_errors from_slice parse_f64 req body out)
        ≡ (has v out || body_raises req body v)
  unfolding check_body body_raises
  has-check_body v req body out = elim (Bool-cases (not (is_present req.body))) [
    | inl absent ↦ rw absent (has-insert_if v body.required missing_required out)
    | inr present ↦ rw present (elim (Bool-cases (is_json_media_type (request_media_type req))) [
      | inl json ↦ rw json (
          has-json_with v body.json (or_empty req.body)
            (insert_if (not (accepts body (request_media_type req))) content_type out)
          ∙ ap (λ h. h || schema_raises body.json (or_empty req.body) v)
              (has-insert_if v (not (accepts body (request_media_type req))) content_type out)
          ∙ or_assoc (has v out)
              (not (accepts body (request_media_type req)) && (rank v == rank content_type))
              (schema_raises body.json (or_empty req.body) v))
      | inr other ↦ rw other (
          has-insert_if v (not (accepts body (request_media_type req))) content_type out
          ∙ ap (λ t. has v out || t)
              (or_false
                (not (accepts body (request_media_type req)) && (rank v == rank content_type))))
    ])
  ]

  optional_body_raises : RequestParts → Option (CompiledBody Validator) → Violation → Bool
  unfolding body_raises
  optional_body_raises req none v = false
  optional_body_raises req (some body) v = body_raises req body v

  -- whether a request breaks the contract of an operation in this way
  pub raises : Bool → CompiledOp Validator → RequestParts → Violation → Bool
  unfolding is_missing is_bad optional_body_raises
  raises strict_params op req v =
      ((any (is_missing req) op.params && (rank v == rank missing_required))
        || (any (is_bad req) op.params && (rank v == rank type_violation)))
      || (((strict_params && any (λ q. not (is_declared op q.0)) req.query_params)
            && (rank v == rank unknown_param))
          || optional_body_raises req op.body v)

  has-body_with :
      (v : Violation) (req : RequestParts) (body : Option (CompiledBody Validator))
      (out : List Violation)
      → has v (body_with is_valid iter_errors from_slice parse_f64 req body out)
        ≡ (has v out || optional_body_raises req body v)
  unfolding body_with optional_body_raises
  has-body_with v req none out = or_false (has v out)
  has-body_with v req (some body) out = has-check_body v req body out

  pub has-validate_op :
      (v : Violation) (strict_params : Bool) (op : CompiledOp Validator) (req : RequestParts)
      → has v (validate_op is_valid iter_errors from_slice parse_f64 strict_params op req)
        ≡ raises strict_params op req v
  unfolding validate_op raises
  has-validate_op v strict_params op req =
      let checked = check_params is_valid iter_errors from_slice parse_f64 req op.params [] in
      let undeclared = strict_params && any (λ q. not (is_declared op q.0)) req.query_params in
      has-body_with v req op.body (insert_if undeclared unknown_param checked)
      ∙ ap (λ h. h || optional_body_raises req op.body v)
          (has-insert_if v undeclared unknown_param checked)
      ∙ or_assoc (has v checked) (undeclared && (rank v == rank unknown_param))
          (optional_body_raises req op.body v)
      ∙ ap
          (λ h.
            h
            || ((undeclared && (rank v == rank unknown_param))
                || optional_body_raises req op.body v))
          (has-check_params v req op.params [])
