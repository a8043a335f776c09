-- ===== src/Schema/Enforce/Validate.antt =====
-- The result of `validate`: each violation that the request has, once.
use light_waf.Prelude.{
  Bool, false, not, ◌&&◌, Option, none, some, List, [], ◌∷◌, Bytes, ◌≡◌, refl, any, Bool-cases, inl,
  inr, to_ascii_lowercase,
}
use light_waf.Schema.Value.{Value}
use light_waf.Schema.Contract.{
  Violation, unknown_param, missing_required, type_violation, content_type, body_parse_error,
  insert, ErrorKind, RequestParts, CompiledParam, CompiledBody, CompiledOp, classify,
  is_json_media_type,
}
use light_waf.Schema.Contract.Violations.{
  has, IsAscending, insert-IsAscending, insert_if-IsAscending,
}
use light_waf.Schema.Enforce.{
  CompiledSpec, find_op, observed, is_declared, is_present, request_media_type, accepts, or_empty,
  judge_param, check_params, insert_errors, judge_json, json_with, check_body, body_with,
  validate_op, validate_with, validate,
}
use light_waf.Schema.Enforce.Exact.{raises, has-validate_op}

module _ {Validator : Type 0} (is_valid : Validator → Value → Bool)
    (iter_errors : Validator → Value → List ErrorKind) (from_slice : Bytes → Option Value)
    (parse_f64 : Bytes → Option Bytes) where
  judge_param-IsAscending :
      (p : CompiledParam Validator) (o : Option Bytes) (out : List Violation)
      → IsAscending out
      → IsAscending (judge_param is_valid iter_errors from_slice parse_f64 p o out)
  unfolding judge_param
  judge_param-IsAscending p none out h = insert_if-IsAscending p.required missing_required out h
  judge_param-IsAscending p (some val) out h = insert_if-IsAscending _ type_violation out h

  check_params-IsAscending :
      (req : RequestParts) (params : List (CompiledParam Validator)) (out : List Violation)
      → IsAscending out
      → IsAscending (check_params is_valid iter_errors from_slice parse_f64 req params out)
  unfolding check_params
  check_params-IsAscending req [] out h = h
  check_params-IsAscending req (p ∷ params) out h =
      check_params-IsAscending req params _ (judge_param-IsAscending p (observed req p) out h)

  insert_errors-IsAscending :
      (kinds : List ErrorKind) (out : List Violation)
      → IsAscending out
      → IsAscending (insert_errors is_valid iter_errors from_slice parse_f64 kinds out)
  unfolding insert_errors
  insert_errors-IsAscending [] out h = h
  insert_errors-IsAscending (k ∷ kinds) out h =
      insert_errors-IsAscending kinds (insert (classify k) out)
        (insert-IsAscending (classify k) out h)

  judge_json-IsAscending :
      (validator : Validator) (o : Option Value) (out : List Violation)
      → IsAscending out
      → IsAscending (judge_json is_valid iter_errors from_slice parse_f64 validator o out)
  unfolding judge_json
  judge_json-IsAscending validator none out h = insert-IsAscending body_parse_error out h
  judge_json-IsAscending validator (some v) out h =
      insert_errors-IsAscending (iter_errors validator v) out h

  json_with-IsAscending :
      (json : Option Validator) (body : Bytes) (out : List Violation)
      → IsAscending out
      → IsAscending (json_with is_valid iter_errors from_slice parse_f64 json body out)
  unfolding json_with
  json_with-IsAscending none body out h = h
  json_with-IsAscending (some validator) body out h =
      judge_json-IsAscending validator (from_slice body) out h

  check_body-IsAscending :
      (req : RequestParts) (body : CompiledBody Validator) (out : List Violation)
      → IsAscending out
      → IsAscending (check_body is_valid iter_errors from_slice parse_f64 req body out)
  unfolding check_body
  check_body-IsAscending req body out h =
      let typed =
        insert_if-IsAscending (not (accepts body (request_media_type req))) content_type out h in
      elim (Bool-cases (not (is_present req.body))) [
        | inl absent ↦ rw absent (insert_if-IsAscending body.required missing_required out h)
        | inr present ↦
            rw present (elim (Bool-cases (is_json_media_type (request_media_type req))) [
              | inl json ↦ rw json (json_with-IsAscending body.json (or_empty req.body) _ typed)
              | inr other ↦ rw other typed
            ])
      ]

  body_with-IsAscending :
      (req : RequestParts) (body : Option (CompiledBody Validator)) (out : List Violation)
      → IsAscending out
      → IsAscending (body_with is_valid iter_errors from_slice parse_f64 req body out)
  unfolding body_with
  body_with-IsAscending req none out h = h
  body_with-IsAscending req (some body) out h = check_body-IsAscending req body out h

  -- whether the operation that was found, if one was, has this violation
  pub found_raises : Bool → Option (CompiledOp Validator) → RequestParts → Violation → Bool
  found_raises strict_params none req v = false
  found_raises strict_params (some op) req v =
      raises is_valid iter_errors from_slice parse_f64 strict_params op req v

  validate_with_exact :
      (strict_params : Bool) (op : Option (CompiledOp Validator)) (req : RequestParts)
      → IsAscending (validate_with is_valid iter_errors from_slice parse_f64 strict_params op req)
        × ((v : Violation)
            → has v (validate_with is_valid iter_errors from_slice parse_f64 strict_params op req)
              ≡ found_raises strict_params op req v)
  unfolding validate_with found_raises
  validate_with_exact strict_params none req = (tt, λ v. refl)
  validate_with_exact strict_params (some op) req = (
    unfold validate_op in
        (body_with-IsAscending req op.body _ (
          insert_if-IsAscending
            (strict_params && any (λ q. not (is_declared op q.0)) req.query_params) unknown_param _
            (check_params-IsAscending req op.params [] tt))),
    λ v. has-validate_op is_valid iter_errors from_slice parse_f64 v strict_params op req,
  )

  -- For any compiled document and any request to a template and a method, `validate` gives no violation
  -- where it finds no such operation. Where it finds one, it gives in ascending order and once each
  -- exactly these: a missing value, for a required parameter that the request does not have, a required body
  -- that is absent or empty, or where the body's schema says so; a type violation, for a parameter whose value
  -- fails its schema, or where the body's schema says so; an unknown parameter, for a query parameter that is not
  -- declared, under `strict_params`; a content type that the operation does not accept, for a body that is
  -- there; and, for a body of a JSON media type with a schema, that it does not parse or, where it does,
  -- the kinds that its schema's errors are classified as.
  pub validate_exact :
      (spec : CompiledSpec Validator) (template method : Bytes) (req : RequestParts)
      → IsAscending (validate is_valid iter_errors from_slice parse_f64 spec template method req)
        × ((v : Violation)
            → has v (validate is_valid iter_errors from_slice parse_f64 spec template method req)
              ≡ found_raises spec.strict_params
                  (find_op spec.ops template (to_ascii_lowercase method))
                  req
                  v)
  unfolding validate
  validate_exact spec template method req =
      validate_with_exact spec.strict_params (find_op spec.ops template (to_ascii_lowercase method))
        req
