-- ===== src/Schema/Compile.antt =====
-- crates/waf-schema-enforcement/src/api_schema.rs, `CompiledSpec::compile`: each operation of a document
-- becomes a contract.
--
-- `Value::pointer`, the compiler of JSON Schema and `to_uppercase` are parameters. A set of pairs is the list of its
-- elements.
pub mod Found
pub mod Complete
use light_waf.Prelude.{
  ℕ, zero, suc, Bool, true, false, not, ◌&&◌, ◌||◌, Option, none, some, List, [], ◌∷◌, ◌++◌, Bytes,
  codes, ◌=bytes◌, any, strip_prefix, if◌then◌else◌,
}
use light_waf.Schema.Value.{Value, Members, member, get, as_object, array_items, object_entries}
use light_waf.Schema.Value
use light_waf.Schema.Router.{http_methods, Route, build}
use light_waf.Schema.Outcome.{Result, ok, err, map_err, ◌>>=◌}
use light_waf.Schema.Contract.{
  ParamIn, in_path, in_query, in_header, ScalarType, integer, number_type, boolean, string_type,
  CompiledParam, CompiledBody, CompiledOp, media_type_key, is_json_media_type,
}
use light_waf.Schema.Dialect.{bool_of, text_of, prepared}
use light_waf.Schema.Enforce.{CompiledSpec}

abbrev location_of : Bytes → Option ParamIn
location_of loc =
    if loc =bytes codes "path"
    then some in_path
    else if loc =bytes codes "query"
    then some in_query
    else if loc =bytes codes "header"
    then some in_header
    else none

abbrev scalar_named : Option Bytes → Option ScalarType
scalar_named none = none
scalar_named (some s) =
    if s =bytes codes "integer"
    then some integer
    else if s =bytes codes "number"
    then some number_type
    else if s =bytes codes "boolean"
    then some boolean
    else if s =bytes codes "string"
    then some string_type
    else none

unfoldable pub scalar_type : Value → Option ScalarType
scalar_type schema = scalar_named (text_of (get (codes "type") schema))

abbrev or_false : Option Bool → Bool
or_false none = false
or_false (some b) = b

module _ {Validator : Type 0} (pointer : Value → Bytes → Option Value)
    (validator_for : Value → Result Validator) (to_uppercase : Bytes → Bytes) where
  -- one step of `resolve_ref`; `none` is `break`
  unfoldable pub follow : Value → Value → Option Value
  follow doc node = elim (text_of (get (codes "$ref") node)) [
    | none ↦ none
    | some r ↦ elim (strip_prefix (codes "#") r) [ none ↦ none | some p ↦ pointer doc p ]
  ]

  -- the loop of `resolve_ref`, with the number of steps that are left
  unfoldable pub resolve_ref_loop : ℕ → Value → Value → Value
  unfolding follow
  resolve_ref_loop zero doc node = node
  resolve_ref_loop (suc steps) doc node = elim (follow doc node) [
    | none ↦ node
    | some target ↦ resolve_ref_loop steps doc target
  ]

  unfoldable pub resolve_ref : Value → Value → Value
  unfolding resolve_ref_loop
  resolve_ref doc node = resolve_ref_loop 32 doc node

  unfoldable pub compile_validator : Value → Value → Bool → Bool → Result Validator
  compile_validator doc schema is_3_0 strict_object =
      map_err (λ e. codes "schema does not compile: " ++ e)
        (validator_for (prepared doc schema is_3_0 strict_object))

  -- the type and the validator of a parameter, from its schema
  unfoldable pub compile_schema :
      Value → Bool → Option Value → Result (Option ScalarType × Option Validator)
  unfolding resolve_ref compile_validator scalar_type
  compile_schema doc is_3_0 none = ok (none, none)
  compile_schema doc is_3_0 (some schema) =
      let resolved = resolve_ref doc schema in
      elim (scalar_type resolved) [
        | none ↦ ok (none, none)
        | some s ↦ compile_validator doc resolved is_3_0 false >>= λ v. ok (some s, some v)
      ]

  -- the name, the place and its spelling of a parameter that is in scope
  unfoldable pub param_key : Value → Option (Bytes × Bytes × ParamIn)
  param_key pobj = elim (text_of (get (codes "name") pobj)) [
    | none ↦ none
    | some name ↦ elim (text_of (get (codes "in") pobj)) [
      | none ↦ none
      | some loc ↦ elim (location_of loc) [
        | none ↦ none
        | some location ↦ some (name, loc, location)
      ]
    ]
  ]

  abbrev is_seen : Bytes → Bytes → List (Bytes × Bytes) → Bool
  is_seen name loc = any (λ (p : Bytes × Bytes). (p.0 =bytes name) && (p.1 =bytes loc))

  -- the loop over the parameters of both sources, with what was seen
  unfoldable pub compile_params :
      Value → Bool → List (Bytes × Bytes) → List Value → Result (List (CompiledParam Validator))
  unfolding resolve_ref param_key compile_schema
  compile_params doc is_3_0 seen [] = ok []
  compile_params doc is_3_0 seen (raw ∷ rest) =
      let pobj = resolve_ref doc raw in
      let skip = compile_params doc is_3_0 seen rest in
      elim (param_key pobj) [
        | none ↦ skip
        | some (name, loc, location) ↦
            let more = compile_params doc is_3_0 ((name, loc) ∷ seen) rest in
            if is_seen name loc seen
            then skip
            else (compile_schema doc is_3_0 (get (codes "schema") pobj) >>= λ compiled.
                more >>= λ params. ok (
                  record {
                    name = name;
                    location = location;
                    required =
                        (loc =bytes codes "path")
                        || or_false (bool_of (get (codes "required") pobj));
                    scalar = compiled.0;
                    validator = compiled.1;
                  }
                  ∷ params))
      ]

  -- the validator after one media type
  unfoldable pub json_after :
      Value → Bool → Bool → Option Validator → Bytes → Option Value → Result (Option Validator)
  unfolding resolve_ref compile_validator
  json_after doc is_3_0 strict_body (some v) key schema = ok (some v)
  json_after doc is_3_0 strict_body none key none = ok none
  json_after doc is_3_0 strict_body none key (some schema) =
      if is_json_media_type key
      then (compile_validator doc (resolve_ref doc schema) is_3_0 strict_body >>= λ v. ok (some v))
      else ok none

  -- the loop over the media types, with the validator that was found
  unfoldable pub compile_content :
      Value
      → Bool
      → Bool
      → Option Validator
      → List (Bytes × Value)
      → Result (List Bytes × Option Validator)
  unfolding json_after
  compile_content doc is_3_0 strict_body json [] = ok ([], json)
  compile_content doc is_3_0 strict_body json ((mt, media) ∷ rest) =
      json_after doc is_3_0 strict_body json (media_type_key mt) (get (codes "schema") media)
      >>= λ json'. compile_content doc is_3_0 strict_body json' rest >>= λ out.
          ok (media_type_key mt ∷ out.0, out.1)

  unfoldable pub compile_body : Value → Value → Bool → Bool → Result (CompiledBody Validator)
  unfolding compile_content object_entries
  compile_body doc rb is_3_0 strict_body =
      compile_content doc is_3_0 strict_body none (object_entries (get (codes "content") rb))
      >>= λ out. ok (record {
        required = or_false (bool_of (get (codes "required") rb));
        media_types = out.0;
        json = out.1;
      })

  unfoldable pub compile_op :
      Value → Value → Option Value → Bool → Bool → Result (CompiledOp Validator)
  unfolding compile_params compile_body array_items
  compile_op doc op shared is_3_0 strict_body =
      compile_params doc is_3_0 [] (array_items (get (codes "parameters") op) ++ array_items shared)
      >>= λ params. elim (get (codes "requestBody") op) [
        | none ↦ ok (record { params = params; body = none })
        | some rb ↦ compile_body doc (resolve_ref doc rb) is_3_0 strict_body >>= λ body.
            ok (record { params = params; body = some body })
      ]

  abbrev pub Ops : Type 0
  Ops = List ((Bytes × Bytes) × CompiledOp Validator)

  -- the loop over the methods of a path, from this one on
  unfoldable pub compile_methods : Value → Bool → Bool → Bytes → Members → List Bytes → Result Ops
  unfolding compile_op
  compile_methods doc is_3_0 strict_body template item [] = ok []
  compile_methods doc is_3_0 strict_body template item (m ∷ methods) =
      let rest = compile_methods doc is_3_0 strict_body template item methods in
      elim (member m item) [
        | none ↦ rest
        | some op ↦
            map_err (λ e. to_uppercase m ++ (codes " " ++ (template ++ (codes ": " ++ e))))
              (compile_op doc op (member (codes "parameters") item) is_3_0 strict_body)
            >>= λ compiled. rest >>= λ ops. ok (((template, m), compiled) ∷ ops)
      ]

  -- the loop over the paths
  unfoldable pub compile_paths : Value → Bool → Bool → List (Bytes × Value) → Result Ops
  unfolding compile_methods
  compile_paths doc is_3_0 strict_body [] = ok []
  compile_paths doc is_3_0 strict_body ((template, item) ∷ paths) =
      let rest = compile_paths doc is_3_0 strict_body paths in
      elim (as_object item) [
        | none ↦ rest
        | some members ↦
            compile_methods doc is_3_0 strict_body template members http_methods >>= λ here.
            rest >>= λ ops. ok (here ++ ops)
      ]

  -- `CompiledSpec::compile`, of a document with its router
  unfoldable pub compile : Value → Bool → Bool → Bool → Result (CompiledSpec Validator)
  unfolding compile_paths object_entries
  compile doc is_3_0 strict_params strict_body =
      compile_paths doc is_3_0 strict_body (object_entries (get (codes "paths") doc)) >>= λ ops.
      ok (record { router = build doc; strict_params = strict_params; ops = ops })
