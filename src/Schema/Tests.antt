-- ===== src/Schema/Tests.antt =====
-- The theorems on the router and on the contract, each at a small document.
use light_waf.Prelude.{
  Bool, true, false, Option, none, some, List, [], ◌∷◌, Bytes, codes, ◌≡◌, refl, to_ascii_lowercase,
  ◌=bytes◌, split,
}
use light_waf.Schema.Value.{Value, null, object, no_members, member_and}
use light_waf.Schema.Router.{resolve, build, route_lt, declared_routes, split_segments}
use light_waf.Schema.Router.Best.{IsResolved, resolve-build}
use light_waf.Schema.Contract.{
  Violation, in_path, in_query, integer, ErrorKind, required_missing, CompiledOp, RequestParts,
}
use light_waf.Schema.Contract.Violations.{has, IsAscending}
use light_waf.Schema.Enforce.{CompiledSpec, find_op, validate}
use light_waf.Schema.Outcome.{Result, ok}
use light_waf.Schema.Compile.{compile}
use light_waf.Schema.Compile.Complete.{compile-resolve}
use light_waf.Schema.Enforce.Validate.{found_raises, validate_exact}

-- two templates that match `/users/me`
abbrev doc : Value
doc = object (
    member_and (codes "paths")
      (object (
        member_and (codes "/users/{id}")
          (object (member_and (codes "get") null (member_and (codes "delete") null no_members)))
          (member_and (codes "/users/me") (object (member_and (codes "get") null no_members))
            no_members)))
      no_members)

resolve-build_example :
    IsResolved
      (declared_routes doc)
      (split_segments (codes "/users/me?full=1"))
      (codes "DELETE")
      (resolve (build doc) (codes "/users/me?full=1") (codes "DELETE"))
resolve-build_example = resolve-build doc (codes "/users/me?full=1") (codes "DELETE")

-- a validator that says whether it accepts a value, and finds a property missing
abbrev is_valid : Bool → Value → Bool
is_valid answer value = answer

abbrev iter_errors : Bool → Value → List ErrorKind
iter_errors answer value = required_missing ∷ []

abbrev from_slice : Bytes → Option Value
from_slice body = some null

abbrev parse_f64 : Bytes → Option Bytes
parse_f64 val = none

abbrev spec : CompiledSpec Bool
spec = record {
  router = build doc;
  strict_params = true;
  ops =
      (
        (codes "/users/{id}", codes "get"),
        record {
          params =
              record {
                name = codes "id";
                location = in_path;
                required = true;
                scalar = some integer;
                validator = some false;
              }
              ∷ record {
                name = codes "page";
                location = in_query;
                required = true;
                scalar = none;
                validator = none;
              }
              ∷ [];
          body = some (record {
            required = true;
            media_types = codes "application/json" ∷ [];
            json = some true;
          });
        },
      )
      ∷ [];
}

abbrev req : RequestParts
req = record {
  path_params = (codes "id", codes "7") ∷ [];
  query_params = (codes "debug", codes "1") ∷ [];
  headers = [];
  media_type = some (codes "application/json");
  body = some (codes "{}");
}

validate_exact_example :
    IsAscending (
      validate is_valid iter_errors from_slice parse_f64 spec
        (codes "/users/{id}")
        (codes "GET")
        req)
    × ((v : Violation)
        → has v (
            validate is_valid iter_errors from_slice parse_f64 spec
              (codes "/users/{id}")
              (codes "GET")
              req)
          ≡ found_raises is_valid iter_errors from_slice parse_f64 true
              (find_op spec.ops (codes "/users/{id}") (to_ascii_lowercase (codes "GET")))
              req
              v)
validate_exact_example =
    validate_exact is_valid iter_errors from_slice parse_f64 spec (codes "/users/{id}")
      (codes "GET") req

abbrev pointer : Value → Bytes → Option Value
pointer root path = none

abbrev validator_for : Value → Result Bool
validator_for schema = ok true

abbrev as_is : Bytes → Bytes
as_is s = s

abbrev empty_op : CompiledOp Bool
empty_op = record { params = []; body = none }

abbrev compiled : CompiledSpec Bool
compiled = record {
  router = build doc;
  strict_params = true;
  ops =
      ((codes "/users/{id}", codes "get"), empty_op)
      ∷ ((codes "/users/{id}", codes "delete"), empty_op)
      ∷ ((codes "/users/me", codes "get"), empty_op)
      ∷ [];
}

compile-resolve_example :
    (op : CompiledOp Bool) × (find_op compiled.ops
        (codes "/users/me")
        (to_ascii_lowercase (codes "GET"))
      ≡ some op)
unfolding compile resolve build ◌=bytes◌ route_lt split
compile-resolve_example =
    compile-resolve pointer validator_for as_is doc true true true compiled (codes "/users/me")
      (codes "GET") (codes "/users/me") [] refl refl
