-- ===== src/Schema/Router.antt =====
-- crates/waf-schema-enforcement/src/api_schema.rs, the path router: a request is resolved to the most
-- specific path template of the document that it matches.
--
-- A `BTreeSet` of methods is the list of its elements. `sort_by` is a stable insertion sort: it is
-- documented to be stable, and reads its comparison only where that is `Less`.
pub mod Order
pub mod Best
use light_waf.Prelude.{
  ℕ, Bool, true, false, not, ◌&&◌, ◌||◌, Option, none, some, List, [], ◌∷◌, ◌++◌, Bytes, codes,
  ◌=bytes◌, ◌==◌, ltb, any, length, filterb, is_empty, map, split, strip_prefix, to_ascii_lowercase,
  if◌then◌else◌,
}
use mathlib.Core.Option
use light_waf.Schema.Value.{Value, Members, member, members_list, get, as_object}
use light_waf.Schema.Value

abbrev pub http_methods : List Bytes
http_methods =
    codes "get"
    ∷ codes "put"
    ∷ codes "post"
    ∷ codes "delete"
    ∷ codes "options"
    ∷ codes "head"
    ∷ codes "patch"
    ∷ codes "trace"
    ∷ []

-- one segment of a template
pub data Seg : Type 0 where
  static : Bytes → Seg
  param : Bytes → Seg

pub record Route : Type 0 where
  pub template : Bytes
  pub segments : List Seg
  pub methods : List Bytes

pub data Resolution : Type 0 where
  unknown_route : Resolution
  method_not_allowed : Resolution
  matched : Bytes → List (Bytes × Bytes) → Resolution

-- the first piece of `split(['?', '#'])`
unfoldable pub before_query : Bytes → Bytes
before_query [] = []
before_query (c ∷ cs) = if c == b'?' || c == b'#' then [] else c ∷ before_query cs

unfoldable pub split_segments : Bytes → List Bytes
unfolding before_query
split_segments path = filterb (λ s. not (is_empty s)) (split b'/' (before_query path))

-- `strip_suffix('}')`
unfoldable pub strip_brace : Bytes → Option Bytes
strip_brace [] = none
strip_brace (c ∷ []) = if c == b'}' then some [] else none
strip_brace (c ∷ d ∷ cs) = Option.map (λ s. c ∷ s) (strip_brace (d ∷ cs))

-- a name in braces is a parameter
unfoldable pub parse_segment : Bytes → Seg
unfolding strip_brace
parse_segment s = elim (strip_prefix (codes "{") s) [
  | none ↦ static s
  | some inner ↦ elim (strip_brace inner) [
    | none ↦ static s
    | some name ↦ if is_empty name then static s else param name
  ]
]

unfoldable pub parse_template : Bytes → List Seg
unfolding split_segments parse_segment
parse_template template = map parse_segment (split_segments template)

abbrev rank : Seg → ℕ
rank (static s) = 0
rank (param name) = 1

unfoldable pub specificity : List Seg → List ℕ
specificity segs = map rank segs

-- whether `a.cmp(&b).then(rest)` is `Less`, for sequences in lexicographic order
unfoldable pub is_less_then : List ℕ → List ℕ → Bool → Bool
is_less_then [] [] rest = rest
is_less_then [] (y ∷ b) rest = true
is_less_then (x ∷ a) [] rest = false
is_less_then (x ∷ a) (y ∷ b) rest =
    let tail = is_less_then a b rest in if ltb x y then true else if ltb y x then false else tail

-- whether the comparison of `build` puts one route before the other
unfoldable pub route_lt : Route → Route → Bool
unfolding is_less_then specificity
route_lt a b =
    is_less_then (specificity a.segments) (specificity b.segments)
      (is_less_then a.template b.template false)

unfoldable pub insert : Route → List Route → List Route
insert r [] = r ∷ []
insert r (s ∷ sorted) =
    let later = s ∷ insert r sorted in if route_lt s r then later else r ∷ s ∷ sorted

unfoldable pub sort : List Route → List Route
unfolding insert
sort [] = []
sort (r ∷ routes) = insert r (sort routes)

unfoldable pub has_member : Members → Bytes → Bool
unfolding member
has_member members key = elim (member key members) [ none ↦ false | some v ↦ true ]

-- a path's route, where its item is an object with an operation
unfoldable pub route_of : Bytes → Value → Option Route
unfolding parse_template has_member
route_of template item = elim (as_object item) [
  | none ↦ none
  | some members ↦
      let methods = filterb (has_member members) http_methods in
      if is_empty methods
      then none
      else some
          (record { template = template; segments = parse_template template; methods = methods })
]

unfoldable pub add_some : Option Route → List Route → List Route
add_some none routes = routes
add_some (some r) routes = r ∷ routes

unfoldable pub routes_of : List (Bytes × Value) → List Route
unfolding route_of add_some
routes_of [] = []
routes_of ((template, item) ∷ paths) = add_some (route_of template item) (routes_of paths)

unfoldable pub object_routes : Option Members → List Route
unfolding members_list routes_of
object_routes none = []
object_routes (some members) = routes_of (members_list members)

unfoldable pub path_routes : Option Value → List Route
unfolding object_routes
path_routes none = []
path_routes (some paths) = object_routes (as_object paths)

-- the routes that a document declares, in its order
unfoldable pub declared_routes : Value → List Route
unfolding Value.get path_routes
declared_routes doc = path_routes (get (codes "paths") doc)

-- `Router::build`
unfoldable pub build : Value → List Route
unfolding declared_routes sort
build doc = sort (declared_routes doc)

-- the loop of `match_path`, over segments and values of the same number
unfoldable pub match_segments : List Seg → List Bytes → Option (List (Bytes × Bytes))
match_segments [] req = some []
match_segments (seg ∷ segs) [] = some []
match_segments (static s ∷ segs) (val ∷ req) =
    let rest = match_segments segs req in if s =bytes val then rest else none
match_segments (param name ∷ segs) (val ∷ req) =
    let rest = match_segments segs req in
    if is_empty val then none else Option.map (λ params. (name, val) ∷ params) rest

unfoldable pub match_path : Route → List Bytes → Option (List (Bytes × Bytes))
unfolding match_segments
match_path route req =
    if length route.segments == length req then match_segments route.segments req else none

-- the loop of `resolve`
unfoldable pub resolve_among : List Route → List Bytes → Bytes → Resolution
unfolding match_path
resolve_among [] req m = unknown_route
resolve_among (route ∷ routes) req m = elim (match_path route req) [
  | none ↦ resolve_among routes req m
  | some path_params ↦
      if any (λ x. x =bytes m) route.methods
      then matched route.template path_params
      else method_not_allowed
]

unfoldable pub resolve : List Route → Bytes → Bytes → Resolution
unfolding resolve_among split_segments
resolve router path method = resolve_among router (split_segments path) (to_ascii_lowercase method)
