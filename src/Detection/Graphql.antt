-- ===== src/Detection/Graphql.antt =====
-- crates/waf-detection/src/graphql.rs: caps on the shape of GraphQL operations.
use light_waf.Prelude.{
  ◌%◌, ◌^◌, Bool, true, false, not, ◌&&◌, Option, none, some, List, [], ◌∷◌, ◌++◌, Bytes, codes,
  ◌=bytes◌, all, any, is_empty, leb, ltb, length, map, filterb, strip_prefix, trim_start,
  eq_ignore_ascii_case, if◌then◌else◌,
}
use light_waf.Prelude.Utf8.{is_utf8}
use light_waf.Core.Config.{Config, GraphqlConfig}
use light_waf.Core.Decision.{Decision, allow, block, reject}
use light_waf.Core.Request.{RequestContext, ParsedBody, raw, json_flattened}
use light_waf.Normalizer.Graphql.{GraphqlStats, graphql_lex, unwrap_query_envelope}
use light_waf.Schema.Value.{Value}
use light_waf.Detection.Grpc.{content_type, raw_body}

pub record GraphqlModule : Type 0 where
  pub cfg : GraphqlConfig

unfoldable pub init : Config → GraphqlModule
init cfg = record { cfg = cfg.modules.graphql }

-- `strip_suffix(".query")`
unfoldable pub strip_query : Bytes → Option Bytes
strip_query [] = none
strip_query (c ∷ cs) =
    let rest = strip_query cs in
    if (c ∷ cs) =bytes codes ".query"
    then some []
    else elim rest [ none ↦ none | some prefix ↦ some (c ∷ prefix) ]

unfoldable pub is_graphql_query_key : Bytes → Bool
unfolding strip_query
is_graphql_query_key k = if k =bytes codes "query" then true else elim (strip_query k) [
  | none ↦ false
  | some prefix ↦ not (is_empty prefix) && all (λ b. leb b'0' b && leb b b'9') prefix
]

abbrev json_pairs : ParsedBody → List (Bytes × Bytes)
json_pairs (json_flattened pairs) = pairs
json_pairs (raw bytes) = []
json_pairs ParsedBody.no_body = []
json_pairs (ParsedBody.form_url_encoded pairs) = []
json_pairs (ParsedBody.multipart parts) = []

abbrev values : List (Bytes × Bytes) → List Bytes
values = map (λ (p : Bytes × Bytes). p.1)

unfoldable pub is_graphql : RequestContext → Bool
is_graphql ctx = elim (strip_prefix (codes "application/graphql") (trim_start (content_type ctx))) [
  | none ↦ false
  | some rest ↦ true
]

-- the raw body, where it is UTF-8
unfoldable pub text_body : ParsedBody → List Bytes
text_body body = elim (raw_body body) [
  | none ↦ []
  | some bytes ↦ if is_utf8 bytes then bytes ∷ [] else []
]

-- the carriers of a request to a GraphQL path
unfoldable pub path_carriers : RequestContext → List Bytes
unfolding is_graphql_query_key
path_carriers ctx =
    values
      (filterb (λ (p : Bytes × Bytes). is_graphql_query_key p.0) (json_pairs ctx.normalized.body))
    ++ (if eq_ignore_ascii_case ctx.method (codes "GET")
        then values
            (filterb (λ (p : Bytes × Bytes). p.0 =bytes codes "query") ctx.normalized.query_params)
        else [])

module _ (from_str : Bytes → Option Value) where
  unfoldable pub expand : List Bytes → List Bytes
  expand [] = []
  expand (c ∷ carriers) =
      elim (unwrap_query_envelope from_str c) [ none ↦ c ∷ [] | some docs ↦ docs ]
      ++ expand carriers

  unfoldable pub operations : GraphqlModule → RequestContext → List Bytes
  unfolding is_graphql text_body path_carriers expand
  operations m ctx =
      if is_graphql ctx
      then expand (text_body ctx.normalized.body)
      else if not (any (λ p. eq_ignore_ascii_case ctx.normalized.path p) m.cfg.paths)
      then []
      else expand (path_carriers ctx)

unfoldable pub reject_as : Bytes → Decision
reject_as reason = reject (codes "graphql") reason 400 none

-- what is wrong with one operation; `none` where it is within the caps
unfoldable pub violation : GraphqlConfig → GraphqlStats → Option Decision
unfolding reject_as
violation cfg st =
    if ltb cfg.max_depth st.max_depth
    then some (reject_as (codes "graphql query nesting depth exceeds limit"))
    else if ltb cfg.max_aliases st.aliases
    then some (reject_as (codes "graphql alias count exceeds limit"))
    else if ltb cfg.max_fields st.fields
    then some (reject_as (codes "graphql field/complexity exceeds limit"))
    else if ltb cfg.max_directives st.directives
    then some (reject_as (codes "graphql directive count exceeds limit"))
    else if cfg.block_introspection && st.has_introspection
    then some
        (block (codes "graphql-introspection") (codes "graphql schema introspection is blocked"))
    else none

-- the loop of `inspect`
unfoldable pub check_operations : GraphqlConfig → List Bytes → Decision
unfolding violation
check_operations cfg [] = allow
check_operations cfg (op ∷ ops) =
    let rest = check_operations cfg ops in
    elim (violation cfg (graphql_lex op)) [ none ↦ rest | some d ↦ d ]

unfoldable pub inspect : (Bytes → Option Value) → GraphqlModule → RequestContext → Decision
unfolding operations check_operations
inspect from_str m ctx =
    if not m.cfg.enabled
    then allow
    else let ops = operations from_str m ctx in
      if is_empty ops
      then allow
      else if ltb m.cfg.max_batch (length ops % 2 ^ 32)
      then reject_as (codes "graphql batch operation count exceeds limit")
      else check_operations m.cfg ops
