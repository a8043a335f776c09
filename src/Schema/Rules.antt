-- ===== src/Schema/Rules.antt =====
-- crates/waf-schema-enforcement/src/rules.rs: the rules' namespaces and their identifiers.
use light_waf.Prelude.{◌++◌, Bytes, codes}

pub data Namespace : Type 0 where
  graphql_schema grpc_schema bot api_schema : Namespace

unfoldable pub prefix : Namespace → Bytes
prefix graphql_schema = codes "schema-graphql"
prefix grpc_schema = codes "schema-grpc"
prefix bot = codes "bot"
prefix api_schema = codes "schema-api"

pub record Rule : Type 0 where
  pub ns : Namespace
  pub leaf : Bytes

unfoldable pub id : Rule → Bytes
unfolding prefix
id rule = prefix rule.ns ++ (codes "-" ++ rule.leaf)

abbrev pub api_unknown_route : Rule
api_unknown_route = record { ns = api_schema; leaf = codes "unknown-route" }

abbrev pub api_method_not_allowed : Rule
api_method_not_allowed = record { ns = api_schema; leaf = codes "method-not-allowed" }

abbrev pub api_unknown_param : Rule
api_unknown_param = record { ns = api_schema; leaf = codes "unknown-param" }

abbrev pub api_missing_required : Rule
api_missing_required = record { ns = api_schema; leaf = codes "missing-required" }

abbrev pub api_type_violation : Rule
api_type_violation = record { ns = api_schema; leaf = codes "type-violation" }

abbrev pub api_unknown_property : Rule
api_unknown_property = record { ns = api_schema; leaf = codes "unknown-property" }

abbrev pub api_content_type : Rule
api_content_type = record { ns = api_schema; leaf = codes "content-type" }

abbrev pub api_body_parse_error : Rule
api_body_parse_error = record { ns = api_schema; leaf = codes "body-parse-error" }
