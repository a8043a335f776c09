-- ===== src/Core/Validate.antt =====
-- crates/waf-core/src/lib.rs: `ConfigError` and `Config::validate`. The checks are made in order and
-- the first that fails is the error. The parser of addresses is a parameter, as in Network.
pub mod Valid
use light_waf.Prelude.{
  ℕ, Bool, true, false, not, ◌&&◌, ◌||◌, Option, none, some, List, [], ◌∷◌, Bytes, codes, trim,
  strip_prefix, any, is_empty, leb, ltb, ◌==◌, if◌then◌else◌,
}
use light_waf.Core.Config.{
  IpAddr, Config, SeverityScores, LimitsConfig, RateLimitConfig, RateLimitAction, block, score,
  NetworkConfig, TlsConfig, GraphqlConfig, GrpcConfig, CrsConfig, WasmConfig, WasmPluginConfig,
}
use light_waf.Core.Network.{is_valid_cidr}

abbrev pub max_paranoia_level : ℕ
max_paranoia_level = 4

abbrev pub max_trusted_hops : ℕ
max_trusted_hops = 10

pub data ConfigError : Type 0 where
  invalid_backend : Bytes → ConfigError
  block_threshold_zero : ConfigError
  paranoia_out_of_range : ℕ → ConfigError
  severity_weight_zero limit_zero rate_limit_value_zero : Bytes → ConfigError
  trusted_hops_out_of_range : ℕ → ConfigError
  invalid_cidr : Bytes → ConfigError
  empty_client_ip_header resilience_timeout_zero : ConfigError
  graphql_cap_zero grpc_cap_zero tls_path_empty : Bytes → ConfigError
  tls_alpn_invalid crs_no_files wasm_no_plugins wasm_plugin_path_empty : ConfigError

pub data Checked : Type 0 where
  ok : Checked
  err : ConfigError → Checked

infixl 5 ◌>>◌
abbrev pub ◌>>◌ : Checked → Checked → Checked
ok >> k = k
err e >> k = err e

-- `if bad { return Err(e); }`
unfoldable pub refuse_if : Bool → ConfigError → Checked
refuse_if true e = err e
refuse_if false e = ok

-- the loops over named values, each of which must not be 0
unfoldable pub nonzero : (Bytes → ConfigError) → List (Bytes × ℕ) → Checked
unfolding refuse_if
nonzero error [] = ok
nonzero error ((name, v) ∷ rest) = refuse_if (v == 0) (error name) >> nonzero error rest

abbrev pub is_blank : Bytes → Bool
is_blank s = is_empty (trim s)

-- what is behind `http://` or `https://`
abbrev authority : Bytes → Option Bytes
authority backend = elim (strip_prefix (codes "http://") backend) [
  | some a ↦ some a
  | none ↦ strip_prefix (codes "https://") backend
]

abbrev starts_with_slash : Bytes → Bool
starts_with_slash [] = false
starts_with_slash (c ∷ cs) = c == b'/'

unfoldable pub has_host : Bytes → Bool
has_host backend = elim (authority (trim backend)) [
  | some a ↦ not (is_empty a) && not (starts_with_slash a)
  | none ↦ false
]

unfoldable pub check_rate_limit : RateLimitConfig → Checked
unfolding refuse_if
check_rate_limit r =
    if r.enabled
    then refuse_if (r.requests == 0) (rate_limit_value_zero (codes "requests"))
      >> refuse_if (r.window_seconds == 0) (rate_limit_value_zero (codes "window_seconds"))
      >> refuse_if (elim r.burst [ some b ↦ b == 0 | none ↦ false ])
          (rate_limit_value_zero (codes "burst"))
      >> refuse_if (r.max_tracked_keys == 0) (rate_limit_value_zero (codes "max_tracked_keys"))
      >> refuse_if (elim r.action [ score ↦ r.score == 0 | block ↦ false ])
          (rate_limit_value_zero (codes "score"))
    else ok

unfoldable pub check_tls : TlsConfig → Checked
unfolding refuse_if
check_tls t =
    if t.enabled
    then refuse_if (is_blank t.cert_path) (tls_path_empty (codes "cert_path"))
      >> refuse_if (is_blank t.key_path) (tls_path_empty (codes "key_path"))
      >> refuse_if (is_empty t.alpn || any is_blank t.alpn) tls_alpn_invalid
    else ok

unfoldable pub check_graphql : GraphqlConfig → Checked
unfolding nonzero
check_graphql g =
    if g.enabled
    then nonzero graphql_cap_zero (
        (codes "max_depth", g.max_depth)
        ∷ (codes "max_aliases", g.max_aliases)
        ∷ (codes "max_fields", g.max_fields)
        ∷ (codes "max_directives", g.max_directives)
        ∷ (codes "max_batch", g.max_batch)
        ∷ [])
    else ok

unfoldable pub check_grpc : GrpcConfig → Checked
unfolding nonzero
check_grpc g =
    if g.enabled
    then nonzero grpc_cap_zero (
        (codes "max_message_bytes", g.max_message_bytes)
        ∷ (codes "max_fields", g.max_fields)
        ∷ (codes "max_depth", g.max_depth)
        ∷ [])
    else ok

unfoldable pub check_wasm : WasmConfig → Checked
unfolding refuse_if
check_wasm w =
    if w.enabled
    then refuse_if (is_empty w.plugins) wasm_no_plugins
      >> refuse_if (any (λ (p : WasmPluginConfig). is_blank p.path) w.plugins)
          wasm_plugin_path_empty
    else ok

unfoldable pub check_scores : SeverityScores → Checked
unfolding nonzero
check_scores s = nonzero severity_weight_zero (
    (codes "critical", s.critical)
    ∷ (codes "error", s.error)
    ∷ (codes "warning", s.warning)
    ∷ (codes "notice", s.notice)
    ∷ [])

unfoldable pub check_limits : LimitsConfig → Checked
unfolding nonzero
check_limits l = nonzero limit_zero (
    (codes "max_body_size", l.max_body_size)
    ∷ (codes "max_header_size", l.max_header_size)
    ∷ (codes "max_headers", l.max_headers)
    ∷ (codes "max_params", l.max_params)
    ∷ (codes "max_cookies", l.max_cookies)
    ∷ (codes "max_json_depth", l.max_json_depth)
    ∷ [])

module _ (from_str : Bytes → Option IpAddr) where
  unfoldable pub check_cidrs : List Bytes → Checked
  unfolding refuse_if
  check_cidrs [] = ok
  check_cidrs (cidr ∷ rest) =
      refuse_if (not (is_valid_cidr from_str cidr)) (invalid_cidr cidr) >> check_cidrs rest

  unfoldable pub validate : Config → Checked
  unfolding refuse_if
  validate c =
      refuse_if (not (has_host c.proxy.backend)) (invalid_backend c.proxy.backend)
      >> refuse_if (c.waf.block_threshold == 0) block_threshold_zero
      >> refuse_if (not (leb 1 c.waf.paranoia_level && leb c.waf.paranoia_level max_paranoia_level))
          (paranoia_out_of_range c.waf.paranoia_level)
      >> check_scores c.waf.severity_scores
      >> check_limits c.limits
      >> check_rate_limit c.rate_limit
      >> refuse_if
          (not (leb 1 c.network.trusted_hops && leb c.network.trusted_hops max_trusted_hops))
          (trusted_hops_out_of_range c.network.trusted_hops)
      >> check_cidrs c.network.trusted_proxies
      >> refuse_if (is_blank c.network.client_ip_header) empty_client_ip_header
      >> refuse_if (c.resilience.upstream_timeout_ms == 0) resilience_timeout_zero
      >> check_tls c.tls
      >> check_graphql c.modules.graphql
      >> check_grpc c.modules.grpc
      >> refuse_if (c.modules.crs.enabled && is_empty c.modules.crs.files) crs_no_files
      >> check_wasm c.modules.wasm
