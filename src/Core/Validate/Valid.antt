-- ===== src/Core/Validate/Valid.antt =====
-- What a configuration that passes validation is worth: it is accepted exactly when every setting is
-- in its legal range.
use light_waf.Prelude.{
  ◌≤◌, Bool, true, false, Option, some, List, [], ◌∷◌, Bytes, ◌≡◌, ◌↔◌, ◌≢◌, refl, arith, any, All,
}
use light_waf.Core.Config.{
  IpAddr, Config, SeverityScores, LimitsConfig, RateLimitConfig, score, TlsConfig, GraphqlConfig,
  GrpcConfig, WasmConfig, WasmPluginConfig,
}
use light_waf.Core.Network.{is_valid_cidr}
use light_waf.Core.Validate.{
  ConfigError, Checked, ok, ◌>>◌, refuse_if, is_blank, has_host, check_rate_limit, check_tls,
  check_graphql, check_grpc, check_wasm, check_scores, check_limits, check_cidrs, validate,
}

refuse_if_iff : (b : Bool) (e : ConfigError) → (refuse_if b e ≡ ok) ↔ (b ≡ false)
unfolding refuse_if
refuse_if_iff b e = ground arith

>>_iff : (m k : Checked) → ((m >> k) ≡ ok) ↔ ((m ≡ ok) × (k ≡ ok))
>>_iff m k = ground arith

pub record ScoresInRange (s : SeverityScores) : Type 0 where
  pub critical : 1 ≤ s.critical
  pub error : 1 ≤ s.error
  pub warning : 1 ≤ s.warning
  pub notice : 1 ≤ s.notice

check_scores_iff : (s : SeverityScores) → (check_scores s ≡ ok) ↔ ScoresInRange s
unfolding check_scores
check_scores_iff s = ground arith

pub record LimitsInRange (l : LimitsConfig) : Type 0 where
  pub max_body_size : 1 ≤ l.max_body_size
  pub max_header_size : 1 ≤ l.max_header_size
  pub max_headers : 1 ≤ l.max_headers
  pub max_params : 1 ≤ l.max_params
  pub max_cookies : 1 ≤ l.max_cookies
  pub max_json_depth : 1 ≤ l.max_json_depth

check_limits_iff : (l : LimitsConfig) → (check_limits l ≡ ok) ↔ LimitsInRange l
unfolding check_limits
check_limits_iff l = ground arith

pub record GraphqlInRange (g : GraphqlConfig) : Type 0 where
  pub max_depth : 1 ≤ g.max_depth
  pub max_aliases : 1 ≤ g.max_aliases
  pub max_fields : 1 ≤ g.max_fields
  pub max_directives : 1 ≤ g.max_directives
  pub max_batch : 1 ≤ g.max_batch

check_graphql_iff :
    (g : GraphqlConfig) → (check_graphql g ≡ ok) ↔ (g.enabled ≡ true → GraphqlInRange g)
unfolding check_graphql
check_graphql_iff g = ground arith

pub record GrpcInRange (g : GrpcConfig) : Type 0 where
  pub max_message_bytes : 1 ≤ g.max_message_bytes
  pub max_fields : 1 ≤ g.max_fields
  pub max_depth : 1 ≤ g.max_depth

check_grpc_iff : (g : GrpcConfig) → (check_grpc g ≡ ok) ↔ (g.enabled ≡ true → GrpcInRange g)
unfolding check_grpc
check_grpc_iff g = ground arith

pub record RateLimitInRange (r : RateLimitConfig) : Type 0 where
  pub requests : 1 ≤ r.requests
  pub window_seconds : 1 ≤ r.window_seconds
  pub burst : r.burst ≢ some 0
  pub max_tracked_keys : 1 ≤ r.max_tracked_keys
  pub score_points : r.action ≡ score → 1 ≤ r.score

check_rate_limit_iff :
    (r : RateLimitConfig) → (check_rate_limit r ≡ ok) ↔ (r.enabled ≡ true → RateLimitInRange r)
unfolding check_rate_limit
check_rate_limit_iff r = ground arith

module _ {ℓ} {A : Type ℓ} (p : A → Bool) where
  any_iff : (xs : List A) → (any p xs ≡ false) ↔ All (λ x. p x ≡ false) xs
  any_iff [] = (λ e. tt, λ e. refl)
  any_iff (x ∷ xs) = ground (arith, any_iff xs)

abbrev IsWritten : Bytes → Type 0
IsWritten s = is_blank s ≡ false

pub record TlsInRange (t : TlsConfig) : Type 0 where
  pub cert_path : IsWritten t.cert_path
  pub key_path : IsWritten t.key_path
  pub some_alpn : t.alpn ≢ []
  pub alpn_names : All IsWritten t.alpn

check_tls_iff : (t : TlsConfig) → (check_tls t ≡ ok) ↔ (t.enabled ≡ true → TlsInRange t)
unfolding check_tls
check_tls_iff t = ground (arith, any_iff is_blank t.alpn)

pub record WasmInRange (w : WasmConfig) : Type 0 where
  pub some_plugin : w.plugins ≢ []
  pub plugin_paths : All (λ (p : WasmPluginConfig). IsWritten p.path) w.plugins

check_wasm_iff : (w : WasmConfig) → (check_wasm w ≡ ok) ↔ (w.enabled ≡ true → WasmInRange w)
unfolding check_wasm
check_wasm_iff w = ground (arith, any_iff (λ (p : WasmPluginConfig). is_blank p.path) w.plugins)

module _ (from_str : Bytes → Option IpAddr) where
  check_cidrs_iff :
      (cidrs : List Bytes)
      → (check_cidrs from_str cidrs ≡ ok) ↔ All (λ s. is_valid_cidr from_str s ≡ true) cidrs
  unfolding check_cidrs
  check_cidrs_iff [] = (λ e. tt, λ e. refl)
  check_cidrs_iff (cidr ∷ rest) = ground (arith, check_cidrs_iff rest)

  -- every setting in its legal range; a section's settings count where the section is enabled
  pub record IsValidConfig (c : Config) : Type 0 where
    pub backend : has_host c.proxy.backend ≡ true
    pub block_threshold : 1 ≤ c.waf.block_threshold
    pub paranoia_level : (1 ≤ c.waf.paranoia_level) × (c.waf.paranoia_level ≤ 4)
    pub scores : ScoresInRange c.waf.severity_scores
    pub limits : LimitsInRange c.limits
    pub rate_limit : c.rate_limit.enabled ≡ true → RateLimitInRange c.rate_limit
    pub trusted_hops : (1 ≤ c.network.trusted_hops) × (c.network.trusted_hops ≤ 10)
    pub cidrs : All (λ s. is_valid_cidr from_str s ≡ true) c.network.trusted_proxies
    pub client_ip_header : IsWritten c.network.client_ip_header
    pub upstream_timeout : 1 ≤ c.resilience.upstream_timeout_ms
    pub tls : c.tls.enabled ≡ true → TlsInRange c.tls
    pub graphql : c.modules.graphql.enabled ≡ true → GraphqlInRange c.modules.graphql
    pub grpc : c.modules.grpc.enabled ≡ true → GrpcInRange c.modules.grpc
    pub crs : c.modules.crs.enabled ≡ true → c.modules.crs.files ≢ []
    pub wasm : c.modules.wasm.enabled ≡ true → WasmInRange c.modules.wasm

  -- the checks that `validate` makes, one by one
  record AllPass (c : Config) : Type 0 where
    backend : has_host c.proxy.backend ≡ true
    block_threshold : 1 ≤ c.waf.block_threshold
    paranoia_level : (1 ≤ c.waf.paranoia_level) × (c.waf.paranoia_level ≤ 4)
    scores : check_scores c.waf.severity_scores ≡ ok
    limits : check_limits c.limits ≡ ok
    rate_limit : check_rate_limit c.rate_limit ≡ ok
    trusted_hops : (1 ≤ c.network.trusted_hops) × (c.network.trusted_hops ≤ 10)
    cidrs : check_cidrs from_str c.network.trusted_proxies ≡ ok
    client_ip_header : IsWritten c.network.client_ip_header
    upstream_timeout : 1 ≤ c.resilience.upstream_timeout_ms
    tls : check_tls c.tls ≡ ok
    graphql : check_graphql c.modules.graphql ≡ ok
    grpc : check_grpc c.modules.grpc ≡ ok
    crs : c.modules.crs.enabled ≡ true → c.modules.crs.files ≢ []
    wasm : check_wasm c.modules.wasm ≡ ok

  validate-AllPass : (c : Config) → (validate from_str c ≡ ok) ↔ AllPass c
  unfolding validate
  validate-AllPass c = ground arith

  -- `validate` accepts a configuration exactly when every setting is in its legal range.
  pub validate_iff : (c : Config) → (validate from_str c ≡ ok) ↔ IsValidConfig c
  validate_iff c = (
    λ e.
        let a = (validate-AllPass c).0 e in
        record {
          backend = a.backend;
          block_threshold = a.block_threshold;
          paranoia_level = a.paranoia_level;
          scores = (check_scores_iff c.waf.severity_scores).0 a.scores;
          limits = (check_limits_iff c.limits).0 a.limits;
          rate_limit = (check_rate_limit_iff c.rate_limit).0 a.rate_limit;
          trusted_hops = a.trusted_hops;
          cidrs = (check_cidrs_iff c.network.trusted_proxies).0 a.cidrs;
          client_ip_header = a.client_ip_header;
          upstream_timeout = a.upstream_timeout;
          tls = (check_tls_iff c.tls).0 a.tls;
          graphql = (check_graphql_iff c.modules.graphql).0 a.graphql;
          grpc = (check_grpc_iff c.modules.grpc).0 a.grpc;
          crs = a.crs;
          wasm = (check_wasm_iff c.modules.wasm).0 a.wasm;
        },
    λ v. (validate-AllPass c).1 (record {
      backend = v.backend;
      block_threshold = v.block_threshold;
      paranoia_level = v.paranoia_level;
      scores = (check_scores_iff c.waf.severity_scores).1 v.scores;
      limits = (check_limits_iff c.limits).1 v.limits;
      rate_limit = (check_rate_limit_iff c.rate_limit).1 v.rate_limit;
      trusted_hops = v.trusted_hops;
      cidrs = (check_cidrs_iff c.network.trusted_proxies).1 v.cidrs;
      client_ip_header = v.client_ip_header;
      upstream_timeout = v.upstream_timeout;
      tls = (check_tls_iff c.tls).1 v.tls;
      graphql = (check_graphql_iff c.modules.graphql).1 v.graphql;
      grpc = (check_grpc_iff c.modules.grpc).1 v.grpc;
      crs = v.crs;
      wasm = (check_wasm_iff c.modules.wasm).1 v.wasm;
    }),
  )
