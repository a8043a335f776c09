-- ===== src/Core/Config.antt =====
-- crates/waf-core/src/lib.rs: the configuration and its defaults. Unsigned integers are numbers,
-- with their widths stated where a computation may wrap.
mod Service
mod Modules
pub use Service.*
pub use Modules.*
use light_waf.Prelude.{ℕ, ◌*◌, Bool, true, false, List, [], ◌∷◌, Bytes, codes}
use light_waf.Core.Decision.{Severity, critical, error, warning, notice}

pub record SeverityScores : Type 0 where
  pub critical : ℕ
  pub error : ℕ
  pub warning : ℕ
  pub notice : ℕ

abbrev pub severity_scores_default : SeverityScores
severity_scores_default = record { critical = 6; error = 4; warning = 3; notice = 2 }

unfoldable pub points_for : SeverityScores → Severity → ℕ
points_for s critical = s.critical
points_for s error = s.error
points_for s warning = s.warning
points_for s notice = s.notice

pub record ProxyConfig : Type 0 where
  pub listen : SocketAddr
  pub backend : Bytes

abbrev pub proxy_default : ProxyConfig
proxy_default = record {
  listen = record { ip = loopback; port = 8080 };
  backend = codes "http://localhost:8080";
}

pub record WafConfig : Type 0 where
  pub mode : WafMode
  pub block_threshold : ℕ
  pub paranoia_level : ℕ
  pub severity_scores : SeverityScores

abbrev pub waf_default : WafConfig
waf_default = record {
  mode = detection_only;
  block_threshold = 5;
  paranoia_level = 1;
  severity_scores = severity_scores_default;
}

pub record LimitsConfig : Type 0 where
  pub max_body_size : ℕ
  pub max_header_size : ℕ
  pub max_headers : ℕ
  pub max_params : ℕ
  pub max_cookies : ℕ
  pub max_json_depth : ℕ

abbrev pub limits_default : LimitsConfig
limits_default = record {
  max_body_size = 1048576;
  max_header_size = 8192;
  max_headers = 100;
  max_params = 100;
  max_cookies = 50;
  max_json_depth = 20;
}

pub record Config : Type 0 where
  pub proxy : ProxyConfig
  pub waf : WafConfig
  pub limits : LimitsConfig
  pub modules : ModulesConfig
  pub rate_limit : RateLimitConfig
  pub network : NetworkConfig
  pub resilience : ResilienceConfig
  pub tls : TlsConfig
  pub metrics : MetricsConfig

abbrev pub config_default : Config
config_default = record {
  proxy = proxy_default;
  waf = waf_default;
  limits = limits_default;
  modules = modules_default;
  rate_limit = rate_limit_default;
  network = network_default;
  resilience = resilience_default;
  tls = tls_default;
  metrics = metrics_default;
}
