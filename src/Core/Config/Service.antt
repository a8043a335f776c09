-- ===== src/Core/Config/Service.antt =====
-- crates/waf-core/src/lib.rs: the settings of the service around the rules: addresses, TLS, metrics,
-- resilience, the network and the rate limit.
use light_waf.Prelude.{ℕ, Bool, false, Option, none, List, [], ◌∷◌, Bytes, codes}

pub data IpAddr : Type 0 where
  v4 : ℕ → IpAddr
  v6 : ℕ → IpAddr

pub record SocketAddr : Type 0 where
  pub ip : IpAddr
  pub port : ℕ

-- 127.0.0.1
abbrev pub loopback : IpAddr
loopback = v4 0x7f000001

pub data FailMode : Type 0 where
  fail_open fail_closed : FailMode

pub data WafMode : Type 0 where
  detection_only blocking : WafMode

pub record MetricsConfig : Type 0 where
  pub enabled : Bool
  pub listen : SocketAddr

abbrev pub metrics_default : MetricsConfig
metrics_default = record { enabled = false; listen = record { ip = loopback; port = 9090 } }

pub record TlsConfig : Type 0 where
  pub enabled : Bool
  pub cert_path : Bytes
  pub key_path : Bytes
  pub alpn : List Bytes

abbrev pub tls_default : TlsConfig
tls_default = record {
  enabled = false;
  cert_path = [];
  key_path = [];
  alpn = codes "h2" ∷ codes "http/1.1" ∷ [];
}

pub record ResilienceConfig : Type 0 where
  pub on_upstream_error : FailMode
  pub on_internal_error : FailMode
  pub on_config_error : FailMode
  pub on_parser_limit : FailMode
  pub upstream_timeout_ms : ℕ

abbrev pub resilience_default : ResilienceConfig
resilience_default = record {
  on_upstream_error = fail_closed;
  on_internal_error = fail_open;
  on_config_error = fail_open;
  on_parser_limit = fail_closed;
  upstream_timeout_ms = 30000;
}

pub record NetworkConfig : Type 0 where
  pub trusted_proxies : List Bytes
  pub client_ip_header : Bytes
  pub trusted_hops : ℕ

abbrev pub network_default : NetworkConfig
network_default = record {
  trusted_proxies = [];
  client_ip_header = codes "x-forwarded-for";
  trusted_hops = 1;
}

pub data RateLimitKey : Type 0 where
  client_ip : RateLimitKey

pub data RateLimitAction : Type 0 where
  block score : RateLimitAction

pub record RateLimitConfig : Type 0 where
  pub enabled : Bool
  pub key : RateLimitKey
  pub requests : ℕ
  pub window_seconds : ℕ
  pub burst : Option ℕ
  pub action : RateLimitAction
  pub score : ℕ
  pub max_tracked_keys : ℕ

abbrev pub rate_limit_default : RateLimitConfig
rate_limit_default = record {
  enabled = false;
  key = client_ip;
  requests = 100;
  window_seconds = 60;
  burst = none;
  action = block;
  score = 5;
  max_tracked_keys = 100000;
}
