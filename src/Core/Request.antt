-- ===== src/Core/Request.antt =====
-- crates/waf-core/src/lib.rs: a request on its way through the pipeline.
use light_waf.Prelude.{ℕ, Bool, false, Option, none, List, [], Bytes}
use light_waf.Core.Decision.{ScoreContribution}
use light_waf.Core.Config.{IpAddr}

pub record MultipartField : Type 0 where
  pub name : Bytes
  pub filename : Option Bytes
  pub content_type : Option Bytes
  pub content : Bytes

pub data ParsedBody : Type 0 where
  no_body : ParsedBody
  form_url_encoded : List (Bytes × Bytes) → ParsedBody
  multipart : List MultipartField → ParsedBody
  json_flattened : List (Bytes × Bytes) → ParsedBody
  raw : Bytes → ParsedBody

pub record Normalized : Type 0 where
  pub path : Bytes
  pub query : Option Bytes
  pub query_params : List (Bytes × Bytes)
  pub cookies : List (Bytes × Bytes)
  pub headers : List (Bytes × Bytes)
  pub body : ParsedBody
  pub double_encoding_detected : Bool
  pub null_byte_detected : Bool
  pub derived_decoded : List Bytes

-- the derived `Default`
abbrev pub normalized_default : Normalized
normalized_default = record {
  path = [];
  query = none;
  query_params = [];
  cookies = [];
  headers = [];
  body = no_body;
  double_encoding_detected = false;
  null_byte_detected = false;
  derived_decoded = [];
}

pub record RequestContext : Type 0 where
  pub client_ip : IpAddr
  pub request_id : Bytes
  pub timestamp : ℕ
  pub method : Bytes
  pub path : Bytes
  pub raw_path : Bytes
  pub query : Option Bytes
  pub http_version : Bytes
  pub headers : List (Bytes × Bytes)
  pub cookies : List (Bytes × Bytes)
  pub body : Bytes
  pub normalized : Normalized
  pub score : ℕ
  pub score_contributions : List ScoreContribution
