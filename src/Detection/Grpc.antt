-- ===== src/Detection/Grpc.antt =====
-- crates/waf-detection/src/grpc.rs: caps on the shape of a gRPC body.
pub mod Capped
use light_waf.Prelude.{
  ℕ, Bool, true, false, not, ◌||◌, Option, none, some, List, [], ◌∷◌, Bytes, codes, ◌=bytes◌, find,
  ltb, strip_prefix, trim, trim_start, eq_ignore_ascii_case, if◌then◌else◌,
}
use light_waf.Core.Config.{Config, GrpcConfig, grpc_default, CompressedPolicy}
use light_waf.Core.Decision.{Decision, allow, reject}
use light_waf.Core.Request.{RequestContext, ParsedBody, raw}
use light_waf.Normalizer.Grpc.{GrpcLimits, GrpcExtract, grpc_extract}

pub record GrpcModule : Type 0 where
  pub cfg : GrpcConfig

unfoldable pub init : Config → GrpcModule
init cfg = record { cfg = cfg.modules.grpc }

-- the value of the first header of a name
unfoldable pub header : Bytes → List (Bytes × Bytes) → Option Bytes
header name headers = elim (find (λ (h : Bytes × Bytes). h.0 =bytes name) headers) [
  | none ↦ none
  | some h ↦ some h.1
]

unfoldable pub content_type : RequestContext → Bytes
unfolding header
content_type ctx = elim (header (codes "content-type") ctx.normalized.headers) [
  | none ↦ []
  | some v ↦ v
]

unfoldable pub header_compressed : RequestContext → Bool
unfolding header
header_compressed ctx = elim (header (codes "grpc-encoding") ctx.normalized.headers) [
  | none ↦ false
  | some v ↦ not (eq_ignore_ascii_case (trim v) (codes "identity"))
]

unfoldable pub reject_as : Bytes → Decision
reject_as reason = reject (codes "grpc") reason 400 none

unfoldable pub is_grpc : RequestContext → Bool
unfolding content_type
is_grpc ctx = elim (strip_prefix (codes "application/grpc") (trim_start (content_type ctx))) [
  | none ↦ false
  | some rest ↦ true
]

-- the policy for a payload that cannot be inspected
unfoldable pub on_compressed : CompressedPolicy → Decision
unfolding reject_as
on_compressed CompressedPolicy.reject =
    reject_as (codes "gRPC compressed payload is not inspectable")
on_compressed CompressedPolicy.passthrough = allow

-- the decision on the metrics of a body
unfoldable pub judge : GrpcConfig → Bool → GrpcExtract → Decision
unfolding reject_as on_compressed
judge cfg compressed_by_header ex =
    if ex.malformed
    then reject_as (codes "malformed gRPC framing")
    else if ltb cfg.max_message_bytes ex.total_payload_bytes
    then reject_as (codes "gRPC message size exceeds limit")
    else if ex.compressed || compressed_by_header
    then on_compressed cfg.on_compressed
    else if ex.depth_exceeded
    then reject_as (codes "gRPC message nesting depth exceeds limit")
    else if ex.fields_exceeded
    then reject_as (codes "gRPC field count exceeds limit")
    else allow

unfoldable pub limits_of : GrpcConfig → GrpcLimits
limits_of cfg = record { max_depth = cfg.max_depth; max_fields = cfg.max_fields; max_leaves = 0 }

abbrev pub raw_body : ParsedBody → Option Bytes
raw_body (raw bytes) = some bytes
raw_body ParsedBody.no_body = none
raw_body (ParsedBody.form_url_encoded pairs) = none
raw_body (ParsedBody.multipart parts) = none
raw_body (ParsedBody.json_flattened pairs) = none

unfoldable pub inspect : GrpcModule → RequestContext → Decision
unfolding is_grpc header_compressed judge limits_of
inspect m ctx =
    if not m.cfg.enabled
    then allow
    else if not (is_grpc ctx)
    then allow
    else elim (raw_body ctx.normalized.body) [
      | none ↦ allow
      | some bytes ↦ judge m.cfg (header_compressed ctx) (grpc_extract (limits_of m.cfg) bytes)
    ]
