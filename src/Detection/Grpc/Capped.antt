-- ===== src/Detection/Grpc/Capped.antt =====
-- A gRPC body that is let through is within the caps.
use light_waf.Prelude.{◌≤◌, Bool, true, false, Bytes, ◌≡◌, arith}
use light_waf.Core.Config.{GrpcConfig, CompressedPolicy}
use light_waf.Core.Decision.{allow}
use light_waf.Core.Request.{RequestContext, raw}
use light_waf.Normalizer.Grpc.{GrpcExtract, grpc_extract}
use light_waf.Normalizer.Grpc.Bounds.{grpc_extract-IsWithin, deepest}
use light_waf.Detection.Grpc.{
  GrpcModule, is_grpc, header_compressed, judge, limits_of, on_compressed, reject_as, inspect,
}

-- nothing was reported of a body, and the whole of it was walked
abbrev pub IsClear : GrpcConfig → GrpcExtract → Type 0
IsClear cfg ex =
    (ex.malformed ≡ false)
    × (ex.total_payload_bytes ≤ cfg.max_message_bytes)
    × (ex.compressed ≡ false)
    × (ex.depth_exceeded ≡ false)
    × (ex.fields_exceeded ≡ false)

judge-IsClear :
    (cfg : GrpcConfig) (by_header : Bool) (ex : GrpcExtract)
    → cfg.on_compressed ≡ CompressedPolicy.reject
    → judge cfg by_header ex ≡ allow
    → IsClear cfg ex × (by_header ≡ false)
unfolding judge on_compressed reject_as
judge-IsClear cfg by_header ex policy h = ground arith

-- With the module enabled and compressed payloads rejected, a request of gRPC's content type with a raw
-- body that is let through has a well-formed body, no compression in its frames or its header, payloads of no
-- more bytes than the limit, no message below the depth limit (the first message aside) and no more fields
-- than the limit.
pub inspect-IsClear :
    (m : GrpcModule) (ctx : RequestContext) (bytes : Bytes)
    → m.cfg.enabled ≡ true
    → m.cfg.on_compressed ≡ CompressedPolicy.reject
    → is_grpc ctx ≡ true
    → ctx.normalized.body ≡ raw bytes
    → inspect m ctx ≡ allow
    → (IsClear m.cfg (grpc_extract (limits_of m.cfg) bytes) × (header_compressed ctx ≡ false))
      × ((grpc_extract (limits_of m.cfg) bytes).max_depth ≤ deepest (limits_of m.cfg))
      × ((grpc_extract (limits_of m.cfg) bytes).fields ≤ m.cfg.max_fields)
unfolding inspect
inspect-IsClear m ctx bytes on policy is body h =
    let ex = grpc_extract (limits_of m.cfg) bytes in
    let within = grpc_extract-IsWithin (limits_of m.cfg) bytes in
    let clear = judge-IsClear m.cfg (header_compressed ctx) ex policy judged in
    (clear, within.depth, unfold limits_of in (within.fields clear.0.4))
  where
    judged : judge m.cfg (header_compressed ctx) (grpc_extract (limits_of m.cfg) bytes) ≡ allow
    judged = rw body at (rw is at (rw on at h))
