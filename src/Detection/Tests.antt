-- ===== src/Detection/Tests.antt =====
-- The theorems on the structural modules, each at a concrete request.
use light_waf.Prelude.{
  ◌≤◌, true, false, none, List, [], ◌∷◌, Bytes, codes, ◌≡◌, ◌↔◌, ◌⊎◌, refl, ◌=bytes◌, trim_start,
}
use light_waf.Core.Config.{grpc_default, loopback}
use light_waf.Core.Decision.{allow}
use light_waf.Core.Request.{RequestContext, Normalized, normalized_default, raw}
use light_waf.Normalizer.Grpc.{grpc_extract, read_varint}
use light_waf.Normalizer.Grpc.Bounds.{deepest}
use light_waf.Detection.Smuggling.{RequestSmugglingModule, values_of}
use light_waf.Detection.Smuggling
use light_waf.Detection.Smuggling.Framing.{IsUnambiguous, RejectsWith400, inspect-IsUnambiguous}
use light_waf.Detection.Grpc.{GrpcModule, header_compressed, limits_of, is_grpc}
use light_waf.Detection.Grpc
use light_waf.Detection.Grpc.Capped.{IsClear, inspect-IsClear}

abbrev request : List (Bytes × Bytes) → Normalized → RequestContext
request sent read = record {
  client_ip = loopback;
  request_id = codes "r1";
  timestamp = 0;
  method = codes "POST";
  path = codes "/";
  raw_path = codes "/";
  query = none;
  http_version = codes "HTTP/1.1";
  headers = sent;
  cookies = [];
  body = [];
  normalized = read;
  score = 0;
  score_contributions = [];
}

abbrev framed : RequestContext
framed =
    request
      ((codes "content-length", codes "12") ∷ (codes "transfer-encoding", codes "chunked") ∷ [])
      normalized_default

abbrev enabled : RequestSmugglingModule
enabled = record { enabled = true }

inspect-IsUnambiguous_example :
    ((Smuggling.inspect enabled framed ≡ allow)
      ↔ IsUnambiguous
          (values_of (codes "content-length") framed.headers)
          (values_of (codes "transfer-encoding") framed.headers))
    × ((Smuggling.inspect enabled framed ≡ allow)
        ⊎ RejectsWith400 (Smuggling.inspect enabled framed))
inspect-IsUnambiguous_example = inspect-IsUnambiguous enabled framed refl

-- one message with the field 1 = 5
abbrev body : Bytes
body = 0 ∷ 0 ∷ 0 ∷ 0 ∷ 2 ∷ 8 ∷ 5 ∷ []

abbrev call : RequestContext
call = request [] (record normalized_default {
  headers = (codes "content-type", codes "application/grpc+proto") ∷ [];
  body = raw body;
})

abbrev capped : GrpcModule
capped = record { cfg = record grpc_default { enabled = true } }

call_passes : Grpc.inspect capped call ≡ allow
unfolding Grpc.inspect grpc_extract trim_start ◌=bytes◌ read_varint
call_passes = refl

inspect-IsClear_example :
    (IsClear capped.cfg (grpc_extract (limits_of capped.cfg) body)
      × (header_compressed call ≡ false))
    × ((grpc_extract (limits_of capped.cfg) body).max_depth ≤ deepest (limits_of capped.cfg))
    × ((grpc_extract (limits_of capped.cfg) body).fields ≤ capped.cfg.max_fields)
unfolding is_grpc trim_start ◌=bytes◌
inspect-IsClear_example = inspect-IsClear capped call body refl refl refl refl call_passes
