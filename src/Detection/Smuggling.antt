-- ===== src/Detection/Smuggling.antt =====
-- crates/waf-detection/src/request_smuggling.rs: a request whose framing two parsers could read
-- differently is refused.
pub mod Framing
use light_waf.Prelude.{
  ℕ, Bool, true, false, not, ◌&&◌, Option, none, some, List, [], ◌∷◌, Bytes, codes, ◌=bytes◌, all,
  filterb, is_empty, leb, map, eq_ignore_ascii_case, if◌then◌else◌,
}
use light_waf.Core.Config.{Config}
use light_waf.Core.Decision.{Decision, allow, reject}
use light_waf.Core.Request.{RequestContext}

pub record RequestSmugglingModule : Type 0 where
  pub enabled : Bool

unfoldable pub init : Config → RequestSmugglingModule
init cfg = record { enabled = cfg.modules.request_smuggling.enabled }

unfoldable pub reject_as : Bytes → Decision
reject_as reason = reject (codes "request-smuggling") reason 400 none

unfoldable pub is_valid_content_length : Bytes → Bool
is_valid_content_length v = not (is_empty v) && all (λ b. leb b'0' b && leb b b'9') v

-- the values of the headers of a name
unfoldable pub values_of : Bytes → List (Bytes × Bytes) → List Bytes
values_of name headers =
    map (λ (h : Bytes × Bytes). h.1) (filterb (λ (h : Bytes × Bytes). h.0 =bytes name) headers)

-- rule 3
unfoldable pub check_te : List Bytes → Decision
unfolding reject_as
check_te [] = allow
check_te (v ∷ []) =
    if not (eq_ignore_ascii_case v (codes "chunked"))
    then reject_as (codes "obfuscated or non-chunked transfer-encoding")
    else allow
check_te (v ∷ w ∷ te) = reject_as (codes "duplicate transfer-encoding headers")

-- rules 2 and 3
unfoldable pub check_cl : List Bytes → List Bytes → Decision
unfolding is_valid_content_length check_te
check_cl [] te = check_te te
check_cl (v ∷ []) te =
    if not (is_valid_content_length v)
    then reject_as (codes "malformed content-length value")
    else check_te te
check_cl (v ∷ w ∷ cl) te = reject_as (codes "duplicate content-length headers")

-- the rules on the values of both headers
unfoldable pub check_framing : List Bytes → List Bytes → Decision
unfolding check_cl
check_framing cl te =
    if not (is_empty cl) && not (is_empty te)
    then reject_as (codes "content-length and transfer-encoding both present")
    else check_cl cl te

unfoldable pub inspect : RequestSmugglingModule → RequestContext → Decision
unfolding values_of check_framing
inspect m ctx =
    if not m.enabled
    then allow
    else check_framing (values_of (codes "content-length") ctx.headers)
        (values_of (codes "transfer-encoding") ctx.headers)
