-- ===== src/ControlPlane/AuditLog.antt =====
-- crates/waf-controlplane/src/gov_api.rs: the handlers that show the audit log and check it.
use light_waf.Prelude.{
  ℕ, ◌-◌, ◌^◌, true, false, Option, none, some, ◌∷◌, Bytes, codes, length, ltb, decimal,
  if◌then◌else◌,
}
use light_waf.Schema.Value.{Value, bool, number, string, object, member_and, no_members}
use light_waf.Governance.Audit.{ChainBreak, verify_chain}
use light_waf.Governance.Store.Queries
use light_waf.ControlPlane.Server.{
  json, records, Libraries, Response, M, ◌>>=◌, pure, on_pool, reply, or_500,
}

-- a limit of `i64`, by its sign
pub data Limit : Type 0 where
  not_negative negative : ℕ → Limit

-- `unwrap_or(100).clamp(1, 1000)`
unfoldable pub clamped : Option Limit → ℕ
clamped none = 100
clamped (some (negative n)) = 1
clamped (some (not_negative n)) = if ltb n 1 then 1 else if ltb 1000 n then 1000 else n

-- an `i64` in JSON, from its word
unfoldable pub i64_json : ℕ → Value
i64_json n = number (if ltb n (2 ^ 63) then decimal n else b'-' ∷ decimal (2 ^ 64 - n))

-- the members of an object are ordered by their keys
unfoldable pub report : Bytes → ℕ → Option ChainBreak → Value
unfolding i64_json
report public_key count none = object (
    member_and (codes "count") (number (decimal count)) (
      member_and (codes "ok") (bool true)
        (member_and (codes "public_key") (string public_key) no_members)))
report public_key count (some brk) = object (
    member_and (codes "broken_seq") (i64_json brk.seq) (
      member_and (codes "count") (number (decimal count)) (
        member_and (codes "ok") (bool false) (
          member_and (codes "public_key") (string public_key)
            (member_and (codes "reason") (string brk.reason) no_members)))))

unfoldable pub list_audit : Option Limit → M Response
unfolding clamped on_pool Queries.recent_audit or_500 ◌>>=◌ pure
list_audit limit = do
  found ← on_pool (Queries.recent_audit (clamped limit))
  or_500 found λ l. pure (reply 200 (records l))

unfoldable pub verify_audit : Libraries → M Response
unfolding on_pool Queries.all_audit_ordered or_500 ◌>>=◌ pure
verify_audit lib = do
  found ← on_pool Queries.all_audit_ordered
  or_500 found λ l. pure (
      reply 200 (
        json (
          report lib.public_key_hex (length l)
            (verify_chain lib.sha256 lib.hex_encode lib.verify_signature l))))
