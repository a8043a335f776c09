-- ===== src/ControlPlane/Siem/Cef.antt =====
-- crates/waf-controlplane/src/siem.rs: an event as a line of the Common Event Format, and a batch of them.
pub mod Escape
use light_waf.Prelude.{
  ℕ, ◌+◌, ◌/◌, ◌^◌, Bool, not, ◌&&◌, ◌||◌, Option, none, some, List, [], ◌∷◌, ◌++◌, map, Bytes,
  codes, take, is_empty, leb, ltb, ◌==◌, ◌=bytes◌, decimal, to_ascii_lowercase, if◌then◌else◌,
}
use light_waf.ControlPlane.Siem.{
  ℤ, pos, negsuc, to_string, Contribution, WafAudit, WafAlert, SiemEvent,
}
unfoldable pub use light_waf.ControlPlane.Siem.Cef.Escape.{
  cef_max_act, cef_max_dvchost, cef_max_external_id, cef_max_outcome, cef_max_string,
  cef_max_custom_string, cef_max_signature, cef_audit_severity, is_control, header_char, cef_header,
  value_char, cef_value, cef_clip,
}

unfoldable pub cef_severity_of : Bytes → ℕ
cef_severity_of label =
    let lower = to_ascii_lowercase label in
    if lower =bytes codes "critical"
    then 9
    else if lower =bytes codes "error"
    then 7
    else if lower =bytes codes "warning"
    then 5
    else if lower =bytes codes "notice"
    then 3
    else 0

abbrev max : ℕ → ℕ → ℕ
max a b = if leb a b then b else a

-- the highest severity of the contributions that have one
unfoldable pub highest : List Contribution → ℕ
unfolding cef_severity_of
highest [] = 0
highest (c ∷ cs) = elim c.severity [
  | none ↦ highest cs
  | some label ↦ max (cef_severity_of label) (highest cs)
]

unfoldable pub cef_severity : SiemEvent → ℕ
unfolding cef_severity_of highest
cef_severity ev = elim ev.waf.alert [
  | some alert ↦ cef_severity_of alert.severity
  | none ↦ elim ev.waf.audit [
    | some audit ↦ cef_audit_severity
    | none ↦ highest ev.waf.contributions
  ]
]

unfoldable pub cef_signature : SiemEvent → Bytes
cef_signature ev = elim ev.waf.alert [
  | some alert ↦ codes "alert-" ++ alert.rule
  | none ↦ elim ev.waf.audit [
    | some audit ↦ codes "audit-" ++ ev.event.action
    | none ↦ elim ev.rule [ some id ↦ id | none ↦ codes "decision-" ++ ev.event.action ]
  ]
]

-- the name of a decision
unfoldable pub decision_name : Bytes → Bytes
decision_name action =
    if action =bytes codes "blocked"
    then codes "Request blocked"
    else if action =bytes codes "rejected"
    then codes "Request rejected"
    else codes "Request denied"

unfoldable pub cef_name : SiemEvent → Bytes
unfolding decision_name
cef_name ev = elim ev.waf.alert [
  | some alert ↦ codes "Alert fired"
  | none ↦ elim ev.waf.audit [
    | some audit ↦ codes "Audit event"
    | none ↦ decision_name ev.event.action
  ]
]

-- `join`
unfoldable pub join : Bytes → List Bytes → Bytes
join sep [] = []
join sep (a ∷ []) = a
join sep (a ∷ b ∷ rest) = a ++ (sep ++ join sep (b ∷ rest))

-- a key with its value and the limit of the value
abbrev pub Put : Type 0
Put = Bytes × Bytes × ℕ

unfoldable pub put : Put → Bytes
unfolding cef_value cef_clip
put (key, value, max) = key ++ (b'=' ∷ cef_value (cef_clip value max))

-- nanoseconds as milliseconds; the division of an `i128` goes towards zero
unfoldable pub millis : ℤ → Bytes
millis (pos n) = decimal (n / 10 ^ 6)
millis (negsuc n) = let m = (n + 1) / 10 ^ 6 in if m == 0 then decimal 0 else b'-' ∷ decimal m

-- what an optional field puts
abbrev pub when {ℓ} : {A : Type ℓ} → Option A → (A → List Put) → List Put
when none f = []
when (some a) f = f a

unfoldable pub contribution_text : Contribution → Bytes
contribution_text c = c.module_id ++ (b':' ∷ c.rule_id ++ (b':' ∷ decimal c.points))

unfoldable pub group_puts : Bytes → List Put
group_puts group =
    if not (is_empty group)
    then (codes "cs1", group, cef_max_custom_string)
      ∷ (codes "cs1Label", codes "group", cef_max_string)
      ∷ []
    else []

unfoldable pub alert_puts : WafAlert → List Put
unfolding to_string group_puts
alert_puts alert =
    (codes "cn1", to_string alert.value, cef_max_string)
    ∷ (codes "cn1Label", codes "value", cef_max_string)
    ∷ (codes "cn2", to_string alert.threshold, cef_max_string)
    ∷ (codes "cn2Label", codes "threshold", cef_max_string)
    ∷ group_puts alert.group

unfoldable pub audit_puts : WafAudit → List Put
audit_puts audit =
    (codes "cn1", decimal audit.seq, cef_max_string)
    ∷ (codes "cn1Label", codes "auditSeq", cef_max_string)
    ∷ (codes "cs1", audit.hash, cef_max_custom_string)
    ∷ (codes "cs1Label", codes "auditHash", cef_max_string)
    ∷ (codes "cs2", audit.signature, cef_max_custom_string)
    ∷ (codes "cs2Label", codes "auditSignature", cef_max_string)
    ∷ (codes "cs3", audit.prev_hash, cef_max_custom_string)
    ∷ (codes "cs3Label", codes "auditPrevHash", cef_max_string)
    ∷ []

unfoldable pub score_puts : ℤ → List Put
unfolding to_string
score_puts total =
    (codes "cn1", to_string total, cef_max_string)
    ∷ (codes "cn1Label", codes "score", cef_max_string)
    ∷ []

unfoldable pub contribution_puts : List Contribution → List Put
unfolding contribution_text join
contribution_puts [] = []
contribution_puts (c ∷ cs) =
    (codes "cs1", join (codes ",") (map contribution_text (c ∷ cs)), cef_max_custom_string)
    ∷ (codes "cs1Label", codes "contributions", cef_max_string)
    ∷ []

-- `parse_rfc3339` gives the nanoseconds since the epoch
module _ (parse_rfc3339 : Bytes → Option ℤ) where
  -- the extension's pairs, in their order
  unfoldable pub puts : SiemEvent → List Put
  unfolding millis join score_puts contribution_puts alert_puts audit_puts
  puts ev =
      ((codes "externalId", ev.event.id, cef_max_external_id) ∷ [])
      ++ (when (parse_rfc3339 ev.timestamp) (λ ts. (codes "rt", millis ts, cef_max_string) ∷ [])
          ++ (((codes "act", ev.event.action, cef_max_act)
                ∷ (codes "cat", join (codes ",") ev.event.category, cef_max_string)
                ∷ [])
              ++ (when ev.event.outcome (λ o. (codes "outcome", o, cef_max_outcome) ∷ [])
                  ++ (when ev.source (λ ip. (codes "src", ip, cef_max_string) ∷ [])
                      ++ (when ev.http
                            (λ method. (codes "requestMethod", method, cef_max_string) ∷ [])
                          ++ (when ev.url (λ path. (codes "request", path, cef_max_string) ∷ [])
                              ++ (when ev.user (λ name. (codes "suser", name, cef_max_string) ∷ [])
                                  ++ (when ev.message
                                        (λ msg. (codes "msg", msg, cef_max_string) ∷ [])
                                      ++ (when ev.waf.node
                                            (λ node. (codes "dvchost", node, cef_max_dvchost) ∷ [])
                                          ++ (when ev.waf.score score_puts
                                              ++ (contribution_puts ev.waf.contributions
                                                  ++ (when ev.waf.alert alert_puts
                                                      ++ when ev.waf.audit audit_puts))))))))))))

  unfoldable pub cef_extension : SiemEvent → Bytes
  unfolding puts put join
  cef_extension ev = join (codes " ") (map put (puts ev))

  unfoldable pub cef_line : SiemEvent → Bytes
  unfolding cef_header cef_clip cef_signature cef_name cef_severity cef_extension
  cef_line ev =
      codes "CEF:0"
      ++ (b'|'
          ∷ (cef_header ev.observer.vendor
              ++ (b'|'
                  ∷ (cef_header ev.observer.product
                      ++ (b'|'
                          ∷ (cef_header ev.observer.version
                              ++ (b'|'
                                  ∷ (cef_header (cef_clip (cef_signature ev) cef_max_signature)
                                      ++ (b'|'
                                          ∷ (cef_name ev
                                              ++ (b'|'
                                                  ∷ (decimal (cef_severity ev)
                                                      ++ (b'|' ∷ cef_extension ev)))))))))))))

  -- `CefFormatter::format_batch`
  unfoldable pub format_batch : List SiemEvent → Bytes
  unfolding cef_line
  format_batch [] = []
  format_batch (ev ∷ events) = cef_line ev ++ (b'\n' ∷ format_batch events)
