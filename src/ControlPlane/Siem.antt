-- ===== src/ControlPlane/Siem.antt =====
-- crates/waf-controlplane/src/siem.rs, with the records of model.rs: the events that are sent to a SIEM.
-- Here a string is the list of its characters, as `chars` gives them; a time is its nanoseconds. The
-- printing and parsing of times and addresses come from elsewhere.
pub mod Cef
pub mod Lines
pub mod Header
pub mod Forward
mod Tests
use light_waf.Prelude.{
  ℕ, ◌+◌, ◌/◌, ◌^◌, Bool, true, false, not, Option, none, some, List, [], ◌∷◌, ◌++◌, map, Bytes,
  codes, is_empty, decimal, if◌then◌else◌,
}
use mathlib.Core.Option
use light_waf.Governance.Audit.{AuditRecord}

-- `negsuc n` is -(n + 1)
pub data ℤ : Type 0 where
  pos : ℕ → ℤ
  negsuc : ℕ → ℤ

unfoldable pub to_string : ℤ → Bytes
to_string (pos n) = decimal n
to_string (negsuc n) = b'-' ∷ decimal (n + 1)

pub record Contribution : Type 0 where
  pub module_id : Bytes
  pub rule_id : Bytes
  pub severity : Option Bytes
  pub points : ℕ

pub record DecisionEvent : Type 0 where
  pub request_id : Bytes
  pub ts : ℕ
  pub node : Bytes
  pub method : Option Bytes
  pub path : Option Bytes
  pub client_ip : Option Bytes
  pub decision : Bytes
  pub rule_id : Option Bytes
  pub reason : Option Bytes
  pub score : ℤ
  pub contributions : List Contribution

pub record Alert : Type 0 where
  pub rule_name : Bytes
  pub group_key : Bytes
  pub fired_at : ℕ
  pub severity : Bytes
  pub value : ℤ
  pub threshold : ℤ
  pub summary : Bytes

pub record EventFields : Type 0 where
  pub kind : Bytes
  pub category : List Bytes
  pub action : Bytes
  pub outcome : Option Bytes
  pub id : Bytes

pub record Observer : Type 0 where
  pub vendor : Bytes
  pub product : Bytes
  pub version : Bytes

pub record WafAudit : Type 0 where
  pub seq : ℕ
  pub hash : Bytes
  pub signature : Bytes
  pub prev_hash : Bytes

pub record WafAlert : Type 0 where
  pub rule : Bytes
  pub group : Bytes
  pub value : ℤ
  pub threshold : ℤ
  pub severity : Bytes

pub record Waf : Type 0 where
  pub node : Option Bytes
  pub score : Option ℤ
  pub contributions : List Contribution
  pub audit : Option WafAudit
  pub alert : Option WafAlert

-- a record of one text, such as `Source` or `Url`, is that text
pub record SiemEvent : Type 0 where
  pub schema_version : ℕ
  pub timestamp : Bytes
  pub event : EventFields
  pub source : Option Bytes
  pub http : Option Bytes
  pub url : Option Bytes
  pub rule : Option Bytes
  pub user : Option Bytes
  pub message : Option Bytes
  pub observer : Observer
  pub waf : Waf

-- the derived `Default`
abbrev pub no_waf : Waf
no_waf = record { node = none; score = none; contributions = []; audit = none; alert = none }

module _ (rfc3339 : ℕ → Bytes) (is_ip : Bytes → Bool) (package_version : Bytes) where
  abbrev pub observer : Observer
  observer = record { vendor = codes "Light WAF"; product = codes "waf"; version = package_version }

  unfoldable pub source_ip : Bytes → Option Bytes
  source_ip value = if is_ip value then some value else none

  unfoldable pub decision_to_siem : ℤ → DecisionEvent → SiemEvent
  unfolding source_ip to_string
  decision_to_siem id ev = record {
    schema_version = 1;
    timestamp = rfc3339 ev.ts;
    event = record {
      kind = codes "alert";
      category = codes "network" ∷ codes "intrusion_detection" ∷ [];
      action = ev.decision;
      outcome = some (codes "failure");
      id = codes "waf-decision-" ++ to_string id;
    };
    source = elim ev.client_ip [ none ↦ none | some ip ↦ source_ip ip ];
    http = ev.method;
    url = ev.path;
    rule = ev.rule_id;
    user = none;
    message = ev.reason;
    observer = observer;
    waf = record {
      node = some ev.node;
      score = some ev.score;
      contributions = ev.contributions;
      audit = none;
      alert = none;
    };
  }

  unfoldable pub audit_to_siem : AuditRecord → SiemEvent
  audit_to_siem rec = record {
    schema_version = 1;
    timestamp = rfc3339 rec.ts;
    event = record {
      kind = codes "event";
      category = codes "iam" ∷ codes "configuration" ∷ [];
      action = rec.action;
      outcome = none;
      id = codes "waf-audit-" ++ decimal rec.seq;
    };
    source = none;
    http = none;
    url = none;
    rule = none;
    user = some rec.actor;
    message = rec.target;
    observer = observer;
    waf = record no_waf {
      audit = some (record {
        seq = rec.seq;
        hash = rec.hash;
        signature = rec.signature;
        prev_hash = rec.prev_hash;
      });
    };
  }

  unfoldable pub alert_to_siem : ℤ → Alert → SiemEvent
  unfolding source_ip to_string
  alert_to_siem id a = record {
    schema_version = 1;
    timestamp = rfc3339 a.fired_at;
    event = record {
      kind = codes "alert";
      category = codes "intrusion_detection" ∷ [];
      action = a.rule_name;
      outcome = none;
      id = codes "waf-alert-" ++ to_string id;
    };
    source = source_ip a.group_key;
    http = none;
    url = none;
    rule = some a.rule_name;
    user = none;
    message = if not (is_empty a.summary) then some a.summary else none;
    observer = observer;
    waf = record no_waf {
      alert = some (record {
        rule = a.rule_name;
        group = a.group_key;
        value = a.value;
        threshold = a.threshold;
        severity = a.severity;
      });
    };
  }
