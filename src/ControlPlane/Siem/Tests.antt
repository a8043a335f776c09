-- ===== src/ControlPlane/Siem/Tests.antt =====
-- The export to a SIEM at concrete inputs.
use light_waf.Prelude.{
  ◌≡◌, refl, ℕ, Option, none, some, List, [], ◌∷◌, ◌++◌, map, Bytes, codes, split, ◌=bytes◌,
  decimal, inl, inr, ap, arith,
}
use light_waf.Governance.Store.{answered}
use light_waf.ControlPlane.Siem.{ℤ, SiemEvent}
use light_waf.ControlPlane.Siem.Cef.{
  cef_clip, cef_signature, cef_name, cef_severity, cef_extension, cef_line, format_batch, cef_value,
}
use light_waf.ControlPlane.Siem.Lines.{split-format_batch}
use light_waf.ControlPlane.Siem.Header.{read_header, blanked, read_header-cef_line}
use light_waf.ControlPlane.Siem.Forward.{
  answer, Cycle, StreamStatus, Row, Export, no_export, get_cursor, fetch_since,
}
use light_waf.ControlPlane.Siem.Forward.Delivered.{In, IsDelivered}
use light_waf.ControlPlane.Siem.Forward.Run.{Event, appears, cycles, run, run-IsDelivered}
use light_waf.ControlPlane.Siem.Forward.Late.{run-IsLate}

abbrev no_time : Bytes → Option ℤ
no_time s = none

-- the path of the request holds a line break and a bar
abbrev hostile : SiemEvent
hostile = record {
  schema_version = 1;
  timestamp = codes "2026-01-01T00:00:00Z";
  event = record {
    kind = codes "alert";
    category = codes "network" ∷ [];
    action = codes "blocked";
    outcome = some (codes "failure");
    id = codes "waf-decision-7";
  };
  source = none;
  http = some (codes "GET");
  url = some (codes "/a\nCEF:0|x");
  rule = some (codes "r|1\n2");
  user = none;
  message = none;
  observer = record { vendor = codes "Light WAF"; product = codes "waf"; version = codes "1.0" };
  waf = record { node = none; score = none; contributions = []; audit = none; alert = none };
}

newline_is_escaped : cef_value (codes "a\nb=c") ≡ codes "a\\nb\\=c"
unfolding cef_value
newline_is_escaped = refl

split-format_batch_example :
    split b'\n' (format_batch no_time (hostile ∷ hostile ∷ []))
    ≡ map (cef_line no_time) (hostile ∷ hostile ∷ []) ++ ([] ∷ [])
split-format_batch_example = split-format_batch no_time (hostile ∷ hostile ∷ [])

read_header-cef_line_example : read_header 7 (cef_line no_time hostile) ≡ (
  codes "CEF:0"
      ∷ codes "Light WAF"
      ∷ codes "waf"
      ∷ codes "1.0"
      ∷ codes "r|1 2"
      ∷ codes "Request blocked"
      ∷ codes "0"
      ∷ [],
  cef_extension no_time hostile,
)
unfolding blanked cef_clip cef_signature cef_name cef_severity ◌=bytes◌ decimal
read_header-cef_line_example = read_header-cef_line no_time hostile

abbrev fresh_status : StreamStatus
fresh_status = record {
  last_cursor = 0;
  last_delivered = 0;
  last_success_at = none;
  last_error = none;
  last_error_at = none;
}

abbrev cycle : ℕ → Cycle
cycle status = record {
  now = 1;
  reads_cursor = none;
  reads_rows = none;
  sink = answer status;
  stores_cursor = answered;
  stores_error = [];
}

-- two rows, a refused batch, an acknowledged one, and a row more
abbrev history : List (Event Bytes)
history =
    appears (1, codes "a")
    ∷ appears (3, codes "b")
    ∷ cycles (cycle 503)
    ∷ cycles (cycle 200)
    ∷ appears (4, codes "c")
    ∷ []

run-IsDelivered_example :
    IsDelivered
      (get_cursor (run 10 history ([], no_export Bytes fresh_status)).1.cursor)
      (run 10 history ([], no_export Bytes fresh_status)).1.acknowledged
      (run 10 history ([], no_export Bytes fresh_status)).0
unfolding get_cursor
run-IsDelivered_example = run-IsDelivered 10 fresh_status history (
  omega arith,
  tt,
  (omega arith, (omega arith, tt), (omega arith, (omega arith, (omega arith, tt)), tt)),
)

-- a row 3 is sent before a row 2 is committed
abbrev early : List (Event Bytes)
early = appears (3, codes "b") ∷ appears (1, codes "a") ∷ cycles (cycle 200) ∷ []

abbrev after_early : List (Row Bytes) × Export Bytes
after_early = run 10 early ([], no_export Bytes fresh_status)

-- a batch is in the order of the ids, whatever the order of the table
first_by_id : fetch_since 0 1 ((5, codes "c") ∷ (3, codes "b") ∷ []) ≡ (3, codes "b") ∷ []
unfolding fetch_since
first_by_id = refl

abbrev late_row : Row Bytes
late_row = (2, codes "late")

late_row_is_missing : ¬ In late_row after_early.1.sent
unfolding run
late_row_is_missing (inl e) = absurd (omega (arith, ap (λ (r : Row Bytes). r.0) e))
late_row_is_missing (inr (inl e)) = absurd (omega (arith, ap (λ (r : Row Bytes). r.0) e))
late_row_is_missing (inr (inr e)) = absurd e

abbrev later_events : List (Event Bytes)
later_events = appears (4, codes "c") ∷ cycles (cycle 200) ∷ []

run-IsLate_example :
    In late_row (run 10 (appears late_row ∷ later_events) after_early).0
    × (¬ In late_row (run 10 (appears late_row ∷ later_events) after_early).1.sent)
unfolding run get_cursor
run-IsLate_example =
    run-IsLate late_row 10 later_events after_early.0 after_early.1 (omega arith)
      late_row_is_missing
