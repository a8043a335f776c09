-- ===== src/ControlPlane/Siem/Cef/Escape.antt =====
-- crates/waf-controlplane/src/siem.rs: the lengths of the fields of the Common Event Format, and its escapes.
use light_waf.Prelude.{
  ℕ, Bool, ◌&&◌, ◌||◌, [], ◌∷◌, ◌++◌, Bytes, take, leb, ltb, ◌==◌, if◌then◌else◌,
}

abbrev pub cef_max_act : ℕ
cef_max_act = 63

abbrev pub cef_max_dvchost : ℕ
cef_max_dvchost = 100

abbrev pub cef_max_external_id : ℕ
cef_max_external_id = 40

abbrev pub cef_max_outcome : ℕ
cef_max_outcome = 63

abbrev pub cef_max_string : ℕ
cef_max_string = 1023

abbrev pub cef_max_custom_string : ℕ
cef_max_custom_string = 4000

abbrev pub cef_max_signature : ℕ
cef_max_signature = 1023

abbrev pub cef_audit_severity : ℕ
cef_audit_severity = 3

-- `char::is_control`
abbrev pub is_control : ℕ → Bool
is_control c = ltb c 32 || leb 127 c && leb c 159

abbrev pub header_char : ℕ → Bytes
header_char c =
    if c == b'\\'
    then b'\\' ∷ b'\\' ∷ []
    else if c == b'|'
    then b'\\' ∷ b'|' ∷ []
    else if is_control c
    then b' ' ∷ []
    else c ∷ []

unfoldable pub cef_header : Bytes → Bytes
cef_header [] = []
cef_header (c ∷ value) = header_char c ++ cef_header value

abbrev pub value_char : ℕ → Bytes
value_char c =
    if c == b'\\'
    then b'\\' ∷ b'\\' ∷ []
    else if c == b'='
    then b'\\' ∷ b'=' ∷ []
    else if c == b'\n'
    then b'\\' ∷ b'n' ∷ []
    else if c == b'\r'
    then b'\\' ∷ b'r' ∷ []
    else if is_control c
    then b' ' ∷ []
    else c ∷ []

unfoldable pub cef_value : Bytes → Bytes
cef_value [] = []
cef_value (c ∷ value) = value_char c ++ cef_value value

unfoldable pub cef_clip : Bytes → ℕ → Bytes
cef_clip value max = take max value
