-- ===== src/Normalizer/Tests.antt =====
-- The theorems on canonical values, each at a concrete input.
use light_waf.Prelude.{
  false, ◌+◌, ◌≤◌, true, some, [], ◌∷◌, ◌++◌, Bytes, codes, length, ◌≡◌, refl, arith, All,
}
use light_waf.Prelude.Utf8.{is_utf8}
use light_waf.Normalizer.Canonical.{TextOps}
use light_waf.Normalizer.Percent.{percent_overlong_fixpoint, fixpoint_loop}
use light_waf.Normalizer.Percent.Decode.{IsByte}
use light_waf.Normalizer.Percent.Fixpoint.{
  Converged, encode_layers, IsPlain, percent_overlong_fixpoint-Converged,
  percent_overlong_fixpoint-encode_layers,
}
use light_waf.Normalizer.Path.{normalize_path}
use light_waf.Normalizer.Path.Resolved.{IsResolved, normalize_path-IsResolved}
use light_waf.Normalizer.Base64.{base64_decode, expand_loop, expand_base64}
use light_waf.Normalizer.Base64.RoundTrip.{encode_core, padding, base64_decode-encode_core}
use light_waf.Normalizer.Base64.Budget.{expand_base64-budget}
use light_waf.Normalizer.Graphql.{graphql_lex}
use light_waf.Normalizer.Graphql.Hidden.{opening, graphql_lex-opening}
use light_waf.Normalizer.Grpc.{GrpcExtract, grpc_limits_default, grpc_extract, read_varint}
use light_waf.Normalizer.Grpc.Bounds.{IsWithin, grpc_extract-IsWithin}

-- Unicode tables of a text that is in canonical form and in lower case
abbrev ascii_ops : TextOps
ascii_ops = record { nfkc = λ s. s; to_lowercase = λ s. s }

abbrev two_bytes : Bytes
two_bytes = 39 ∷ 193 ∷ []

two_bytes-IsByte : All IsByte two_bytes
two_bytes-IsByte = (omega arith, (omega arith, tt))

abbrev overlong_slash : Bytes
overlong_slash = 192 ∷ 175 ∷ []

percent_overlong_fixpoint-Converged_example :
    ((percent_overlong_fixpoint (codes "%2527") true 5).passes
        + (percent_overlong_fixpoint (codes "%2527") true 5).budget
      ≡ 5)
    × (length (percent_overlong_fixpoint (codes "%2527") true 5).bytes ≤ 5)
    × Converged true (percent_overlong_fixpoint (codes "%2527") true 5)
percent_overlong_fixpoint-Converged_example =
    percent_overlong_fixpoint-Converged (codes "%2527") true 5

quote-IsPlain : IsPlain (codes "'")
quote-IsPlain = ((omega arith, tt), tt)

percent_overlong_fixpoint-encode_layers_example :
    percent_overlong_fixpoint (encode_layers 3 (codes "'")) true 5
    ≡ fixpoint_loop 2 true (codes "'") 3
percent_overlong_fixpoint-encode_layers_example =
    percent_overlong_fixpoint-encode_layers 3 2 true (codes "'") quote-IsPlain (omega arith)

normalize_path-IsResolved_example :
    IsResolved (normalize_path ascii_ops (codes "/a/%2e%2e/%2e%2e/b")).path
normalize_path-IsResolved_example = normalize_path-IsResolved ascii_ops (codes "/a/%2e%2e/%2e%2e/b")

base64_decode-encode_core_example :
    (base64_decode (encode_core two_bytes ++ padding two_bytes) ≡ some two_bytes)
    × (base64_decode (encode_core two_bytes) ≡ some two_bytes)
base64_decode-encode_core_example = base64_decode-encode_core two_bytes two_bytes-IsByte

expand_base64-budget_example :
    (expand_loop ascii_ops 9 (codes "Jw==") 2 [] ≡ expand_base64 ascii_ops (codes "Jw==") 2 [])
    × (length (expand_base64 ascii_ops (codes "Jw==") 2 []).out
          + (expand_base64 ascii_ops (codes "Jw==") 2 []).budget
        ≤ 2)
expand_base64-budget_example = expand_base64-budget ascii_ops (codes "Jw==") 2 9 [] (omega arith)

-- a frame whose message has a text field, and a field that is not text with a varint field in it
abbrev grpc_body : Bytes
grpc_body = 0 ∷ 0 ∷ 0 ∷ 0 ∷ 8 ∷ 10 ∷ 1 ∷ 97 ∷ 10 ∷ 3 ∷ 8 ∷ 255 ∷ 1 ∷ []

grpc_extract-IsWithin_example :
    IsWithin grpc_limits_default (grpc_extract grpc_limits_default grpc_body)
grpc_extract-IsWithin_example = grpc_extract-IsWithin grpc_limits_default grpc_body

abbrev extracted : GrpcExtract
extracted = grpc_extract grpc_limits_default grpc_body

well_formed : extracted.malformed ≡ false
unfolding grpc_extract read_varint is_utf8
well_formed = refl

graphql_lex-opening_example :
    graphql_lex (opening (codes "note ") (codes "){__schema{types{name}}}}"))
    ≡ record { max_depth = 1; aliases = 0; fields = 1; directives = 0; has_introspection = false }
graphql_lex-opening_example =
    graphql_lex-opening (codes "note ") (codes "){__schema{types{name}}}}") (omega arith)
      (omega arith)
