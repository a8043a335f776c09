-- ===== src/Lib.antt =====
-- Light WAF: a web application firewall, as a reverse proxy.
--
-- A request comes to the proxy (crates/waf-proxy), which resolves the client's address, runs the
-- connection phase of the pipeline, reads the body, normalises the request, and runs the inspection
-- phases. Each detection module looks at the normalised request and decides; the pipeline adds the
-- decisions up and gives a verdict. A capture of the request waits in a bounded ring until its verdict
-- is known.
--
-- Core: crates/waf-core. Core.Decision and Core.Request have the decisions, severities, phases and the
--   request context, and Core.Config the configuration with its defaults, all of src/lib.rs there;
--   Core.Validate is `Config::validate` of the same file. Core.Network is src/network/client_ip.rs:
--   `Cidr`, `ClientIpResolver::from_config` and `resolve`.
-- Pipeline: crates/waf-pipeline/src/lib.rs. `run`, `run_connection`, `run_inspection` and
--   `run_inspection_gated` have their source's names, and `run_phases_filtered` is made of one function
--   for each loop and each loop body. The mutable context is passed along in a `State`, with the world
--   that the modules share and the decision log.
-- Normalizer: crates/waf-normalizer/src/url.rs. Percent is percent decoding, the collapse of overlong
--   UTF-8 and their fixpoint; Canonical is the canonical form of a value; Path is `normalize_path`
--   and `resolve_path`; Base64 is the candidate test, the decoder and the expansion of nested base64.
--   Fields is `parse_cookies_limited`.
--   Grpc is src/grpc.rs of that crate: `read_varint`, `grpc_extract` and `parse_message`, with an index
--   into a buffer written as the list of the bytes that are left.
--   Graphql is src/graphql.rs: `graphql_lex` in the same way, and `unwrap_query_envelope`.
-- Capture: crates/waf-capture. Request is the captured request and its size, of src/capture.rs; Ring is
--   src/ring.rs, whose operations each hold the lock from the start to the end and are functions on the
--   ring here.
-- Governance: crates/waf-governance. Rbac is src/rbac.rs: roles, permissions, and the role that a login's
--   claims give. Throttle is src/throttle.rs, where Throttle.Lockout has the failures of one key and
--   Throttle.Release any sequence of events. Audit is src/audit.rs with `append_audit` of src/store.rs: the
--   hash chain, what its hash is taken of (Audit.Encoding), its check and its growth.
-- Schema: crates/waf-schema-enforcement. Rules is src/rules.rs; the rest is src/api_schema.rs: Router is
--   `Router::build` and `Router::resolve`, Contract what an operation declares with the functions on one
--   value, Dialect how a schema is prepared for its compiler, Compile `CompiledSpec::compile`, and Enforce
--   `CompiledSpec::validate` and `ApiSchemaModule`.
-- Detection: crates/waf-detection, the modules on the shape of a request. Smuggling is
--   src/request_smuggling.rs, Grpc src/grpc.rs and Graphql src/graphql.rs there.
-- RateLimit: crates/waf-core/src/state.rs, the in-memory store of token buckets, and in Limiter
--   crates/waf-detection/src/rate_limit.rs, which asks it before a request is inspected.
-- ControlPlane: crates/waf-controlplane. Server is what its handlers share: the answers, the state,
--   the pool and `audit`. Auth, Login, Accounts and AuditLog have the handlers of src/gov_api.rs
--   under their source's names, and Router is the table of its routes with the permission of each;
--   Setup is `setup_governance`, which makes the state they start from. They work on the tables of
--   Governance.Store, which is src/store.rs, src/model.rs and src/schema.sql of
--   crates/waf-governance: a query is a function on the tables, and may be lost before or after it
--   has run. Requests are served one after another, each at one instant. Keeps has what every
--   handler keeps of the tables, given what its queries keep, and Callers what holds of whoever a
--   request comes from; Offboard, Revoked, Replay, Accountable and Privilege use them; Credentials
--   is about what a login asks for and what its session is good for. Siem is the event of
--   src/siem.rs and Siem.Cef its lines, as lists of characters; Siem.Forward is `forward_stream` of
--   src/siem_forward.rs.
-- Prelude: what the others share. Text and Utf8 write out the parts of Rust's strings that the code
--   uses (`split`, `trim`, `parse::<u8>`, `from_utf8_lossy`), on strings as lists of bytes.
--
-- A module of the pipeline, the parser of addresses, and the Unicode tables (NFKC and lower-casing)
-- come from elsewhere, and are parameters of which nothing is assumed. So are SHA-256, the compiled
-- JSON-Schema validators and the JSON parser of `serde_json`, whose values are in Schema.Value. Of a
-- signature it is assumed in one place that it passes its own check, and of the database that it keeps
-- a time's microseconds. Of the arithmetic of `f64` nothing is assumed; a panic of the rate limiter's
-- store is a value. The seconds of the login throttle are below 2 ^ 63, and its times within the range
-- of their type, where their arithmetic does not panic. Unsigned integers are numbers, with the
-- wrap-around written where the code can reach it: the anomaly score modulo 2 ^ 32, a byte modulo 2 ^
-- 8, the base64 buffer modulo 2 ^ 32, a word of the audit hash modulo 2 ^ 64. The loops on a budget
-- recurse on that budget; the recursive expansion of base64 recurses on fuel, for which its starting
-- budget is enough, and the walk of a gRPC message and the lexer of a GraphQL document on fuel, for
-- which the length is enough.
--
-- Of the control plane, the hash of a password, the printing of a debug form and of JSON text, the answer
-- of the identity provider, SHA-256 and the random draws are parameters.
--
-- Not modelled: log lines other than the decision log, deserialisation, the parsing of other bodies
-- and queries, the rule tables of the content modules, of the control plane the routes of rules,
-- captures, alerts and compliance with the evaluator, ingestion and the exchange with the identity
-- provider, and the crates around the data path (proxy server, WASM host, operator, node agent and
-- clients of network services).
pub mod Prelude
pub mod Core
pub mod Pipeline
pub mod Normalizer
pub mod Capture
pub mod Governance
pub mod Schema
pub mod RateLimit
pub mod Detection
pub mod ControlPlane
