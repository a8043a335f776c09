-- ===== src/Core/Config/Modules.antt =====
-- crates/waf-core/src/lib.rs: the settings of the detection modules.
use light_waf.Prelude.{Option, ℕ, ◌*◌, Bool, true, false, List, [], ◌∷◌, Bytes, codes}

pub record ModuleConfig : Type 0 where
  pub enabled : Bool

abbrev pub module_default : ModuleConfig
module_default = record { enabled = true }

pub record GraphqlConfig : Type 0 where
  pub enabled : Bool
  pub paths : List Bytes
  pub max_depth : ℕ
  pub max_aliases : ℕ
  pub max_fields : ℕ
  pub max_directives : ℕ
  pub max_batch : ℕ
  pub block_introspection : Bool

abbrev pub graphql_default : GraphqlConfig
graphql_default = record {
  enabled = false;
  paths = codes "/graphql" ∷ [];
  max_depth = 15;
  max_aliases = 30;
  max_fields = 1000;
  max_directives = 50;
  max_batch = 10;
  block_introspection = false;
}

pub data CompressedPolicy : Type 0 where
  reject passthrough : CompressedPolicy

pub record GrpcConfig : Type 0 where
  pub enabled : Bool
  pub max_message_bytes : ℕ
  pub max_fields : ℕ
  pub max_depth : ℕ
  pub on_compressed : CompressedPolicy

abbrev pub grpc_default : GrpcConfig
grpc_default = record {
  enabled = false;
  max_message_bytes = 4 * 1024 * 1024;
  max_fields = 4096;
  max_depth = 16;
  on_compressed = reject;
}

pub record CrsConfig : Type 0 where
  pub enabled : Bool
  pub files : List Bytes

abbrev pub crs_default : CrsConfig
crs_default = record { enabled = false; files = [] }

pub record WasmPluginConfig : Type 0 where
  pub path : Bytes
  pub config : Option Bytes

pub record WasmConfig : Type 0 where
  pub enabled : Bool
  pub pool_size : ℕ
  pub fuel_per_request : ℕ
  pub max_memory_bytes : ℕ
  pub checkout_timeout_ms : ℕ
  pub plugins : List WasmPluginConfig

abbrev pub wasm_default : WasmConfig
wasm_default = record {
  enabled = false;
  pool_size = 4;
  fuel_per_request = 10000000;
  max_memory_bytes = 16 * 1024 * 1024;
  checkout_timeout_ms = 100;
  plugins = [];
}

pub record ModulesConfig : Type 0 where
  pub sqli : ModuleConfig
  pub xss : ModuleConfig
  pub path_traversal : ModuleConfig
  pub rce : ModuleConfig
  pub lfi_rfi : ModuleConfig
  pub ssrf : ModuleConfig
  pub ldap : ModuleConfig
  pub nosql : ModuleConfig
  pub mail : ModuleConfig
  pub ssti : ModuleConfig
  pub scanner : ModuleConfig
  pub ssi : ModuleConfig
  pub xxe : ModuleConfig
  pub header_injection : ModuleConfig
  pub evasion : ModuleConfig
  pub request_smuggling : ModuleConfig
  pub graphql : GraphqlConfig
  pub grpc : GrpcConfig
  pub crs : CrsConfig
  pub wasm : WasmConfig

abbrev pub modules_default : ModulesConfig
modules_default = record {
  sqli = module_default;
  xss = module_default;
  path_traversal = module_default;
  rce = module_default;
  lfi_rfi = module_default;
  ssrf = module_default;
  ldap = module_default;
  nosql = module_default;
  mail = module_default;
  ssti = module_default;
  scanner = module_default;
  ssi = module_default;
  xxe = module_default;
  header_injection = module_default;
  evasion = module_default;
  request_smuggling = module_default;
  graphql = graphql_default;
  grpc = grpc_default;
  crs = crs_default;
  wasm = wasm_default;
}
