-- ===== src/Renderer/Tests.antt =====
-- Test data for internal/renderer: a cluster with two modules, a client and two policies.
mod Rendering
mod Parts
mod Validated
use freeradius_k8s_operator.Shared.{String, Bool, true, false, List, [], ◌∷◌, Option, none, some}
use freeradius_k8s_operator.Shared.Int.{pos, negsuc}
use freeradius_k8s_operator.Renderer.Types.{
  SqlConfig, ModuleConfig, RadiusdConfig, ClusterSpec, ClientSpec, MatchLeaf, PolicyMatch,
  PolicyAction, PolicySpec, RenderContext,
}

abbrev pub sql : ModuleConfig
sql = record {
  name = "sql";
  type = "rlm_sql";
  enabled = true;
  sql = some (record {
    dialect = "mysql";
    server = "db.local";
    port = pos 3306;
    database = "radius";
    login = "radius";
    password_ref = record { name = "db"; key = "password" };
  });
  ldap = none;
  eap = none;
  rest = none;
  redis = none;
  files = none;
  raw_config = "";
}

abbrev pub pap : ModuleConfig
pap = record sql { name = "pap"; type = "rlm_pap"; sql = none }

abbrev pub unused : ModuleConfig
unused = record sql { name = "old"; type = "rlm_none"; enabled = false }

abbrev pub settings : RadiusdConfig
settings = record {
  log = record { destination = ""; auth = false; auth_badpass = false; auth_goodpass = true };
  security = record { max_attributes = pos 0; reject_delay = pos 2 };
  thread_pool = record {
    start_servers = pos 0;
    max_servers = pos 64;
    min_spare_servers = pos 0;
    max_spare_servers = pos 0;
    max_requests_per_server = pos 0;
  };
  max_request_time = pos 0;
  max_requests = pos 0;
  raw_config = "";
}

abbrev pub cluster : ClusterSpec
cluster = record {
  replicas = pos 2;
  image = "freeradius";
  modules = sql ∷ unused ∷ pap ∷ [];
  coa_enabled = true;
  coa_port = pos 3799;
  radiusd = settings;
}

abbrev pub nas : ClientSpec
nas = record {
  name = "nas1";
  ip = "10.0.0.0/8";
  secret_ref = record { name = "nas"; key = "secret" };
  nas_type = "cisco";
  raw_config = "";
}

abbrev pub is_bob : MatchLeaf
is_bob = record { attribute = "User-Name"; operator = "=="; value = "bob" }

abbrev pub is_test : MatchLeaf
is_test = record { attribute = "User-Name"; operator = "=~"; value = "^test" }

abbrev pub action : PolicyAction
action = record { type = ""; module_name = ""; modules = []; attribute = ""; value = "" }

abbrev pub call_sql : PolicyAction
call_sql = record action { type = "call"; module_name = "sql" }

abbrev pub any_of : PolicyAction
any_of = record action { type = "redundant"; modules = "sql" ∷ "pap" ∷ [] }

abbrev pub late : PolicySpec
late = record {
  name = "late";
  stage = "authorize";
  priority = pos 20;
  match = none;
  actions = any_of ∷ record action { type = "set"; attribute = "Reply-Message"; value = "hi" } ∷ [];
  raw_config = "";
}

abbrev pub bob_or_test : PolicyMatch
bob_or_test = record { all = []; any = is_bob ∷ is_test ∷ []; none = is_bob ∷ [] }

abbrev pub early : PolicySpec
early = record late {
  name = "early";
  priority = negsuc 4;
  match = some bob_or_test;
  actions = call_sql ∷ record action { type = "accept" } ∷ [];
}

abbrev pub context : RenderContext
context = record { cluster = cluster; clients = nas ∷ []; policies = late ∷ early ∷ [] }
