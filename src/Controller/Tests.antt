-- ===== src/Controller/Tests.antt =====
-- The theorems on the controller, at a cluster with TLS, one module and split services.
mod Failing
mod Cleaning
mod Reconciling
mod Memory
mod Rounds
mod HeldBack
mod Settling
mod Converging
use freeradius_k8s_operator.Shared.{
  String, ◌≡◌, refl, subst, Bool, true, false, List, [], ◌∷◌, ◌++◌, map, Option, none, some, All,
  AreDistinct, is_in, is_empty, arith, err, append,
}
use freeradius_k8s_operator.Shared.Int.{pos, ◌≤ℤ◌}
use freeradius_k8s_operator.Api.Modules
use freeradius_k8s_operator.Api.Cluster.{CoaConfig}
use freeradius_k8s_operator.Api.Objects.{KubeTypes, RadiusCluster, RadiusClient, RadiusPolicy}
use freeradius_k8s_operator.Renderer.Types.{
  RenderContext, ClientSpec, ModuleConfig, RadiusdConfig, PolicySpec,
}
use freeradius_k8s_operator.Controller.Quote.{quoted}
use freeradius_k8s_operator.Controller.Secrets.{collect_secret_refs}
use freeradius_k8s_operator.Controller.Secrets.Laws.{names, key_of, first_key, mentioned}
use freeradius_k8s_operator.Controller.Secrets.Once.{collect_secret_refs-once}
use freeradius_k8s_operator.Controller.Context.{coa_enabled, build_render_context}
use freeradius_k8s_operator.Controller.Context.Originals.{original_module}
use freeradius_k8s_operator.Controller.Context.Restored.{
  Pairwise, RestoresClient, RestoresPolicy, with_metadata, build_render_context-restored,
}
use freeradius_k8s_operator.Controller.Endpoints.{build_endpoints, stale_suffixes}
use freeradius_k8s_operator.Controller.Endpoints.Names.{suffixes_of, build_endpoints-AreDistinct}
use freeradius_k8s_operator.Controller.Endpoints.Labels.{AreSeparate, build_endpoints-AreSeparate}
use freeradius_k8s_operator.Controller.Endpoints.Ports.{IsServed, build_endpoints-IsServed}

-- Kubernetes's own types do not matter here.
abbrev pub units : KubeTypes
units = record {
  ResourceRequirements = Unit;
  Affinity = Unit;
  TopologySpreadConstraint = Unit;
  Probe = Unit;
  IntOrString = Unit;
}

abbrev sql : Modules.ModuleConfig
sql = record {
  name = "sql";
  type = "rlm_sql";
  enabled = true;
  sql = some (record {
    dialect = "mysql";
    server = "db";
    port = pos 3306;
    database = "radius";
    login = "radius";
    password_ref = record { name = "db"; key = "password" };
  });
  ldap = none;
  eap = none;
  rest = none;
  redis = none;
  files = none;
  raw_config = "";
}

abbrev pub cluster : RadiusCluster units
cluster = record {
  meta = record { name = "main"; namespace = "radius" };
  spec = record {
    replicas = pos 2;
    image = "freeradius";
    resources = tt;
    autoscaling = none;
    tls = some (record { enabled = true; secret_ref = record { name = "tls"; key = "tls.crt" } });
    probes = none;
    modules = sql ∷ [];
    pdb = none;
    affinity = none;
    topology_spread_constraints = [];
    service = none;
    services = some (record {
      auth = some (record {
        service_config = record {
          type = "";
          load_balancer_ip = "";
          external_traffic_policy = "";
          annotations = [];
        };
        replicas = pos 2;
        autoscaling = none;
      });
      accounting = none;
      coa = some (record {
        service_config = record {
          type = "";
          load_balancer_ip = "";
          external_traffic_policy = "";
          annotations = [];
        };
        replicas = pos 1;
        autoscaling = none;
      });
    });
    coa = some (record { enabled = true; port = pos 3800 });
    radiusd = none;
    init_resources = none;
  };
  status = record {
    ready_replicas = pos 0;
    current_image = "";
    pod_restarts = pos 0;
    service_ip = "";
    external_ips = [];
    conditions = [];
  };
}

abbrev pub nas : RadiusClient
nas = record {
  meta = record { name = "nas1"; namespace = "radius" };
  spec = record {
    cluster_ref = "main";
    ip = "10.0.0.1";
    secret_ref = record { name = "nas"; key = "secret" };
    nas_type = "";
    metadata = [];
    raw_config = "";
  };
  conditions = [];
}

abbrev pub accept_all : RadiusPolicy
accept_all = record {
  meta = record { name = "accept-all"; namespace = "radius" };
  spec = record {
    cluster_ref = "main";
    stage = "authorize";
    priority = pos 100;
    match = none;
    actions =
        record { type = "accept"; module_name = ""; modules = []; attribute = ""; value = "" } ∷ [];
    raw_config = "";
  };
  conditions = [];
}

collect_secret_refs-once_example :
    AreDistinct (names (collect_secret_refs cluster (nas ∷ [])))
    × (is_in "" (names (collect_secret_refs cluster (nas ∷ []))) ≡ false)
    × ((n : String)
        → is_empty n ≡ false
        → key_of n (collect_secret_refs cluster (nas ∷ []))
          ≡ first_key n (mentioned cluster (nas ∷ [])))
collect_secret_refs-once_example = collect_secret_refs-once cluster (nas ∷ [])

build_render_context-restored_example :
    (map original_module (build_render_context cluster (nas ∷ []) (accept_all ∷ [])).cluster.modules
      ≡ cluster.spec.modules)
    × Pairwise RestoresClient
        (nas ∷ [])
        (build_render_context cluster (nas ∷ []) (accept_all ∷ [])).clients
    × Pairwise RestoresPolicy
        (accept_all ∷ [])
        (build_render_context cluster (nas ∷ []) (accept_all ∷ [])).policies
    × ((metadata : List (String × String))
        → build_render_context cluster (map (with_metadata metadata) (nas ∷ [])) (accept_all ∷ [])
          ≡ build_render_context cluster (nas ∷ []) (accept_all ∷ []))
build_render_context-restored_example =
    build_render_context-restored cluster (nas ∷ []) (accept_all ∷ [])

build_endpoints-AreDistinct_example :
    AreDistinct (suffixes_of (build_endpoints cluster) ++ stale_suffixes cluster)
build_endpoints-AreDistinct_example = build_endpoints-AreDistinct cluster

build_endpoints-AreSeparate_example : AreSeparate cluster.meta.name (build_endpoints cluster)
build_endpoints-AreSeparate_example = build_endpoints-AreSeparate cluster

IsNotNegative : Option CoaConfig → Type 0
IsNotNegative none = Unit
IsNotNegative (some c) = pos 0 ≤ℤ c.port

given : IsNotNegative cluster.spec.coa
unfolding IsNotNegative
given = omega arith

known_port : (c : CoaConfig) → cluster.spec.coa ≡ some c → pos 0 ≤ℤ c.port
unfolding IsNotNegative
known_port c h = subst IsNotNegative h given

build_endpoints-IsServed_example :
    All (IsServed cluster (nas ∷ []) (accept_all ∷ [])) (build_endpoints cluster)
unfolding coa_enabled
build_endpoints-IsServed_example =
    build_endpoints-IsServed cluster (nas ∷ []) (accept_all ∷ []) known_port (λ svcs e s h. refl)

quoted_escapes : quoted "a\"b\n\\" ≡ "\"a\\\"b\\n\\\\\""
unfolding quoted append
quoted_escapes = refl
