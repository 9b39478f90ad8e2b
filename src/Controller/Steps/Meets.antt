-- ===== src/Controller/Steps/Meets.antt =====
-- What the steps put into the objects is what the cluster asks for.
use freeradius_k8s_operator.Shared.{
  String, Char, ◌≡◌, refl, ap, false, List, Option, none, some, map, append, is_empty, eq_iff, size,
  arith, Bool-cases, inl, inr, if◌then◌else◌,
}
use freeradius_k8s_operator.Shared.Int.{ℤ, pos, negsuc, int_lt}
use freeradius_k8s_operator.Api.Cluster.{
  AutoscalingConfig, ServiceConfig, ServiceEndpointConfig, ServicesConfig,
}
use freeradius_k8s_operator.Api.Objects.{KubeTypes, RadiusCluster, PdbConfig}
use freeradius_k8s_operator.Renderer.Types.{SecretRef}
use freeradius_k8s_operator.Controller.Endpoints.{
  EndpointDef, unified_endpoint, endpoints_of, split_endpoints, stale_suffixes_of, pod_labels,
  endpoint_labels,
}
use freeradius_k8s_operator.Controller.Objects.{Literals}
use freeradius_k8s_operator.Controller.Pod.{volumes, main_container, build_pod_spec}
use freeradius_k8s_operator.Controller.Steps.Wanted.{
  wanted_replicas, wanted_labels, endpoint, wanted_endpoints, unwanted_suffixes, type_or_default,
  wanted_type, setting, IsPod, IsDeployment, IsService, IsAutoscaler, HasLimits, IsBudget,
  IsBinding,
}
use freeradius_k8s_operator.Controller.Steps.Deployments.{fixed_replicas, deployment_spec}
use freeradius_k8s_operator.Controller.Steps.Services.{
  balancer_ip, traffic_policy, service_type, service_spec,
}
use freeradius_k8s_operator.Controller.Steps.Autoscalers.{hpa_spec}
use freeradius_k8s_operator.Controller.Steps.Budgets.{
  min_available_of, max_unavailable_of, pdb_spec,
}
use freeradius_k8s_operator.Controller.Steps.Rbac.{reader_binding}

pod_labels-wanted : (name : String) → pod_labels name ≡ wanted_labels name ""
unfolding pod_labels
pod_labels-wanted name = refl

not_empty : (c : Char) (s : String) → is_empty (String.◌∷◌ c s) ≡ false
not_empty c s = elim (Bool-cases (is_empty (String.◌∷◌ c s))) [
  | inl e ↦ absurd (omega (arith, ap size ((eq_iff (String.◌∷◌ c s) "").0 e)))
  | inr e ↦ e
]

endpoint_labels-wanted : (name role : String) → endpoint_labels name role ≡ wanted_labels name role
unfolding endpoint_labels pod_labels
endpoint_labels-wanted name String.[] = refl
endpoint_labels-wanted name (String.◌∷◌ c s) = rw (not_empty c s) refl

at_least_one-wanted :
    (n : ℤ) → (if int_lt n (pos 1) then pos 1 else n) ≡ (if int_lt (pos 1) n then n else pos 1)
at_least_one-wanted (pos n) = ground arith
at_least_one-wanted (negsuc n) = ground arith

fixed_replicas-wanted :
    (ep : EndpointDef) (o : Option AutoscalingConfig)
    → fixed_replicas (record ep { autoscale = o }) ≡ wanted_replicas o ep.replicas
unfolding fixed_replicas
fixed_replicas-wanted ep none = ap some (at_least_one-wanted ep.replicas)
fixed_replicas-wanted ep (some a) = elim (Bool-cases a.enabled) [
  | inl e ↦ rw e refl
  | inr e ↦ rw e (ap some (at_least_one-wanted ep.replicas))
]

type-wanted : (t : String) → (if is_empty t then "ClusterIP" else t) ≡ type_or_default t
type-wanted String.[] = refl
type-wanted (String.◌∷◌ c s) = rw (not_empty c s) refl

service_type-wanted : (o : Option ServiceConfig) → service_type o ≡ wanted_type o
unfolding service_type
service_type-wanted none = refl
service_type-wanted (some c) = type-wanted c.type

balancer_ip-wanted :
    (o : Option ServiceConfig) → balancer_ip o ≡ setting (λ s. s.load_balancer_ip) o
balancer_ip-wanted none = refl
balancer_ip-wanted (some c) = refl

traffic_policy-wanted :
    (o : Option ServiceConfig) → traffic_policy o ≡ setting (λ s. s.external_traffic_policy) o
traffic_policy-wanted none = refl
traffic_policy-wanted (some c) = refl

module _ {K : KubeTypes} (cluster : RadiusCluster K) where
  pub endpoints-wanted :
      (o : Option ServicesConfig)
      → map endpoint (endpoints_of cluster o) ≡ wanted_endpoints cluster o
  unfolding endpoints_of split_endpoints unified_endpoint append
  endpoints-wanted none = refl
  endpoints-wanted (some s) = parts s.auth s.accounting s.coa
    where
      parts :
          (a b c : Option ServiceEndpointConfig)
          → map endpoint
              (endpoints_of cluster (some (record { auth = a; accounting = b; coa = c })))
            ≡ wanted_endpoints cluster (some (record { auth = a; accounting = b; coa = c }))
      parts none none none = refl
      parts none none (some c) = refl
      parts none (some b) none = refl
      parts none (some b) (some c) = refl
      parts (some a) none none = refl
      parts (some a) none (some c) = refl
      parts (some a) (some b) none = refl
      parts (some a) (some b) (some c) = refl

  pub stale-unwanted : (o : Option ServicesConfig) → stale_suffixes_of o ≡ unwanted_suffixes o
  unfolding stale_suffixes_of append
  stale-unwanted none = refl
  stale-unwanted (some s) = refl

  pub reader_binding-IsBinding : IsBinding cluster (reader_binding cluster)
  unfolding reader_binding
  reader_binding-IsBinding = (refl, refl)

  pub service_spec-IsService :
      (ep : EndpointDef) → IsService cluster ep (some (service_spec cluster ep))
  unfolding service_spec
  service_spec-IsService ep = record {
    spec = service_spec cluster ep;
    is_there = refl;
    type = service_type-wanted ep.svc_cfg;
    selects = endpoint_labels-wanted cluster.meta.name ep.role;
    ports = refl;
    balancer = balancer_ip-wanted ep.svc_cfg;
    traffic = traffic_policy-wanted ep.svc_cfg;
  }

  pub hpa_spec-IsAutoscaler :
      (ep : EndpointDef) (a : AutoscalingConfig)
      → IsAutoscaler cluster ep a (some (hpa_spec cluster ep a))
  unfolding hpa_spec
  hpa_spec-IsAutoscaler ep a = record {
    spec = hpa_spec cluster ep a;
    is_there = refl;
    group = refl;
    kind = refl;
    name = refl;
    least = refl;
    most = refl;
    utilization = refl;
  }

  module _ (literals : Literals K) where
    limits-wanted :
        (o : Option (PdbConfig K))
        → HasLimits literals cluster o (record {
          selector = pod_labels cluster.meta.name;
          min_available = min_available_of literals o;
          max_unavailable = max_unavailable_of literals o;
        })
    limits-wanted none = (refl, refl)
    limits-wanted (some p) = (refl, refl)

    pub pdb_spec-IsBudget : IsBudget literals cluster (some (pdb_spec literals cluster))
    unfolding pdb_spec
    pdb_spec-IsBudget = record {
      spec = pdb_spec literals cluster;
      is_there = refl;
      selects = pod_labels-wanted cluster.meta.name;
      limits = limits-wanted cluster.spec.pdb;
    }

    module _ (image : String) (refs : List SecretRef) (hash : String) (ep : EndpointDef) where
      build_pod_spec-IsPod :
          IsPod literals image cluster refs hash ep
            (build_pod_spec literals image cluster refs ep.c_ports)
      unfolding build_pod_spec volumes main_container
      build_pod_spec-IsPod = record {
        account = refl;
        server = main_container literals cluster refs ep.c_ports;
        only_server = refl;
        image_used = refl;
        ports_open = refl;
        resources_used = refl;
        volumes_behind = _;
        config_mounted = refl;
        template = refl;
      }

      pub deployment_spec-IsDeployment :
          IsDeployment literals image cluster refs hash ep
            (some (deployment_spec literals image cluster refs hash ep))
      unfolding deployment_spec
      deployment_spec-IsDeployment = record {
        spec = deployment_spec literals image cluster refs hash ep;
        is_there = refl;
        replicas = fixed_replicas-wanted ep ep.autoscale;
        selects = endpoint_labels-wanted cluster.meta.name ep.role;
        labelled = endpoint_labels-wanted cluster.meta.name ep.role;
        hashed = refl;
        none_less = refl;
        one_more = refl;
        pod = build_pod_spec-IsPod;
      }
