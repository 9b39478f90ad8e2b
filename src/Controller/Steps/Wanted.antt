-- ===== src/Controller/Steps/Wanted.antt =====
-- What a cluster asks for, object by object: a specification, which models no code.
use Prim.Native.String.{[], ◌∷◌}
use freeradius_k8s_operator.Shared.{
  String, ◌≡◌, if◌then◌else◌, List, [], ◌∷◌, ◌++◌, map, Option, none, some, append,
}
use freeradius_k8s_operator.Shared.Int.{ℤ, pos, int_lt}
use freeradius_k8s_operator.Api.Cluster.{
  AutoscalingConfig, ServiceConfig, ServiceEndpointConfig, ServicesConfig,
}
use freeradius_k8s_operator.Api.Objects.{KubeTypes, RadiusCluster, PdbConfig}
use freeradius_k8s_operator.Renderer.Types.{SecretRef}
use freeradius_k8s_operator.Controller.Endpoints.{EndpointDef}
use freeradius_k8s_operator.Controller.Objects.{
  Literals, Volume, VolumeSource, PodSpec, Container, DeploymentSpec, ServiceSpec, HpaSpec, PdbSpec,
  PolicyRule, RoleBinding,
}
use freeradius_k8s_operator.Controller.Pod.{build_pod_spec}

-- The larger number.
abbrev wanted_count : ℤ → ℤ → ℤ
wanted_count a b = if int_lt a b then b else a

-- A fixed count of at least one replica where nothing scales, and none where something does.
abbrev pub wanted_replicas : Option AutoscalingConfig → ℤ → Option ℤ
wanted_replicas none replicas = some (wanted_count (pos 1) replicas)
wanted_replicas (some a) replicas = if a.enabled then none else some (wanted_count (pos 1) replicas)

-- The labels of the pods of a cluster.
abbrev wanted_pod_labels : String → List (String × String)
wanted_pod_labels cluster_name =
    ("app.kubernetes.io/name", "freeradius")
    ∷ ("app.kubernetes.io/instance", cluster_name)
    ∷ ("app.kubernetes.io/managed-by", "freeradius-operator")
    ∷ []

-- Those and, in front, the role's, if there is one.
abbrev pub wanted_labels : String → String → List (String × String)
wanted_labels cluster_name String.[] = wanted_pod_labels cluster_name
wanted_labels cluster_name (String.◌∷◌ c s) =
    ("radius.operator.io/role", String.◌∷◌ c s) ∷ wanted_pod_labels cluster_name

-- A role, the suffix of its objects, its replicas, its autoscaling and its service.
abbrev pub Endpoint : Type 0
Endpoint = (String × String) × (ℤ × (Option AutoscalingConfig × Option ServiceConfig))

abbrev pub endpoint : EndpointDef → Endpoint
endpoint ep = ((ep.role, ep.suffix), (ep.replicas, (ep.autoscale, ep.svc_cfg)))

abbrev wanted_endpoint : String → Option ServiceEndpointConfig → List Endpoint
wanted_endpoint role none = []
wanted_endpoint role (some s) =
    ((role, append "-freeradius-" role), (s.replicas, (s.autoscaling, some s.service_config))) ∷ []

-- One endpoint, or those that `services` has.
abbrev pub wanted_endpoints :
    {K : KubeTypes} → RadiusCluster K → Option ServicesConfig → List Endpoint
wanted_endpoints cluster none =
    (("", "-freeradius"), (cluster.spec.replicas, (cluster.spec.autoscaling, cluster.spec.service)))
    ∷ []
wanted_endpoints cluster (some s) =
    wanted_endpoint "auth" s.auth
    ++ (wanted_endpoint "acct" s.accounting ++ wanted_endpoint "coa" s.coa)

-- The suffixes of the other mode.
abbrev pub unwanted_suffixes : Option ServicesConfig → List String
unwanted_suffixes none = map (append "-freeradius-") ("auth" ∷ "acct" ∷ "coa" ∷ [])
unwanted_suffixes (some s) = "-freeradius" ∷ []

-- A service's type, or the default where it is empty.
abbrev pub type_or_default : String → String
type_or_default String.[] = "ClusterIP"
type_or_default (String.◌∷◌ c s) = String.◌∷◌ c s

abbrev pub wanted_type : Option ServiceConfig → String
wanted_type none = "ClusterIP"
wanted_type (some c) = type_or_default c.type

-- A field of the service's configuration, or nothing.
abbrev pub setting : (ServiceConfig → String) → Option ServiceConfig → String
setting field none = ""
setting field (some c) = field c

module _ {K : KubeTypes} (literals : Literals K) (image : String) (cluster : RadiusCluster K)
    (refs : List SecretRef) (hash : String) (ep : EndpointDef) where
  -- The pods run the cluster's image on the endpoint's ports, as the account of the cluster, on its
  -- config map; the rest is what the template of pods has.
  pub record IsPod (pod : PodSpec K) : Type 0 where
    pub account : pod.service_account_name ≡ append cluster.meta.name "-freeradius"
    pub server : Container K
    pub only_server : pod.containers ≡ server ∷ []
    pub image_used : server.image ≡ cluster.spec.image
    pub ports_open : server.ports ≡ ep.c_ports
    pub resources_used : server.resources ≡ cluster.spec.resources
    pub volumes_behind : List Volume
    pub config_mounted :
        pod.volumes
        ≡ record {
          name = "freeradius-config";
          source = VolumeSource.config_map (append cluster.meta.name "-freeradius-config");
        }
          ∷ volumes_behind
    pub template : pod ≡ build_pod_spec literals image cluster refs ep.c_ports

  -- The deployment of an endpoint.
  pub record IsDeployment (c : Option (DeploymentSpec K)) : Type 0 where
    pub spec : DeploymentSpec K
    pub is_there : c ≡ some spec
    pub replicas : spec.replicas ≡ wanted_replicas ep.autoscale ep.replicas
    pub selects : spec.selector ≡ wanted_labels cluster.meta.name ep.role
    pub labelled : spec.labels ≡ wanted_labels cluster.meta.name ep.role
    pub hashed : spec.annotations ≡ ("radius.operator.io/config-hash", hash) ∷ []
    pub none_less : spec.max_unavailable ≡ literals.from_int (pos 0)
    pub one_more : spec.max_surge ≡ literals.from_int (pos 1)
    pub pod : IsPod spec.pod

module _ {K : KubeTypes} (cluster : RadiusCluster K) (ep : EndpointDef) where
  -- The service of an endpoint, which selects the pods of its deployment.
  pub record IsService (c : Option ServiceSpec) : Type 0 where
    pub spec : ServiceSpec
    pub is_there : c ≡ some spec
    pub type : spec.type ≡ wanted_type ep.svc_cfg
    pub selects : spec.selector ≡ wanted_labels cluster.meta.name ep.role
    pub ports : spec.ports ≡ ep.ports
    pub balancer : spec.load_balancer_ip ≡ setting (λ s. s.load_balancer_ip) ep.svc_cfg
    pub traffic : spec.external_traffic_policy ≡ setting (λ s. s.external_traffic_policy) ep.svc_cfg

  -- The autoscaler of an endpoint, which scales its deployment within the configured bounds.
  pub record IsAutoscaler (a : AutoscalingConfig) (c : Option HpaSpec) : Type 0 where
    pub spec : HpaSpec
    pub is_there : c ≡ some spec
    pub group : spec.target.api_group ≡ "apps/v1"
    pub kind : spec.target.kind ≡ "Deployment"
    pub name : spec.target.name ≡ append cluster.meta.name ep.suffix
    pub least : spec.min_replicas ≡ a.min_replicas
    pub most : spec.max_replicas ≡ a.max_replicas
    pub utilization : spec.average_utilization ≡ a.target_cpu_utilization_percentage

module _ {K : KubeTypes} (literals : Literals K) (cluster : RadiusCluster K) where
  -- The limits of the budget: as configured, or one pod at least.
  abbrev pub HasLimits : Option (PdbConfig K) → PdbSpec K → Type 0
  HasLimits none b =
      (b.min_available ≡ some (literals.from_int (pos 1))) × (b.max_unavailable ≡ none)
  HasLimits (some p) b =
      (b.min_available ≡ p.min_available) × (b.max_unavailable ≡ p.max_unavailable)

  -- The budget, on all pods of the cluster.
  pub record IsBudget (c : Option (PdbSpec K)) : Type 0 where
    pub spec : PdbSpec K
    pub is_there : c ≡ some spec
    pub selects : spec.selector ≡ wanted_labels cluster.meta.name ""
    pub limits : HasLimits cluster.spec.pdb spec

-- The rules of the role: reading clients.
abbrev pub IsReader : List PolicyRule → Type 0
IsReader rules =
    (r : PolicyRule) × (rules ≡ r ∷ [])
    × (r.api_groups ≡ "radius.operator.io" ∷ [])
    × (r.resources ≡ "radiusclients" ∷ [])
    × (r.verbs ≡ "get" ∷ "list" ∷ "watch" ∷ [])

-- The binding gives the cluster's role to the account that its pods run as.
abbrev pub IsBinding : {K : KubeTypes} → RadiusCluster K → RoleBinding → Type 0
IsBinding cluster b =
    (b.role_ref
      ≡ some (record {
        api_group = "rbac.authorization.k8s.io";
        kind = "Role";
        name = append cluster.meta.name "-freeradius-client-reader";
      }))
    × (b.subjects
        ≡ record {
          kind = "ServiceAccount";
          name = append cluster.meta.name "-freeradius";
          namespace = cluster.meta.namespace;
        }
          ∷ [])
