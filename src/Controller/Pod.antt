-- ===== src/Controller/Pod.antt =====
-- `buildPodSpec`, `defaultProbes` and `initContainerResources` of
-- internal/controller/radiuscluster_controller.go, with internal/controller/constants.go.
pub mod Mounts
use freeradius_k8s_operator.Shared.{
  ℕ, String, Bool, true, false, List, [], ◌∷◌, ◌++◌, map, Option, none, some, append, concat, join,
  if◌then◌else◌,
}
use freeradius_k8s_operator.Shared.Int.{ℤ, pos, int_lt}
use freeradius_k8s_operator.Api.Objects.{KubeTypes, RadiusCluster, ProbesConfig}
use freeradius_k8s_operator.Renderer.Types.{SecretRef}
use freeradius_k8s_operator.Controller.Endpoints.{ContainerPort, pod_labels}
use freeradius_k8s_operator.Controller.Objects.{
  Literals, VolumeSource, config_map, empty_dir, secret, Volume, VolumeMount, SecurityContext,
  Container, PodSpec,
}

-- The constants of the same names.
abbrev pub config_map_suffix : String
config_map_suffix = "-freeradius-config"

abbrev pub service_account_suffix : String
service_account_suffix = "-freeradius"

-- The script of the container `stock-config`, by lines.
stock_script : List String
stock_script =
    "cp -rL /etc/freeradius/. /config-rendered/ 2>/dev/null" ∷ "chown -R 101:101 /config-rendered"
    ∷ "chmod -R go-w /config-rendered" ∷ "chmod 755 /config-rendered" ∷ "true" ∷ []

-- The script of the container `config-init`, by lines.
config_script : List String
config_script =
    "cd /config-flat" ∷ "for f in *; do" ∷ "  target=$(echo \"$f\" | sed 's/__/\\//g')"
    ∷ "  mkdir -p \"/etc/freeradius/$(dirname \"$target\")\""
    ∷ "  cp \"$f\" \"/etc/freeradius/$target\"" ∷ "done"
    ∷ "# Resolve ${file:/path} references by substituting with actual file contents"
    ∷ "for cfg in $(find /etc/freeradius -name '*.conf' -o -name 'sql' -o -name 'ldap' -o -name 'rest' -o -name 'redis' -o -name 'eap'); do"
    ∷ "  if grep -q '${file:' \"$cfg\" 2>/dev/null; then" ∷ "    tmp=\"$cfg.tmp\""
    ∷ "    cp \"$cfg\" \"$tmp\""
    ∷ "    grep -o '${file:[^}]*}' \"$tmp\" | sort -u | while read -r ref; do"
    ∷ "      path=$(echo \"$ref\" | sed 's/${file:\\(.*\\)}/\\1/')"
    ∷ "      if [ -f \"$path\" ]; then" ∷ "        val=$(cat \"$path\" | tr -d '\\n')"
    ∷ "        sed -i \"s|\\${file:${path}}|${val}|g\" \"$tmp\"" ∷ "      fi" ∷ "    done"
    ∷ "    mv \"$tmp\" \"$cfg\"" ∷ "  fi" ∷ "done" ∷ []

-- The volume and the mount of a secret, in the bodies of the loops; 288 is the mode 0440.
abbrev pub secret_volume : SecretRef → Volume
secret_volume ref = record { name = append "secret-" ref.name; source = secret ref.name 288 }

abbrev pub secret_mount : SecretRef → VolumeMount
secret_mount ref = record {
  name = append "secret-" ref.name;
  mount_path = append "/etc/freeradius/secrets/" ref.name;
  read_only = true;
}

-- The variable `volumes`, at the end of its loop.
unfoldable pub volumes : String → List SecretRef → List Volume
volumes config_map_name refs =
    record { name = "freeradius-config"; source = config_map config_map_name }
    ∷ record { name = "freeradius-config-rendered"; source = empty_dir }
    ∷ map secret_volume refs

abbrev pub rendered_mount : String → VolumeMount
rendered_mount path = record {
  name = "freeradius-config-rendered";
  mount_path = path;
  read_only = false;
}

-- The variable `configInitMounts`, at the end of its loop.
unfoldable pub config_init_mounts : List SecretRef → List VolumeMount
config_init_mounts refs =
    record { name = "freeradius-config"; mount_path = "/config-flat"; read_only = true }
    ∷ rendered_mount "/etc/freeradius"
    ∷ map secret_mount refs

-- The variables `renderClientsMounts` and `mainMounts`, at the ends of their loops.
unfoldable pub secret_mounts : List SecretRef → List VolumeMount
secret_mounts refs = rendered_mount "/etc/freeradius" ∷ map secret_mount refs

abbrev restricted : SecurityContext
restricted = record {
  run_as_user = none;
  run_as_non_root = some true;
  allow_privilege_escalation = some false;
  drop = "ALL" ∷ [];
}

module _ {K : KubeTypes} (literals : Literals K) where
  open K use {ResourceRequirements, Affinity, Probe}
  open literals use {exec_probe, anti_affinity, requirements}

  small : ResourceRequirements
  small =
      requirements (("cpu", "10m") ∷ ("memory", "16Mi") ∷ [])
        (("cpu", "50m") ∷ ("memory", "32Mi") ∷ [])

  resources_or_small : Option ResourceRequirements → ResourceRequirements
  unfolding small
  resources_or_small none = small
  resources_or_small (some r) = r

  pub init_container_resources : RadiusCluster K → ResourceRequirements
  unfolding resources_or_small
  init_container_resources cluster = resources_or_small cluster.spec.init_resources

  pub default_probes : Probe × Probe
  default_probes = (
    exec_probe ("freeradius" ∷ "-C" ∷ []) 10 30,
    exec_probe
        ("sh" ∷ "-c"
          ∷ "echo 'Message-Authenticator = 0x00' | radclient -x 127.0.0.1:1812 status testing123"
          ∷ [])
        5 10,
  )

  -- A pointer, or the default where it is nil.
  or_default : Option Probe → Probe → Option Probe
  or_default none p = some p
  or_default (some q) p = some q

  -- The variables `liveness` and `readiness`.
  probes : Option (ProbesConfig K) → Option Probe × Option Probe
  unfolding or_default default_probes
  probes none = (some default_probes.0, some default_probes.1)
  probes (some c) =
      (or_default c.liveness default_probes.0, or_default c.readiness default_probes.1)

  -- The variable `affinity`, on the one that is configured.
  affinity_or_spread : RadiusCluster K → Option Affinity → Option Affinity
  affinity_or_spread cluster (some a) = some a
  affinity_or_spread cluster none =
      if int_lt (pos 1) cluster.spec.replicas
      then some (anti_affinity 100 (pod_labels cluster.meta.name) "kubernetes.io/hostname")
      else none

  stock_copy_container : RadiusCluster K → Container K
  unfolding stock_script small
  stock_copy_container cluster = record {
    name = "stock-config";
    image = cluster.spec.image;
    image_pull_policy = "";
    command = "sh" ∷ "-c" ∷ join "\n" stock_script ∷ [];
    ports = [];
    volume_mounts = rendered_mount "/config-rendered" ∷ [];
    security_context = record {
      run_as_user = some 0;
      run_as_non_root = none;
      allow_privilege_escalation = some false;
      drop = [];
    };
    resources = small;
    liveness_probe = none;
    readiness_probe = none;
  }

  init_container : List SecretRef → Container K
  unfolding config_script small config_init_mounts
  init_container refs = record {
    name = "config-init";
    image = "docker.io/library/busybox:1.36";
    image_pull_policy = "";
    command = "sh" ∷ "-c" ∷ join "\n" config_script ∷ [];
    ports = [];
    volume_mounts = config_init_mounts refs;
    security_context = restricted;
    resources = small;
    liveness_probe = none;
    readiness_probe = none;
  }

  -- The container that runs the operator's image in the mode `render-clients`.
  client_init_container : String → RadiusCluster K → List SecretRef → Container K
  unfolding secret_mounts init_container_resources
  client_init_container operator_image cluster refs = record {
    name = "render-clients";
    image = operator_image;
    image_pull_policy = "IfNotPresent";
    command =
        "/operator"
        ∷ "--mode=render-clients"
        ∷ append "--cluster-name=" cluster.meta.name
        ∷ append "--namespace=" cluster.meta.namespace
        ∷ "--output=/etc/freeradius/clients.conf"
        ∷ [];
    ports = [];
    volume_mounts = secret_mounts refs;
    security_context = restricted;
    resources = init_container_resources cluster;
    liveness_probe = none;
    readiness_probe = none;
  }

  unfoldable pub main_container :
      RadiusCluster K → List SecretRef → List ContainerPort → Container K
  unfolding secret_mounts probes
  main_container cluster refs ports = record {
    name = "freeradius";
    image = cluster.spec.image;
    image_pull_policy = "IfNotPresent";
    command = [];
    ports = ports;
    volume_mounts = secret_mounts refs;
    security_context = restricted;
    resources = cluster.spec.resources;
    liveness_probe = (probes cluster.spec.probes).0;
    readiness_probe = (probes cluster.spec.probes).1;
  }

  -- The first argument is the reconciler's `OperatorImage`.
  unfoldable pub build_pod_spec :
      String → RadiusCluster K → List SecretRef → List ContainerPort → PodSpec K
  unfolding volumes stock_copy_container init_container client_init_container main_container
      affinity_or_spread
  build_pod_spec operator_image cluster secret_refs container_ports = record {
    run_as_user = 101;
    run_as_group = 101;
    fs_group = 101;
    affinity = affinity_or_spread cluster cluster.spec.affinity;
    topology_spread_constraints = cluster.spec.topology_spread_constraints;
    service_account_name = append cluster.meta.name service_account_suffix;
    init_containers =
        stock_copy_container cluster
        ∷ init_container secret_refs
        ∷ client_init_container operator_image cluster secret_refs
        ∷ [];
    containers = main_container cluster secret_refs container_ports ∷ [];
    volumes = volumes (append cluster.meta.name config_map_suffix) secret_refs;
  }
