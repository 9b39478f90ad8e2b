-- ===== src/Controller/Tests/Converging.antt =====
-- The theorems on the objects of a cluster, in a store in memory that is empty at first.
use freeradius_k8s_operator.Shared.{◌≡◌, refl, [], ◌∷◌, All, arith, ◌%◌, ◌<◌}
use freeradius_k8s_operator.Shared.Int.{pos}
use freeradius_k8s_operator.Renderer.Files.{ConfigFiles, lookup}
use freeradius_k8s_operator.Controller.Secrets.{collect_secret_refs}
use freeradius_k8s_operator.Controller.Objects.{Literals}
use freeradius_k8s_operator.Controller.Pod.{build_pod_spec}
use freeradius_k8s_operator.Controller.Pod.Mounts.{IsMountable, build_pod_spec-IsMountable}
use freeradius_k8s_operator.Controller.Steps.ConfigMaps.{flat_name, restored_name, config_map_data}
use freeradius_k8s_operator.Controller.Steps.ConfigMaps.RoundTrip.{
  IsRestorable, config_map_data-restored,
}
use freeradius_k8s_operator.Controller.Restarts.{bits, count_pod_restarts}
use freeradius_k8s_operator.Controller.Restarts.Bounds.{IsInt32, count_pod_restarts-Wraps}
use freeradius_k8s_operator.Controller.Tests.{units, cluster, nas}
use freeradius_k8s_operator.Controller.Tests.Memory.{memory, present, nothing}

abbrev pub literals : Literals units
literals = record {
  exec_probe = λ command delay period. tt;
  anti_affinity = λ weight labels key. tt;
  requirements = λ requests limits. tt;
  from_int = λ n. tt;
}

abbrev files : ConfigFiles
files = ("clients.conf", "client") ∷ ("mods-enabled/sql_main", "sql") ∷ []

restorable : All (λ f. IsRestorable f.0) files
restorable = omega arith

config_map_data-restored_example :
    (lookup (flat_name "mods-enabled/sql_main") (config_map_data files)
      ≡ lookup "mods-enabled/sql_main" files)
    × (restored_name (flat_name "mods-enabled/sql_main") ≡ "mods-enabled/sql_main")
config_map_data-restored_example =
    config_map_data-restored files "mods-enabled/sql_main" restorable restorable.1.0

build_pod_spec-IsMountable_example :
    IsMountable
      (build_pod_spec literals "operator" cluster (collect_secret_refs cluster (nas ∷ [])) [])
build_pod_spec-IsMountable_example =
    build_pod_spec-IsMountable literals "operator" cluster (nas ∷ []) []

count_pod_restarts-Wraps_example :
    IsInt32 (count_pod_restarts (memory [] present) "radius" "main" (cluster, nothing))
    × (bits (count_pod_restarts (memory [] present) "radius" "main" (cluster, nothing))
        ≡ 7 % 4294967296)
    × (7 < 2147483648
        → count_pod_restarts (memory [] present) "radius" "main" (cluster, nothing) ≡ pos 7)
unfolding bits
count_pod_restarts-Wraps_example =
    count_pod_restarts-Wraps (memory [] present) "radius" "main" (cluster, nothing)
      ((pos 2 ∷ pos 1 ∷ []) ∷ (pos 4 ∷ []) ∷ []) refl
