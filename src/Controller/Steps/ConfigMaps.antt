-- ===== src/Controller/Steps/ConfigMaps.antt =====
-- `reconcileConfigMap` of internal/controller/radiuscluster_controller.go, and how the container
-- `config-init` takes the names of the files from the keys.
pub mod RoundTrip
use freeradius_k8s_operator.Shared.{
  String, Char, code, Bool, List, [], ◌∷◌, nat_eq, if◌then◌else◌, append,
}
use freeradius_k8s_operator.Api.Objects.{KubeTypes, RadiusCluster}
use freeradius_k8s_operator.Controller.Objects.Store.{ObjectKind, Object, Store}
use freeradius_k8s_operator.Renderer.Files.{ConfigFiles, assign}
use freeradius_k8s_operator.Controller.Endpoints.Cleanup.{object_name}
use freeradius_k8s_operator.Controller.Pod.{config_map_suffix}
use freeradius_k8s_operator.Controller.Steps.Calls.{Step, owned}

-- `strings.ReplaceAll(k, "/", "__")`
unfoldable pub flat_name : String → String
flat_name String.[] = ""
flat_name (String.◌∷◌ c s) =
    let rest = flat_name s in if nat_eq (code c) b'/' then append "__" rest else String.◌∷◌ c rest

-- The loop that fills `cm.Data`.
unfoldable pub config_map_data : ConfigFiles → ConfigFiles
unfolding flat_name
config_map_data [] = []
config_map_data ((k, v) ∷ files) = assign (flat_name k) v (config_map_data files)

-- `sed 's/__/\//g'`, behind a text that ends with an underscore or does not.
unfoldable pub restored_from : Bool → String → String
restored_from Bool.false String.[] = ""
restored_from Bool.true String.[] = "_"
restored_from Bool.false (String.◌∷◌ c s) = elim (nat_eq (code c) b'_') [
  | Bool.true ↦ restored_from Bool.true s
  | Bool.false ↦ String.◌∷◌ c (restored_from Bool.false s)
]
restored_from Bool.true (String.◌∷◌ c s) = elim (nat_eq (code c) b'_') [
  | Bool.true ↦ append "/" (restored_from Bool.false s)
  | Bool.false ↦ append "_" (String.◌∷◌ c (restored_from Bool.false s))
]

-- The variable `target` of the script of the container `config-init`.
unfoldable pub restored_name : String → String
unfolding restored_from
restored_name key = restored_from Bool.false key

module _ {K : KubeTypes} {World : Type 0} (S : Store K World) where
  unfoldable pub reconcile_config_map : RadiusCluster K → ConfigFiles → Step World
  unfolding config_map_data
  reconcile_config_map cluster files w =
      S.create_or_update ObjectKind.config_map (object_name cluster config_map_suffix)
        (owned S cluster λ cm. record cm { content = config_map_data files }) w
