-- ===== src/Kube.antt =====
-- What the operator uses of Kubernetes: the client of sigs.k8s.io/controller-runtime and
-- `meta.SetStatusCondition` of k8s.io/apimachinery, as interfaces.
use freeradius_k8s_operator.Shared.{
  String, ◌≡◌, ◌≢◌, List, [], ◌∷◌, Option, none, some, if◌then◌else◌, ◌==◌, Result, Check,
}
use freeradius_k8s_operator.Api.Objects.{
  KubeTypes, Condition, RadiusClient, RadiusPolicy, RadiusCluster,
}

-- `types.NamespacedName`
pub record NamespacedName : Type 0 where
  pub namespace : String
  pub name : String

-- An error of the client, by what `errors.IsNotFound` says of it.
pub data KubeError : Type 0 where
  not_found : KubeError
  failed : String → KubeError

-- The client's calls, on the state of the cluster and of everything else that acts on it.
pub record Client (K : KubeTypes) : Type 1 where
  pub World : Type 0
  pub get_cluster : NamespacedName → World → Result KubeError (RadiusCluster K)
  pub get_client : NamespacedName → World → Result KubeError RadiusClient
  pub get_policy : NamespacedName → World → Result KubeError RadiusPolicy
  pub update_cluster : RadiusCluster K → World → World × Check KubeError
  pub update_client : RadiusClient → World → World × Check KubeError
  pub update_policy : RadiusPolicy → World → World × Check KubeError

-- `meta.FindStatusCondition`, as documented: the condition of the type.
unfoldable pub find_status_condition : String → List Condition → Option Condition
find_status_condition type [] = none
find_status_condition type (c ∷ cs) =
    let rest = find_status_condition type cs in if c.type == type then some c else rest

-- `meta.SetStatusCondition`, as documented: the condition replaces that of its type or is added,
-- and the other conditions stay.
pub record ConditionSetter : Type 0 where
  pub set_status_condition : List Condition → Condition → List Condition
  pub find-set_self :
      (cs : List Condition) (c : Condition)
      → find_status_condition c.type (set_status_condition cs c) ≡ some c
  pub find-set_other :
      (cs : List Condition) (c : Condition) (type : String)
      → type ≢ c.type
      → find_status_condition type (set_status_condition cs c) ≡ find_status_condition type cs

-- The kinds of the objects that the clean-up deletes.
pub data Kind : Type 0 where
  deployment service : Kind

-- The calls `Get` and `Delete` on objects of these kinds.
pub record ObjectClient : Type 1 where
  pub World : Type 0
  pub Found : Kind → Type 0
  pub get : (kind : Kind) → NamespacedName → World → Result KubeError (Found kind)
  pub delete : Kind → NamespacedName → World → World × Check KubeError
