-- ===== src/Controller/Steps/Deployments.antt =====
-- `reconcileOneDeployment` of internal/controller/radiuscluster_controller.go.
use freeradius_k8s_operator.Shared.{
  String, Bool, List, [], ◌∷◌, Option, none, some, not, if◌then◌else◌,
}
use freeradius_k8s_operator.Shared.Int.{ℤ, pos, int_lt}
use freeradius_k8s_operator.Api.Objects.{KubeTypes, RadiusCluster}
use freeradius_k8s_operator.Api.Cluster.{AutoscalingConfig}
use freeradius_k8s_operator.Renderer.Types.{SecretRef}
use freeradius_k8s_operator.Controller.Endpoints.{EndpointDef, endpoint_labels}
use freeradius_k8s_operator.Controller.Endpoints.Cleanup.{object_name}
use freeradius_k8s_operator.Controller.Objects.{Literals, DeploymentSpec}
use freeradius_k8s_operator.Controller.Objects.Store.{ObjectKind, Store}
use freeradius_k8s_operator.Controller.Pod.{build_pod_spec}
use freeradius_k8s_operator.Controller.Steps.Calls.{Step, owned}

-- `autoscale != nil && autoscale.Enabled`
abbrev pub is_autoscaled : Option AutoscalingConfig → Bool
is_autoscaled none = Bool.false
is_autoscaled (some a) = a.enabled

at_least_one : ℤ → ℤ
at_least_one n = if int_lt n (pos 1) then pos 1 else n

-- `deploy.Spec.Replicas`, which an autoscaler sets where there is one.
unfoldable pub fixed_replicas : EndpointDef → Option ℤ
unfolding at_least_one
fixed_replicas ep =
    if not (is_autoscaled ep.autoscale) then some (at_least_one ep.replicas) else none

module _ {K : KubeTypes} (literals : Literals K) (image : String) where
  -- The value that the closure gives to `deploy.Spec`.
  unfoldable pub deployment_spec :
      RadiusCluster K → List SecretRef → String → EndpointDef → DeploymentSpec K
  unfolding fixed_replicas
  deployment_spec cluster secret_refs config_hash ep = record {
    replicas = fixed_replicas ep;
    selector = endpoint_labels cluster.meta.name ep.role;
    max_unavailable = literals.from_int (pos 0);
    max_surge = literals.from_int (pos 1);
    labels = endpoint_labels cluster.meta.name ep.role;
    annotations = ("radius.operator.io/config-hash", config_hash) ∷ [];
    pod = build_pod_spec literals image cluster secret_refs ep.c_ports;
  }

  module _ {World : Type 0} (S : Store K World) where
    unfoldable pub reconcile_one_deployment :
        RadiusCluster K → List SecretRef → String → EndpointDef → Step World
    unfolding deployment_spec
    reconcile_one_deployment cluster secret_refs config_hash ep w =
        S.create_or_update ObjectKind.deployment (object_name cluster ep.suffix)
          (owned S cluster λ deploy. record deploy {
            content = some (deployment_spec cluster secret_refs config_hash ep);
          })
          w
