-- ===== src/Status.antt =====
-- internal/status/reporter.go and constants.go: the conditions that the reconcilers report. The
-- time of a condition's last change is left out.
pub mod Laws
pub mod Setter
use freeradius_k8s_operator.Shared.{String, Bool, true, false, List, if◌then◌else◌, Result, Check}
use freeradius_k8s_operator.Shared.Int.{ℤ}
use freeradius_k8s_operator.Api.Objects.{
  KubeTypes, Condition, RadiusClient, RadiusPolicy, RadiusCluster,
}
use freeradius_k8s_operator.Kube.{Client, ConditionSetter, KubeError}

-- The constants of the same names.
abbrev pub condition_available : String
condition_available = "Available"

abbrev pub condition_progressing : String
condition_progressing = "Progressing"

abbrev pub condition_degraded : String
condition_degraded = "Degraded"

abbrev pub condition_ready : String
condition_ready = "Ready"

abbrev pub condition_invalid : String
condition_invalid = "Invalid"

abbrev pub bool_to_status : Bool → String
bool_to_status v = if v then "True" else "False"

abbrev pub condition : String → Bool → String → String → Condition
condition cond_type value reason msg = record {
  type = cond_type;
  status = bool_to_status value;
  reason = reason;
  message = msg;
}

module _ {K : KubeTypes} (kube : Client K) (conditions : ConditionSetter) where
  open kube use {World, update_cluster, update_client, update_policy}
  open conditions use {set_status_condition}

  -- `SetConditionLocal`: the conditions of an object in memory.
  abbrev pub set_condition_local : List Condition → String → Bool → String → String → List Condition
  set_condition_local cs cond_type value reason msg =
      set_status_condition cs (condition cond_type value reason msg)

  -- The condition of a cluster in memory.
  unfoldable pub with_condition :
      RadiusCluster K → String → Bool → String → String → RadiusCluster K
  with_condition cluster cond_type value reason msg = record cluster {
    status = record cluster.status {
      conditions = set_condition_local cluster.status.conditions cond_type value reason msg;
    };
  }

  unfoldable pub flush_cluster_status : RadiusCluster K → World → World × Check KubeError
  flush_cluster_status cluster w = update_cluster cluster w

  unfoldable pub set_progressing : RadiusCluster K → Bool → World → World × Check KubeError
  set_progressing cluster progressing w =
      update_cluster
        (if progressing
          then with_condition cluster condition_progressing progressing "Reconciling"
              "Reconciliation is in progress"
          else with_condition cluster condition_progressing progressing "ReconcileComplete"
              "Reconciliation completed successfully")
        w

  unfoldable pub set_available :
      RadiusCluster K → Bool → String → String → World → World × Check KubeError
  set_available cluster available reason msg w =
      update_cluster (with_condition cluster condition_available available reason msg) w

  unfoldable pub set_degraded :
      RadiusCluster K → Bool → String → String → World → World × Check KubeError
  set_degraded cluster degraded reason msg w =
      update_cluster (with_condition cluster condition_degraded degraded reason msg) w

  unfoldable pub update_cluster_status :
      RadiusCluster K → ℤ → String → ℤ → World → World × Check KubeError
  update_cluster_status cluster ready_replicas current_image pod_restarts w =
      update_cluster
        (record cluster {
          status = record cluster.status {
            ready_replicas = ready_replicas;
            current_image = current_image;
            pod_restarts = pod_restarts;
          };
        })
        w

  abbrev pub client_with : RadiusClient → Condition → RadiusClient
  client_with rc c = record rc { conditions = set_status_condition rc.conditions c }

  unfoldable pub set_client_ready :
      RadiusClient → Bool → String → String → World → World × Check KubeError
  set_client_ready rc ready reason msg w =
      update_client (client_with rc (condition condition_ready ready reason msg)) w

  unfoldable pub set_client_invalid :
      RadiusClient → Bool → String → String → World → World × Check KubeError
  set_client_invalid rc invalid reason msg w =
      update_client (client_with rc (condition condition_invalid invalid reason msg)) w

  abbrev pub policy_with : RadiusPolicy → Condition → RadiusPolicy
  policy_with policy c = record policy { conditions = set_status_condition policy.conditions c }

  unfoldable pub set_policy_ready :
      RadiusPolicy → Bool → String → String → World → World × Check KubeError
  set_policy_ready policy ready reason msg w =
      update_policy (policy_with policy (condition condition_ready ready reason msg)) w

  unfoldable pub set_policy_invalid :
      RadiusPolicy → Bool → String → String → World → World × Check KubeError
  set_policy_invalid policy invalid reason msg w =
      update_policy (policy_with policy (condition condition_invalid invalid reason msg)) w
