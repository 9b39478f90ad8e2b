-- ===== src/Controller/Clients/Verdict.antt =====
-- What the reconciler of clients leaves in the conditions of a client.
use freeradius_k8s_operator.Shared.{◌≡◌, Bool, true, false, not, List, some, ok, err, Result}
use freeradius_k8s_operator.Api.Objects.{KubeTypes, Condition, RadiusClient, RadiusCluster}
use freeradius_k8s_operator.Kube.{NamespacedName, KubeError, Client, ConditionSetter}
use freeradius_k8s_operator.Status.{condition_ready, condition_invalid, bool_to_status}
use freeradius_k8s_operator.Status.Laws.{status_of}

-- Whether the cluster was found.
abbrev pub is_found : {K : KubeTypes} → Result KubeError (RadiusCluster K) → Bool
is_found (ok cluster) = true
is_found (err e) = false

-- The client says that it is valid, or that it is not, and its specification is the given one.
pub record ClientSays (rc : RadiusClient) (v : Bool) (r : RadiusClient) : Type 0 where
  pub spec : r.spec ≡ rc.spec
  pub ready : status_of condition_ready r.conditions ≡ some (bool_to_status v)
  pub invalid : status_of condition_invalid r.conditions ≡ some (bool_to_status (not v))

module _ {K : KubeTypes} (kube : Client K) (conditions : ConditionSetter)
    (read_back : (k : NamespacedName) (w : kube.World) (r : RadiusClient) (cs : List Condition)
      → kube.get_client k w ≡ ok r
      → kube.get_client k (kube.update_client (record r { conditions = cs }) w).0
        ≡ ok (record r { conditions = cs })) where
  open kube use {World, get_cluster, get_client, update_client}
  open conditions use {set_status_condition}

  -- The next read finds a client that says so.
  abbrev pub Leaves : NamespacedName → RadiusClient → Bool → World → Type 0
  Leaves req rc v w = (r : RadiusClient) × (get_client req w ≡ ok r) × ClientSays rc v r
