-- ===== src/Controller/Tests/Reconciling.antt =====
-- The theorems on the reconcilers of policies and clients, in a namespace that holds one of each,
-- and one cluster.
use freeradius_k8s_operator.Shared.{◌≡◌, refl, [], ◌∷◌, if◌then◌else◌, ◌==◌, ok, err, Result}
use freeradius_k8s_operator.Api.Objects.{RadiusClient, RadiusPolicy, RadiusCluster}
use freeradius_k8s_operator.Kube.{NamespacedName, KubeError, not_found, Client}
use freeradius_k8s_operator.Status.Setter.{replacing}
use freeradius_k8s_operator.Controller.Policies
use freeradius_k8s_operator.Controller.Policies.Verdict.{
  PolicySays, is_valid, reconcile_policy-Leaves,
}
use freeradius_k8s_operator.Controller.Clients
use freeradius_k8s_operator.Controller.Tests.{units, cluster, nas, accept_all}

abbrev OneOfEach : Type 0
OneOfEach = RadiusClient × RadiusPolicy

abbrev find_cluster : NamespacedName → OneOfEach → Result KubeError (RadiusCluster units)
find_cluster k w = if k.name == "main" then ok cluster else err not_found

abbrev kube : Client units
kube = record {
  World = OneOfEach;
  get_cluster = find_cluster;
  get_client = λ k w. ok w.0;
  get_policy = λ k w. ok w.1;
  update_cluster = λ c w. (w, ok tt);
  update_client = λ c w. ((c, w.1), ok tt);
  update_policy = λ p w. ((w.0, p), ok tt);
}

-- A policy with an action that the renderer knows and the reconciler does not.
abbrev redundant : RadiusPolicy
redundant = record accept_all {
  spec = record accept_all.spec {
    actions =
        record {
          type = "redundant";
          module_name = "";
          modules = "sql" ∷ [];
          attribute = "";
          value = "";
        }
        ∷ [];
  };
}

abbrev orphan : RadiusClient
orphan = record nas { spec = record nas.spec { cluster_ref = "other" } }

abbrev world : OneOfEach
world = (orphan, redundant)

abbrev key : NamespacedName
key = record { namespace = "radius"; name = "accept-all" }

abbrev cluster_key : NamespacedName
cluster_key = record { namespace = "radius"; name = "main" }

abbrev other_key : NamespacedName
other_key = record { namespace = "radius"; name = "other" }

reconcile_policy-Leaves_example :
    (p : RadiusPolicy) × (kube.get_policy key (Policies.reconcile kube replacing key world).0
      ≡ ok p)
    × PolicySays redundant (is_valid redundant (find_cluster cluster_key world)) p
reconcile_policy-Leaves_example =
    reconcile_policy-Leaves kube replacing (λ k w p cs h. refl) key redundant world
      (find_cluster cluster_key world) refl refl (λ m e. cc)
