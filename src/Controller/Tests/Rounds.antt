-- ===== src/Controller/Tests/Rounds.antt =====
-- The theorems on a round of the reconciler of clusters that succeeds, at a cluster without modules, and
-- on the triggers of a round.
use freeradius_k8s_operator.Shared.{
  String, ◌≡◌, refl, List, [], ◌∷◌, none, ◌≢◌, ◌↔◌, eq_iff, arith, ok, append,
}
use freeradius_k8s_operator.Api.Objects.{
  RadiusCluster, RadiusClusterStatus, RadiusClient, RadiusPolicy,
}
use freeradius_k8s_operator.Kube.{NamespacedName}
use freeradius_k8s_operator.Status.{set_progressing, with_condition}
use freeradius_k8s_operator.Status.Setter.{replacing}
use freeradius_k8s_operator.Renderer.Modules.{render_modules, add_modules}
use freeradius_k8s_operator.Renderer.Sites.{render_sites}
use freeradius_k8s_operator.Renderer.Sites.Sorting.{insertion}
use freeradius_k8s_operator.Controller.Clusters.Triggers.{enqueue_owning_cluster-matches}
use freeradius_k8s_operator.Renderer.Render.{check_context, render}
use freeradius_k8s_operator.Controller.Secrets.{
  matching_clients, matching_policies, collect_secret_refs,
}
use freeradius_k8s_operator.Controller.Context.{build_render_context}
use freeradius_k8s_operator.Controller.Outcome.{succeeded}
use freeradius_k8s_operator.Controller.Clusters.{
  a_client, a_policy, enqueue_owning_cluster, check_secrets, finish, report_status, with_deployment,
  with_objects, with_files, with_secrets, with_policies, with_clients, with_cluster, reconcile_on,
  reconcile,
}
use freeradius_k8s_operator.Controller.Clusters.Says.{Says, reconcile-Says}
use freeradius_k8s_operator.Controller.Steps.{
  endpoints_step, reconcile_deployments_and_services, reconcile_objects,
}
use freeradius_k8s_operator.Controller.Endpoints.{
  endpoints_of, split_endpoints, build_endpoints, stale_suffixes_of, stale_suffixes,
}
use freeradius_k8s_operator.Controller.Endpoints.Cleanup.{
  object_name, delete_if_found, delete_both, cleanup_all, cleanup_stale_resources,
}
use freeradius_k8s_operator.Controller.Steps.Calls.{delete_found, delete_existing}
use freeradius_k8s_operator.Controller.Steps.Deployments.{reconcile_one_deployment}
use freeradius_k8s_operator.Controller.Steps.Services.{reconcile_one_service}
use freeradius_k8s_operator.Controller.Steps.Autoscalers.{
  create_hpa, delete_hpa, hpa_on, reconcile_one_hpa, hpas_of, reconcile_hpas,
}
use freeradius_k8s_operator.Controller.Steps.Budgets.{create_pdb, delete_pdb, pdb_on, reconcile_pdb}
use freeradius_k8s_operator.Controller.Steps.Rbac.{
  reconcile_service_account, reconcile_role, reconcile_role_binding, reconcile_rbac,
}
use freeradius_k8s_operator.Controller.Steps.ConfigMaps.{reconcile_config_map}
use freeradius_k8s_operator.Controller.Tests.{units, cluster}
use freeradius_k8s_operator.Controller.Tests.Memory.{World, kube, memory, present, nothing}
use freeradius_k8s_operator.Controller.Tests.Converging.{literals}

abbrev pub bare : RadiusCluster units
bare = record cluster { spec = record cluster.spec { modules = []; tls = none } }

abbrev pub start : World
start = (bare, nothing)

abbrev pub req : NamespacedName
req = record { namespace = "radius"; name = "main" }

-- Neither matters here.
abbrev pub digest : String → String
digest s = s

abbrev pub sorted : List String → List String
sorted keys = keys

succeeds :
    (reconcile kube replacing
      (memory [] present)
      literals
      "operator"
      insertion
      digest
      sorted
      req
      start).1
    ≡ succeeded
unfolding reconcile reconcile_on with_cluster with_clients with_policies with_secrets with_files
    with_objects with_deployment report_status finish check_secrets set_progressing with_condition
    collect_secret_refs build_render_context matching_clients matching_policies render
    render_modules add_modules render_sites check_context reconcile_objects
    reconcile_deployments_and_services endpoints_step reconcile_one_deployment reconcile_one_service
    create_hpa delete_hpa hpa_on reconcile_one_hpa hpas_of reconcile_hpas create_pdb delete_pdb
    pdb_on reconcile_pdb reconcile_service_account reconcile_role reconcile_role_binding
    reconcile_rbac reconcile_config_map delete_found delete_existing object_name delete_if_found
    delete_both cleanup_all cleanup_stale_resources endpoints_of split_endpoints build_endpoints
    stale_suffixes_of stale_suffixes append
succeeds = refl

pub read_back :
    (k : NamespacedName) (w : World) (c : RadiusCluster units) (st : RadiusClusterStatus)
    → kube.get_cluster k w ≡ ok c
    → kube.get_cluster k (kube.update_cluster (record c { status = st }) w).0
      ≡ ok (record c { status = st })
read_back k w c st h = refl

reconcile-Says_example :
    Says kube replacing
      (memory [] present)
      literals
      "operator"
      insertion
      digest
      sorted
      read_back
      req
      (reconcile kube replacing
        (memory [] present)
        literals
        "operator"
        insertion
        digest
        sorted
        req
        start).0
reconcile-Says_example =
    reconcile-Says kube replacing (memory [] present) literals "operator" insertion digest sorted
      read_back req bare start refl succeeds

not_empty : ◌≢◌ {A = String} "main" ""
not_empty = ground (arith, eq_iff "main" "")

enqueue_owning_cluster-matches_example :
    ((c : RadiusClient)
      → (enqueue_owning_cluster (a_client c)
          ≡ record { namespace = c.meta.namespace; name = "main" } ∷ [])
        ↔ (matching_clients "main" (c ∷ []) ≡ c ∷ []))
    × ((p : RadiusPolicy)
        → (enqueue_owning_cluster (a_policy p)
            ≡ record { namespace = p.meta.namespace; name = "main" } ∷ [])
          ↔ (matching_policies "main" (p ∷ []) ≡ p ∷ []))
enqueue_owning_cluster-matches_example = enqueue_owning_cluster-matches "main" not_empty
