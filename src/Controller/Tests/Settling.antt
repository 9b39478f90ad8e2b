-- ===== src/Controller/Tests/Settling.antt =====
-- The theorem on a round in which no call fails, at a cluster with one client.
use freeradius_k8s_operator.Shared.{◌≡◌, refl, true, [], ◌∷◌, ok, err, Result, All}
use freeradius_k8s_operator.Api.Objects.{RadiusCluster}
use freeradius_k8s_operator.Kube.{NamespacedName}
use freeradius_k8s_operator.Status.{set_progressing, with_condition}
use freeradius_k8s_operator.Status.Setter.{replacing}
use freeradius_k8s_operator.Renderer.Types.{Error}
use freeradius_k8s_operator.Renderer.Files.{ConfigFiles}
use freeradius_k8s_operator.Renderer.Modules.{render_modules, add_modules}
use freeradius_k8s_operator.Renderer.Sites.{render_sites}
use freeradius_k8s_operator.Renderer.Sites.Sorting.{insertion}
use freeradius_k8s_operator.Renderer.Render.{check_client, check_context, render}
use freeradius_k8s_operator.Renderer.Validate.{validate_client_spec}
use freeradius_k8s_operator.Renderer.Sanitize.{validate_identifier, validate_ip_or_cidr}
use freeradius_k8s_operator.Regexp.{match_string}
use freeradius_k8s_operator.Controller.Secrets.{
  add, matching_clients, matching_policies, collect_secret_refs,
}
use freeradius_k8s_operator.Controller.Context.{client_spec, build_render_context}
use freeradius_k8s_operator.Controller.Hashes.{compute_config_hash}
use freeradius_k8s_operator.Controller.Objects.Store.{ObjectKind, Store}
use freeradius_k8s_operator.Controller.Outcome.{succeeded}
use freeradius_k8s_operator.Controller.Steps.Converged.{IsConverged}
use freeradius_k8s_operator.Controller.Clusters.{reconcile}
use freeradius_k8s_operator.Controller.Clusters.Failing.{Reads, clients, refs, secret_answer}
use freeradius_k8s_operator.Controller.Clusters.Settles.{reconcile-Settles}
use freeradius_k8s_operator.Controller.Tests.{units, nas}
use freeradius_k8s_operator.Controller.Tests.Memory.{
  World, kube, memory, memory-IsLawful, memory-IsServing, present,
}
use freeradius_k8s_operator.Controller.Tests.Converging.{literals}
use freeradius_k8s_operator.Controller.Tests.Rounds.{bare, start, req, digest, sorted, read_back}

abbrev serving : Store units World
serving = memory (nas ∷ []) present

keeps_serving :
    (k : ObjectKind) (n : NamespacedName) (c : RadiusCluster units) (w : World)
    → serving.get k n (kube.update_cluster c w).0 ≡ serving.get k n w
keeps_serving k n c w = refl

stays : (w : World) → (c : RadiusCluster units) × (kube.get_cluster req w ≡ ok c)
stays w = (w.0, refl)

reads :
    Reads kube replacing serving literals "operator" insertion digest sorted read_back keeps_serving
      req start
unfolding set_progressing
reads = record {
  first = bare;
  cluster =
      with_condition kube replacing bare "Progressing" true "Reconciling"
        "Reconciliation is in progress";
  client_items = nas ∷ [];
  policy_items = [];
  reads_first = refl;
  reads = refl;
  lists_clients = refl;
  lists_policies = refl;
}

abbrev files_of : Result Error ConfigFiles → ConfigFiles
files_of (ok files) = files
files_of (err e) = []

abbrev answered : Result Error ConfigFiles
answered = render insertion (
    build_render_context reads.cluster (matching_clients reads.cluster.meta.name reads.client_items)
      (matching_policies reads.cluster.meta.name reads.policy_items))

renders : answered ≡ ok (files_of answered)
unfolding reads client_spec build_render_context matching_clients matching_policies with_condition
    render render_modules add_modules render_sites check_client check_context validate_client_spec
    validate_identifier validate_ip_or_cidr match_string
renders = refl

found_secrets :
    All
      (λ q.
        secret_answer kube replacing serving literals "operator" insertion digest sorted read_back
          keeps_serving req start reads q
        ≡ ok tt)
      (refs kube replacing serving literals "operator" insertion digest sorted read_back
        keeps_serving req start reads)
unfolding reads add collect_secret_refs matching_clients with_condition
found_secrets = (refl, tt)

reconcile-Settles_example :
    ((reconcile kube replacing serving literals "operator" insertion digest sorted req start).1
      ≡ succeeded)
    × IsConverged literals "operator" serving reads.cluster
        (files_of answered)
        (refs kube replacing serving literals "operator" insertion digest sorted read_back
          keeps_serving req start reads)
        (compute_config_hash digest sorted (files_of answered) (
          clients kube replacing serving literals "operator" insertion digest sorted read_back
            keeps_serving req start reads))
        (reconcile kube replacing serving literals "operator" insertion digest sorted req start).0
reconcile-Settles_example =
    reconcile-Settles kube replacing serving literals "operator" insertion digest sorted read_back
      keeps_serving (memory-IsLawful (nas ∷ []) present) (memory-IsServing (nas ∷ []) present) req
      stays start reads (files_of answered) found_secrets renders
