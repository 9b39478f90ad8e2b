-- ===== src/Controller/Tests/HeldBack.antt =====
-- The theorems on a round that is held back: the client's secret is missing, or a policy is of an unknown
-- stage.
use freeradius_k8s_operator.Shared.{
  String, ◌≡◌, refl, true, [], ◌∷◌, ◌++◌, ok, err, Check, All, if◌then◌else◌, ◌==◌,
}
use freeradius_k8s_operator.Api.Objects.{RadiusCluster, RadiusPolicy}
use freeradius_k8s_operator.Kube.{NamespacedName, KubeError, not_found}
use freeradius_k8s_operator.Status.{set_progressing, with_condition}
use freeradius_k8s_operator.Status.Setter.{replacing}
use freeradius_k8s_operator.Renderer.Modules.{render_modules, add_modules}
use freeradius_k8s_operator.Renderer.Sites.{valid_stages, check_action, check_policy, render_sites}
use freeradius_k8s_operator.Renderer.Sites.Sorting.{insertion}
use freeradius_k8s_operator.Renderer.Types.{invalid_stage_error}
use freeradius_k8s_operator.Renderer.Validate.{validate_policy_spec, validate_policy_action}
use freeradius_k8s_operator.Controller.Errors.{is_invalid_error}
use freeradius_k8s_operator.Renderer.Render.{check_context, render}
use freeradius_k8s_operator.Controller.Secrets.{
  add, matching_clients, matching_policies, collect_secret_refs,
}
use freeradius_k8s_operator.Controller.Context.{policy_spec, policy_action, build_render_context}
use freeradius_k8s_operator.Controller.Objects.Store.{ObjectKind, Store}
use freeradius_k8s_operator.Controller.Outcome.{waiting, rejected}
use freeradius_k8s_operator.Controller.Clusters.{reconcile}
use freeradius_k8s_operator.Controller.Clusters.Failing.{
  Reads, IsHeldBack, refs, secret_answer, reconcile-invalid, reconcile-missing,
}
use freeradius_k8s_operator.Controller.Tests.{units, nas, accept_all}
use freeradius_k8s_operator.Controller.Tests.Memory.{World, kube, memory, present}
use freeradius_k8s_operator.Controller.Tests.Converging.{literals}
use freeradius_k8s_operator.Controller.Tests.Rounds.{bare, start, req, digest, sorted, read_back}

-- The client's secret is not there.
abbrev gone : String → Check KubeError
gone name = if name == "nas" then err not_found else ok tt

keeps_gone :
    (k : ObjectKind) (n : NamespacedName) (c : RadiusCluster units) (w : World)
    → (memory (nas ∷ []) gone).get k n (kube.update_cluster c w).0
      ≡ (memory (nas ∷ []) gone).get k n w
keeps_gone k n c w = refl

read :
    Reads kube replacing
      (memory (nas ∷ []) gone)
      literals
      "operator"
      insertion
      digest
      sorted
      read_back
      keeps_gone
      req
      start
unfolding set_progressing
read = record {
  first = bare;
  cluster =
      with_condition kube replacing bare "Progressing" true "Reconciling"
        "Reconciliation is in progress";
  client_items = nas ∷ [];
  policy_items = [];
  reads_first = refl;
  reads = refl;
  lists_clients = refl;
  lists_policies = refl;
}

missing_first :
    refs kube replacing
      (memory (nas ∷ []) gone)
      literals
      "operator"
      insertion
      digest
      sorted
      read_back
      keeps_gone
      req
      start
      read
    ≡ [] ++ record { name = "nas"; key = "secret" } ∷ []
unfolding read add collect_secret_refs matching_clients with_condition
missing_first = refl

reconcile-missing_example :
    ((reconcile kube replacing
        (memory (nas ∷ []) gone)
        literals
        "operator"
        insertion
        digest
        sorted
        req
        start).1
      ≡ waiting 30)
    × IsHeldBack kube replacing
        (memory (nas ∷ []) gone)
        literals
        "operator"
        insertion
        digest
        sorted
        read_back
        keeps_gone
        req
        (reconcile kube replacing
          (memory (nas ∷ []) gone)
          literals
          "operator"
          insertion
          digest
          sorted
          req
          start).0
        start
reconcile-missing_example =
    reconcile-missing kube replacing (memory (nas ∷ []) gone) literals "operator" insertion digest
      sorted read_back keeps_gone req start read [] (record { name = "nas"; key = "secret" }) []
      missing_first tt refl

-- A policy of a stage that the renderer does not know.
abbrev odd : RadiusPolicy
odd = record accept_all { spec = record accept_all.spec { stage = "bogus" } }

abbrev odd_store : Store units World
odd_store = record (memory [] present) { list_policies = λ namespace w. ok (odd ∷ []) }

keeps_odd :
    (k : ObjectKind) (n : NamespacedName) (c : RadiusCluster units) (w : World)
    → odd_store.get k n (kube.update_cluster c w).0 ≡ odd_store.get k n w
keeps_odd k n c w = refl

abbrev progressing : RadiusCluster units
progressing =
    with_condition kube replacing bare "Progressing" true "Reconciling"
      "Reconciliation is in progress"

odd_reads :
    Reads kube replacing odd_store literals "operator" insertion digest sorted read_back keeps_odd
      req start
unfolding set_progressing
odd_reads = record {
  first = bare;
  cluster = progressing;
  client_items = [];
  policy_items = odd ∷ [];
  reads_first = refl;
  reads = refl;
  lists_clients = refl;
  lists_policies = refl;
}

none_mentioned :
    All
      (λ q.
        secret_answer kube replacing odd_store literals "operator" insertion digest sorted read_back
          keeps_odd req start odd_reads q
        ≡ ok tt)
      (refs kube replacing odd_store literals "operator" insertion digest sorted read_back keeps_odd
        req start odd_reads)
unfolding odd_reads add collect_secret_refs matching_clients with_condition
none_mentioned = tt

fails :
    render insertion (
      build_render_context odd_reads.cluster
        (matching_clients odd_reads.cluster.meta.name odd_reads.client_items)
        (matching_policies odd_reads.cluster.meta.name odd_reads.policy_items))
    ≡ err (invalid_stage_error "bogus")
unfolding odd_reads policy_spec policy_action build_render_context matching_clients
    matching_policies with_condition render render_modules add_modules render_sites check_context
    validate_policy_spec validate_policy_action check_policy check_action valid_stages
fails = refl

known : is_invalid_error (invalid_stage_error "bogus") ≡ true
unfolding is_invalid_error
known = refl

reconcile-invalid_example :
    ((reconcile kube replacing odd_store literals "operator" insertion digest sorted req start).1
      ≡ rejected)
    × IsHeldBack kube replacing odd_store literals "operator" insertion digest sorted read_back
        keeps_odd req
        (reconcile kube replacing odd_store literals "operator" insertion digest sorted req start).0
        start
reconcile-invalid_example =
    reconcile-invalid kube replacing odd_store literals "operator" insertion digest sorted read_back
      keeps_odd req start odd_reads (invalid_stage_error "bogus") none_mentioned fails known
