-- ===== src/Controller/Steps/Order.antt =====
-- What a step leaves of an object of its own kind, the later steps keep.
use freeradius_k8s_operator.Shared.{String, ◌≢◌, List}
use freeradius_k8s_operator.Api.Objects.{KubeTypes, RadiusCluster}
use freeradius_k8s_operator.Kube.{NamespacedName}
use freeradius_k8s_operator.Renderer.Types.{SecretRef}
use freeradius_k8s_operator.Renderer.Files.{ConfigFiles}
use freeradius_k8s_operator.Controller.Objects.{Literals}
use freeradius_k8s_operator.Controller.Objects.Store.{ObjectKind, Store, IsLawful}
use freeradius_k8s_operator.Controller.Steps.{reconcile_deployments_and_services}
use freeradius_k8s_operator.Controller.Steps.Calls.{Step, ◌then◌}
use freeradius_k8s_operator.Controller.Steps.Laws.{Answer, Leaves, then-Leaves, then-Leaves_first}
use freeradius_k8s_operator.Controller.Steps.Untouched.{
  config_map-Spares, hpas-Spares, pdb-Spares, deployments-Spares,
}
use freeradius_k8s_operator.Controller.Steps.Autoscalers.{reconcile_hpas}
use freeradius_k8s_operator.Controller.Steps.Budgets.{reconcile_pdb}
use freeradius_k8s_operator.Controller.Steps.Rbac.{reconcile_rbac}
use freeradius_k8s_operator.Controller.Steps.ConfigMaps.{reconcile_config_map}

module _ {K : KubeTypes} (literals : Literals K) (image : String) {World : Type 0}
    (S : Store K World) (cluster : RadiusCluster K) (files : ConfigFiles) (refs : List SecretRef)
    (hash : String) where
  module _ (L : IsLawful K S) where
    abbrev rbac : Step World
    rbac = reconcile_rbac S cluster

    abbrev config : Step World
    config = reconcile_config_map S cluster files

    abbrev workloads : Step World
    workloads = reconcile_deployments_and_services literals image S cluster refs hash

    abbrev hpas : Step World
    hpas = reconcile_hpas S cluster

    abbrev pdb : Step World
    pdb = reconcile_pdb literals S cluster

    abbrev every : Step World
    every = rbac then config then workloads then hpas then pdb

    -- What one of the steps leaves of an object of its own kind is there at the end.
    module _ (k : ObjectKind) (n : NamespacedName) (Q : Answer S k → Type 0) where
      pub from_hpas : Leaves S k n Q hpas → k ≢ ObjectKind.disruption_budget → Leaves S k n Q every
      from_hpas l e =
          then-Leaves_first S k n Q (rbac then config then workloads then hpas) pdb
            (then-Leaves S k n Q (rbac then config then workloads) hpas l)
            (pdb-Spares S L k n cluster literals e)

      behind_workloads :
          (first : Step World)
          → Leaves S k n Q first
          → k ≢ ObjectKind.autoscaler
          → k ≢ ObjectKind.disruption_budget
          → Leaves S k n Q (first then hpas then pdb)
      behind_workloads first l d e =
          then-Leaves_first S k n Q (first then hpas) pdb
            (then-Leaves_first S k n Q first hpas l (hpas-Spares S L k n cluster d))
            (pdb-Spares S L k n cluster literals e)

      pub from_workloads :
          Leaves S k n Q workloads
          → k ≢ ObjectKind.autoscaler
          → k ≢ ObjectKind.disruption_budget
          → Leaves S k n Q every
      from_workloads l d e =
          behind_workloads (rbac then config then workloads)
            (then-Leaves S k n Q (rbac then config) workloads l) d e

      -- The kinds of the first two steps are none of the others.
      pub from_first :
          Leaves S k n Q (rbac then config)
          → k ≢ ObjectKind.deployment
          → k ≢ ObjectKind.service
          → k ≢ ObjectKind.autoscaler
          → k ≢ ObjectKind.disruption_budget
          → Leaves S k n Q every
      from_first l a b d e =
          behind_workloads (rbac then config then workloads)
            (then-Leaves_first S k n Q (rbac then config) workloads l
              (deployments-Spares S L k n cluster a b literals image refs hash))
            d e

      pub from_rbac :
          Leaves S k n Q rbac
          → k ≢ ObjectKind.config_map
          → k ≢ ObjectKind.deployment
          → k ≢ ObjectKind.service
          → k ≢ ObjectKind.autoscaler
          → k ≢ ObjectKind.disruption_budget
          → Leaves S k n Q every
      from_rbac l c a b d e =
          from_first
            (then-Leaves_first S k n Q rbac config l (config_map-Spares S L k n cluster files c)) a
            b d e
