-- ===== src/Controller/Clusters/Ends.antt =====
-- What a round of the reconciler of clusters that succeeds has done.
use freeradius_k8s_operator.Shared.{String, ◌≡◌, List, ok, All}
use freeradius_k8s_operator.Api.Objects.{KubeTypes, RadiusCluster, RadiusClient, RadiusPolicy}
use freeradius_k8s_operator.Kube.{NamespacedName, Client, ConditionSetter}
use freeradius_k8s_operator.Renderer.Types.{SecretRef}
use freeradius_k8s_operator.Renderer.Files.{ConfigFiles}
use freeradius_k8s_operator.Renderer.Sites.{SliceSort}
use freeradius_k8s_operator.Renderer.Render.{render}
use freeradius_k8s_operator.Controller.Secrets.{
  matching_policies, matching_clients, collect_secret_refs,
}
use freeradius_k8s_operator.Controller.Context.{build_render_context}
use freeradius_k8s_operator.Controller.Hashes.{compute_config_hash}
use freeradius_k8s_operator.Controller.Objects.{Literals}
use freeradius_k8s_operator.Controller.Objects.Store.{ObjectKind, Store, IsLawful, IsReadable}
use freeradius_k8s_operator.Controller.Outcome.{succeeded}
use freeradius_k8s_operator.Controller.Steps.{reconcile_objects}
use freeradius_k8s_operator.Controller.Steps.Stored.{IsStored, reconcile_objects-IsStored}
use freeradius_k8s_operator.Controller.Clusters.{with_objects, with_files}
use freeradius_k8s_operator.Controller.Steps.Converged.{IsConverged}
use freeradius_k8s_operator.Controller.Clusters.Keeps.{IsStored-same, with_objects-done}

module _ {K : KubeTypes} (kube : Client K) (conditions : ConditionSetter) (S : Store K kube.World)
    (literals : Literals K) (image : String) (sorting : SliceSort) (hash : String → String)
    (sort_strings : List String → List String) (L : IsLawful K S) (readable : IsReadable K S)
    (keeps : (k : ObjectKind) (n : NamespacedName) (c : RadiusCluster K) (w : kube.World)
      → S.get k n (kube.update_cluster c w).0 ≡ S.get k n w) where
  open kube use {World, get_cluster}

  with_objects-IsStored :
      (req : NamespacedName) (cluster : RadiusCluster K) (files : ConfigFiles)
      (refs : List SecretRef) (sum : String) (w : World)
      → (with_objects kube conditions S literals image sorting hash sort_strings req cluster
          (reconcile_objects literals image S cluster files refs sum w)).1
        ≡ succeeded
      → IsStored literals image S cluster files refs sum
          (with_objects kube conditions S literals image sorting hash sort_strings req cluster
            (reconcile_objects literals image S cluster files refs sum w)).0
  with_objects-IsStored req cluster files refs sum w h =
      let r = reconcile_objects literals image S cluster files refs sum w in
      let (done, objects) =
        with_objects-done kube conditions S literals image sorting hash sort_strings keeps req
          cluster r h in
      IsStored-same literals image S cluster files refs sum
        (with_objects kube conditions S literals image sorting hash sort_strings req cluster r).0
        r.0 objects (reconcile_objects-IsStored literals image S cluster files refs sum L w done)

  pub with_files-IsStored :
      (req : NamespacedName) (cluster : RadiusCluster K) (clients : List RadiusClient) (w : World)
      (files : ConfigFiles)
      → (with_files kube conditions S literals image sorting hash sort_strings req cluster clients w
          (ok files)).1
        ≡ succeeded
      → IsStored literals image S cluster files
          (collect_secret_refs cluster clients)
          (compute_config_hash hash sort_strings files clients)
          (with_files kube conditions S literals image sorting hash sort_strings req cluster clients
            w
            (ok files)).0
  unfolding with_files
  with_files-IsStored req cluster clients w files h =
      with_objects-IsStored req cluster files (collect_secret_refs cluster clients)
        (compute_config_hash hash sort_strings files clients) w h

  -- What a round that succeeds has read in a state, and rendered, and that the objects of a later
  -- state are as that asks for.
  pub record IsRendered (req : NamespacedName) (u v : World) : Type 0 where
    pub cluster : RadiusCluster K
    pub client_items : List RadiusClient
    pub policy_items : List RadiusPolicy
    pub files : ConfigFiles
    pub reads : get_cluster req u ≡ ok cluster
    pub lists_clients : S.list_clients req.namespace u ≡ ok client_items
    pub lists_policies : S.list_policies req.namespace u ≡ ok policy_items
    pub finds :
        All
          (λ ref. S.get_secret (record { namespace = req.namespace; name = ref.name }) u ≡ ok tt)
          (collect_secret_refs cluster (matching_clients cluster.meta.name client_items))
    pub renders :
        render sorting (
          build_render_context cluster
            (matching_clients cluster.meta.name client_items)
            (matching_policies cluster.meta.name policy_items))
        ≡ ok files
    pub converged :
        IsConverged literals image S cluster files
          (collect_secret_refs cluster (matching_clients cluster.meta.name client_items))
          (compute_config_hash hash sort_strings files
            (matching_clients cluster.meta.name client_items))
          v

  module _ (req : NamespacedName) (u : World) where
    module _ (cluster : RadiusCluster K) (client_items : List RadiusClient)
        (reads : get_cluster req u ≡ ok cluster)
        (lists_clients : S.list_clients req.namespace u ≡ ok client_items) where
      abbrev clients : List RadiusClient
      clients = matching_clients cluster.meta.name client_items

      abbrev refs : List SecretRef
      refs = collect_secret_refs cluster clients

      module _ (policy_items : List RadiusPolicy)
          (lists_policies : S.list_policies req.namespace u ≡ ok policy_items) where
        abbrev policies : List RadiusPolicy
        policies = matching_policies cluster.meta.name policy_items
