-- ===== src/Controller/Objects/Store.antt =====
-- The calls on those objects: `Get`, `Delete` and `controllerutil.CreateOrUpdate` of
-- sigs.k8s.io/controller-runtime, and `ctrl.SetControllerReference`, as interfaces.
use freeradius_k8s_operator.Shared.{◌≡◌, ◌≢◌, ◌⊎◌, String, List, Option, ok, err, Result, Check}
use freeradius_k8s_operator.Shared.Int.{ℤ}
use freeradius_k8s_operator.Api.Objects.{KubeTypes, RadiusCluster, RadiusClient, RadiusPolicy}
use freeradius_k8s_operator.Kube.{NamespacedName, KubeError, not_found}
use freeradius_k8s_operator.Renderer.Files.{ConfigFiles}
use freeradius_k8s_operator.Controller.Objects.{
  DeploymentSpec, ServiceSpec, HpaSpec, PdbSpec, PolicyRule, RoleBinding,
}

pub data ObjectKind : Type 0 where
  deployment service config_map autoscaler disruption_budget : ObjectKind
  service_account role role_binding : ObjectKind

module _ (K : KubeTypes) where
  -- What an object holds besides its metadata: nothing yet is the object before it is filled.
  abbrev pub Content : ObjectKind → Type 0
  Content ObjectKind.deployment = Option (DeploymentSpec K)
  Content ObjectKind.service = Option ServiceSpec
  Content ObjectKind.config_map = ConfigFiles
  Content ObjectKind.autoscaler = Option HpaSpec
  Content ObjectKind.disruption_budget = Option (PdbSpec K)
  Content ObjectKind.service_account = Unit
  Content ObjectKind.role = List PolicyRule
  Content ObjectKind.role_binding = RoleBinding

  -- An object: who owns it, its annotations and its content.
  pub record Object (Owners : Type 0) (kind : ObjectKind) : Type 0 where
    pub owners : Owners
    pub annotations : List (String × String)
    pub content : Content kind

  -- The calls, on a state of any type. The counts of restarts are those of the containers of each
  -- listed pod.
  pub record Store (World : Type 0) : Type 1 where
    pub Owners : Type 0
    pub set_controller_reference : RadiusCluster K → Owners → Result KubeError Owners
    pub get : (kind : ObjectKind) → NamespacedName → World → Result KubeError (Object Owners kind)
    pub delete : ObjectKind → NamespacedName → World → World × Check KubeError
    pub create_or_update :
        (kind : ObjectKind)
        → NamespacedName
        → (Object Owners kind → Result KubeError (Object Owners kind))
        → World
        → World × Check KubeError
    pub ready_replicas : NamespacedName → World → Result KubeError ℤ
    pub get_secret : NamespacedName → World → Check KubeError
    pub list_clients : String → World → Result KubeError (List RadiusClient)
    pub list_policies : String → World → Result KubeError (List RadiusPolicy)
    pub list_restarts : String → List (String × String) → World → Result KubeError (List (List ℤ))

  -- What their documentation promises, on the fields that the operator sets: an object that was
  -- stored is the one that the function returned on some object, an object that was deleted, or was not
  -- found when it should be, is gone,
  -- and neither call touches another object.
  pub record IsLawful {World : Type 0} (S : Store World) : Type 0 where
    pub get-create_or_update :
        (k : ObjectKind) (n : NamespacedName)
        (f : Object S.Owners k → Result KubeError (Object S.Owners k)) (w : World)
        → (S.create_or_update k n f w).1 ≡ ok tt
        → (old : Object S.Owners k) × (new : Object S.Owners k) × (f old ≡ ok new)
          × (S.get k n (S.create_or_update k n f w).0 ≡ ok new)
    pub get-create_or_update_other :
        (j k : ObjectKind) (m n : NamespacedName)
        (f : Object S.Owners k → Result KubeError (Object S.Owners k)) (w : World)
        → (j ≢ k) ⊎ (m ≢ n)
        → S.get j m (S.create_or_update k n f w).0 ≡ S.get j m w
    pub get-delete :
        (k : ObjectKind) (n : NamespacedName) (w : World)
        → ((S.delete k n w).1 ≡ ok tt) ⊎ ((S.delete k n w).1 ≡ err not_found)
        → S.get k n (S.delete k n w).0 ≡ err not_found
    pub get-delete_other :
        (j k : ObjectKind) (m n : NamespacedName) (w : World)
        → (j ≢ k) ⊎ (m ≢ n)
        → S.get j m (S.delete k n w).0 ≡ S.get j m w

  -- A request for an object fails only when it is not there.
  abbrev pub IsReadable : {World : Type 0} → Store World → Type 0
  IsReadable {World} S =
      (k : ObjectKind) (n : NamespacedName) (w : World) (e : KubeError)
      → S.get k n w ≡ err e
      → e ≡ not_found

  -- A store none of whose calls on objects fails: a request for an
  -- object fails only when it is not there, the cluster may own every object, what the function
  -- returns is stored, and an object that is there is deleted.
  pub record IsServing {World : Type 0} (S : Store World) : Type 0 where
    pub readable : IsReadable S
    pub owns :
        (cluster : RadiusCluster K) (owners : S.Owners)
        → (new : S.Owners) × (S.set_controller_reference cluster owners ≡ ok new)
    pub creates :
        (k : ObjectKind) (n : NamespacedName)
        (f : Object S.Owners k → Result KubeError (Object S.Owners k)) (w : World)
        → ((old : Object S.Owners k) → (new : Object S.Owners k) × (f old ≡ ok new))
        → (S.create_or_update k n f w).1 ≡ ok tt
    pub deletes :
        (k : ObjectKind) (n : NamespacedName) (o : Object S.Owners k) (w : World)
        → S.get k n w ≡ ok o
        → (S.delete k n w).1 ≡ ok tt
