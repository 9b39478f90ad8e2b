-- ===== src/Controller/Endpoints/Labels.antt =====
-- Which pods the selectors of the operator's services and deployments take.
use freeradius_k8s_operator.Shared.{
  String, ◌≡◌, refl, Bool, ◌&&◌, List, ◌++◌, Option, none, some, All, ◌==◌, eq_refl, any, all,
}
use freeradius_k8s_operator.Shared.Int.{ℤ, pos}
use freeradius_k8s_operator.Api.Cluster.{ServiceEndpointConfig, ServicesConfig}
use freeradius_k8s_operator.Api.Objects.{KubeTypes, RadiusCluster}
use freeradius_k8s_operator.Controller.Endpoints.{
  EndpointDef, split_endpoint, split_endpoints, unified_endpoint, endpoints_of, build_endpoints,
  pod_labels, endpoint_labels,
}

-- A selector takes an object that has all of the selector's labels, as Kubernetes documents it.
abbrev pub selects : List (String × String) → List (String × String) → Bool
selects selector labels = all (λ l. any (λ m. (l.0 == m.0) && (l.1 == m.1)) labels) selector

-- The selector of each endpoint takes the pods of that endpoint and no others' of the list.
abbrev pub AreSeparate : String → List EndpointDef → Type 0
AreSeparate name eps =
    All
      (λ a.
        All
          (λ b.
            selects (endpoint_labels name a.role) (endpoint_labels name b.role)
            ≡ (a.suffix == b.suffix))
          eps)
      eps

split-AreSeparate :
    (name : String) (port : ℤ) (a b c : Option ServiceEndpointConfig)
    → AreSeparate name (
        split_endpoint "auth" "-freeradius-auth" (pos 1812) a
        ++ (split_endpoint "acct" "-freeradius-acct" (pos 1813) b
            ++ split_endpoint "coa" "-freeradius-coa" port c))
unfolding endpoint_labels pod_labels
split-AreSeparate name port none none none = tt
split-AreSeparate name port none none (some c) = simp (eq_refl name) ((refl, tt), tt)
split-AreSeparate name port none (some b) none = simp (eq_refl name) ((refl, tt), tt)
split-AreSeparate name port none (some b) (some c) =
    simp (eq_refl name) ((refl, (refl, tt)), ((refl, (refl, tt)), tt))
split-AreSeparate name port (some a) none none = simp (eq_refl name) ((refl, tt), tt)
split-AreSeparate name port (some a) none (some c) =
    simp (eq_refl name) ((refl, (refl, tt)), ((refl, (refl, tt)), tt))
split-AreSeparate name port (some a) (some b) none =
    simp (eq_refl name) ((refl, (refl, tt)), ((refl, (refl, tt)), tt))
split-AreSeparate name port (some a) (some b) (some c) =
    simp (eq_refl name)
      ((refl, (refl, (refl, tt))), ((refl, (refl, (refl, tt))), ((refl, (refl, (refl, tt))), tt)))

endpoints_of-AreSeparate :
    {K : KubeTypes} (cluster : RadiusCluster K) (services : Option ServicesConfig)
    → AreSeparate cluster.meta.name (endpoints_of cluster services)
unfolding endpoints_of split_endpoints unified_endpoint endpoint_labels pod_labels
endpoints_of-AreSeparate cluster none = simp (eq_refl cluster.meta.name) ((refl, tt), tt)
endpoints_of-AreSeparate cluster (some svcs) =
    split-AreSeparate cluster.meta.name _ svcs.auth svcs.accounting svcs.coa

-- For any two endpoints of a cluster, the labels of the first, as a selector, take the pods with the
-- labels of the second exactly when the two endpoints have the same suffix.
pub build_endpoints-AreSeparate :
    {K : KubeTypes} (cluster : RadiusCluster K)
    → AreSeparate cluster.meta.name (build_endpoints cluster)
unfolding build_endpoints
build_endpoints-AreSeparate cluster = endpoints_of-AreSeparate cluster cluster.spec.services
