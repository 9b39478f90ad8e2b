-- ===== src/Controller/Endpoints/Names.antt =====
-- The names of the objects that the operator creates and deletes for a cluster's endpoints.
use freeradius_k8s_operator.Shared.{
  String, refl, List, [], ◌∷◌, ◌++◌, map, Option, none, some, AreDistinct,
}
use freeradius_k8s_operator.Shared.Int.{ℤ, pos}
use freeradius_k8s_operator.Api.Cluster.{ServiceEndpointConfig, ServicesConfig}
use freeradius_k8s_operator.Api.Objects.{KubeTypes, RadiusCluster}
use freeradius_k8s_operator.Controller.Endpoints.{
  EndpointDef, split_endpoint, split_endpoints, unified_endpoint, endpoints_of, build_endpoints,
  stale_suffixes_of, stale_suffixes, deployment_suffix,
}

abbrev pub suffixes_of : List EndpointDef → List String
suffixes_of eps = map (λ e. e.suffix) eps

split-AreDistinct :
    (port : ℤ) (a b c : Option ServiceEndpointConfig)
    → AreDistinct (
        suffixes_of (
          split_endpoint "auth" "-freeradius-auth" (pos 1812) a
          ++ (split_endpoint "acct" "-freeradius-acct" (pos 1813) b
              ++ split_endpoint "coa" "-freeradius-coa" port c))
        ++ deployment_suffix ∷ [])
split-AreDistinct port none none none = (refl, tt)
split-AreDistinct port none none (some c) = (refl, (refl, tt))
split-AreDistinct port none (some b) none = (refl, (refl, tt))
split-AreDistinct port none (some b) (some c) = (refl, (refl, (refl, tt)))
split-AreDistinct port (some a) none none = (refl, (refl, tt))
split-AreDistinct port (some a) none (some c) = (refl, (refl, (refl, tt)))
split-AreDistinct port (some a) (some b) none = (refl, (refl, (refl, tt)))
split-AreDistinct port (some a) (some b) (some c) = (refl, (refl, (refl, (refl, tt))))

endpoints_of-AreDistinct :
    {K : KubeTypes} (cluster : RadiusCluster K) (services : Option ServicesConfig)
    → AreDistinct (suffixes_of (endpoints_of cluster services) ++ stale_suffixes_of services)
unfolding endpoints_of stale_suffixes_of split_endpoints unified_endpoint
endpoints_of-AreDistinct cluster none = (refl, (refl, (refl, (refl, tt))))
endpoints_of-AreDistinct cluster (some svcs) =
    split-AreDistinct _ svcs.auth svcs.accounting svcs.coa

-- The suffixes of a cluster's endpoints and those of the objects that its clean-up deletes are all
-- different: no two endpoints share an object, and the clean-up deletes no object of an endpoint.
pub build_endpoints-AreDistinct :
    {K : KubeTypes} (cluster : RadiusCluster K)
    → AreDistinct (suffixes_of (build_endpoints cluster) ++ stale_suffixes cluster)
unfolding build_endpoints stale_suffixes
build_endpoints-AreDistinct cluster = endpoints_of-AreDistinct cluster cluster.spec.services
