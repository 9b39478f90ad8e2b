-- ===== src/Controller/Secrets.antt =====
-- `collectSecretRefs` of internal/controller/radiuscluster_controller.go, and the lists of matching
-- resources.
pub mod Laws
pub mod Once
use freeradius_k8s_operator.Shared.{
  String, Bool, ◌||◌, not, List, [], ◌∷◌, ◌++◌, Option, none, some, if◌then◌else◌, ◌==◌, is_empty,
  is_in, keep,
}
use freeradius_k8s_operator.Api.Modules
use freeradius_k8s_operator.Api.Objects.{KubeTypes, RadiusCluster, RadiusClient, RadiusPolicy}
use freeradius_k8s_operator.Api.Cluster.{TlsConfig}
use freeradius_k8s_operator.Renderer.Types.{SecretRef}

-- The loops of `listMatchingClients` and `listMatchingPolicies`, on the listed items.
unfoldable pub matching_clients : String → List RadiusClient → List RadiusClient
matching_clients cluster_name items = keep (λ c. c.spec.cluster_ref == cluster_name) items

unfoldable pub matching_policies : String → List RadiusPolicy → List RadiusPolicy
matching_policies cluster_name items = keep (λ p. p.spec.cluster_ref == cluster_name) items

-- The variables `seen` and `refs` of `collectSecretRefs`.
pub record Collected : Type 0 where
  pub seen : List String
  pub refs : List SecretRef

-- The closure `add`.
unfoldable pub add : Collected → Modules.SecretRef → Collected
add st r = if is_empty r.name || is_in r.name st.seen then st else record {
  seen = r.name ∷ st.seen;
  refs = st.refs ++ record { name = r.name; key = r.key } ∷ [];
}

unfoldable pub add_some : Collected → Option Modules.SecretRef → Collected
add_some st none = st
add_some st (some r) = add st r

-- The body of the loop over the modules, for an enabled one.
unfoldable pub add_module : Collected → Modules.ModuleConfig → Collected
add_module st m =
    let sql = add_some st (elim m.sql [ none ↦ none | some c ↦ some c.password_ref ]) in
    let ldap = add_some sql (elim m.ldap [ none ↦ none | some c ↦ some c.password_ref ]) in
    let rest = add_some ldap (elim m.rest [ none ↦ none | some c ↦ c.password_ref ]) in
    add_some rest (elim m.redis [ none ↦ none | some c ↦ c.password_ref ])

add_modules : Collected → List Modules.ModuleConfig → Collected
add_modules st [] = st
add_modules st (m ∷ ms) = add_modules (if not m.enabled then st else add_module st m) ms

add_clients : Collected → List RadiusClient → Collected
add_clients st [] = st
add_clients st (c ∷ cs) = add_clients (add st c.spec.secret_ref) cs

-- The certificate's secret, if TLS is on.
add_tls : Option TlsConfig → Collected → Collected
add_tls none st = st
add_tls (some tls) st = if tls.enabled then add st tls.secret_ref else st

unfoldable pub collect_secret_refs :
    {K : KubeTypes} → RadiusCluster K → List RadiusClient → List SecretRef
unfolding add_tls add_clients add_modules add_module add_some
collect_secret_refs cluster clients =
    let start = add_tls cluster.spec.tls (record { seen = []; refs = [] }) in
    (add_clients (add_modules start cluster.spec.modules) clients).refs
