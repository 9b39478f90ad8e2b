-- ===== src/Controller/Secrets/Laws.antt =====
-- The collection as one loop over all mentions of a secret.
use freeradius_k8s_operator.Shared.{
  String, ◌≡◌, refl, sym, ap, ◌∙◌, Bool, true, false, List, [], ◌∷◌, ◌++◌, map, Option, none, some,
  if◌then◌else◌, ◌==◌, option_list, Bool-cases, inl, inr,
}
use freeradius_k8s_operator.Api.Modules
use freeradius_k8s_operator.Api.Objects.{KubeTypes, RadiusCluster, RadiusClient}
use freeradius_k8s_operator.Api.Cluster.{TlsConfig}
use freeradius_k8s_operator.Renderer.Types.{SecretRef}
use freeradius_k8s_operator.Controller.Secrets.{
  Collected, add, add_some, add_module, add_modules, add_clients, add_tls, collect_secret_refs,
}

abbrev pub is_some : Option String → Bool
is_some none = false
is_some (some x) = true

abbrev pub or_else : Option String → Option String → Option String
or_else none b = b
or_else (some x) b = some x

-- The key of the first reference with the name.
unfoldable pub key_of : String → List SecretRef → Option String
key_of n [] = none
key_of n (r ∷ rs) = if r.name == n then some r.key else key_of n rs

unfoldable pub first_key : String → List Modules.SecretRef → Option String
first_key n [] = none
first_key n (r ∷ rs) = if r.name == n then some r.key else first_key n rs

abbrev pub names : List SecretRef → List String
names = map (λ r. r.name)

-- The references that a module mentions.
unfoldable pub module_refs : Modules.ModuleConfig → List Modules.SecretRef
module_refs m =
    option_list (elim m.sql [ none ↦ none | some c ↦ some c.password_ref ])
    ++ (option_list (elim m.ldap [ none ↦ none | some c ↦ some c.password_ref ])
        ++ (option_list (elim m.rest [ none ↦ none | some c ↦ c.password_ref ])
            ++ option_list (elim m.redis [ none ↦ none | some c ↦ c.password_ref ])))

-- Those of the enabled modules.
unfoldable pub enabled_refs : List Modules.ModuleConfig → List Modules.SecretRef
enabled_refs [] = []
enabled_refs (m ∷ ms) = (if m.enabled then module_refs m else []) ++ enabled_refs ms

unfoldable pub client_refs : List RadiusClient → List Modules.SecretRef
client_refs = map (λ c. c.spec.secret_ref)

-- The round of `add` over a list of references.
unfoldable pub add_all : Collected → List Modules.SecretRef → Collected
add_all st [] = st
add_all st (r ∷ rs) = add_all (add st r) rs

add_all-append :
    (st : Collected) (xs ys : List Modules.SecretRef)
    → add_all st (xs ++ ys) ≡ add_all (add_all st xs) ys
unfolding add_all
add_all-append st [] ys = refl
add_all-append st (x ∷ xs) ys = add_all-append (add st x) xs ys

add_some-all :
    (st : Collected) (r : Option Modules.SecretRef) → add_some st r ≡ add_all st (option_list r)
unfolding add_some add_all
add_some-all st none = refl
add_some-all st (some r) = refl

add_module-all :
    (st : Collected) (m : Modules.ModuleConfig) → add_module st m ≡ add_all st (module_refs m)
unfolding add_module module_refs
add_module-all st m = rw (add_all-append, add_all-append, add_all-append) (simp add_some-all)

add_modules-all :
    (st : Collected) (ms : List Modules.ModuleConfig)
    → add_modules st ms ≡ add_all st (enabled_refs ms)
unfolding add_modules enabled_refs add_all
add_modules-all st [] = refl
add_modules-all st (m ∷ ms) = elim (Bool-cases m.enabled) [
  | inl e ↦ simp e (
      add_modules-all (add_module st m) ms
      ∙ (ap (λ s. add_all s (enabled_refs ms)) (add_module-all st m)
          ∙ sym (add_all-append st (module_refs m) (enabled_refs ms))))
  | inr e ↦ simp e (add_modules-all st ms)
]

add_clients-all :
    (st : Collected) (cs : List RadiusClient) → add_clients st cs ≡ add_all st (client_refs cs)
unfolding add_clients client_refs add_all
add_clients-all st [] = refl
add_clients-all st (c ∷ cs) = add_clients-all (add st c.spec.secret_ref) cs

-- The reference of the cluster's certificate, if TLS is on.
unfoldable pub tls_refs : Option TlsConfig → List Modules.SecretRef
tls_refs none = []
tls_refs (some tls) = if tls.enabled then tls.secret_ref ∷ [] else []

add_tls-all : (t : Option TlsConfig) (st : Collected) → add_tls t st ≡ add_all st (tls_refs t)
unfolding add_tls tls_refs add_all
add_tls-all none st = refl
add_tls-all (some tls) st = elim (Bool-cases tls.enabled) [ inl b ↦ simp b | inr b ↦ simp b ]

-- All mentions, in the order in which the code meets them.
unfoldable pub mentioned :
    {K : KubeTypes} → RadiusCluster K → List RadiusClient → List Modules.SecretRef
mentioned cluster clients =
    tls_refs cluster.spec.tls ++ (enabled_refs cluster.spec.modules ++ client_refs clients)

abbrev pub start : Collected
start = record { seen = []; refs = [] }

pub collect-all :
    {K : KubeTypes} (cluster : RadiusCluster K) (clients : List RadiusClient)
    → collect_secret_refs cluster clients ≡ (add_all start (mentioned cluster clients)).refs
unfolding collect_secret_refs mentioned
collect-all cluster clients =
    ap (λ (st : Collected). st.refs)
      (add_clients-all _ clients
        ∙ (ap (λ s. add_all s (client_refs clients)) (add_modules-all _ cluster.spec.modules)
            ∙ (ap
                  (λ s.
                    add_all (add_all s (enabled_refs cluster.spec.modules)) (client_refs clients))
                  (add_tls-all cluster.spec.tls start)
                ∙ sym (
                    add_all-append start (tls_refs cluster.spec.tls) _
                    ∙ add_all-append _ (enabled_refs cluster.spec.modules) _))))
