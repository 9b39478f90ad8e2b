-- ===== src/Controller/Context/Restored.antt =====
-- What the renderer receives restores the modules of a cluster and the specifications of clients and
-- policies, the metadata of a client and the references to the cluster apart.
use freeradius_k8s_operator.Shared.{String, ◌≡◌, refl, ap, List, [], ◌∷◌, map}
use freeradius_k8s_operator.Api.Resources
use freeradius_k8s_operator.Api.Objects.{KubeTypes, RadiusCluster, RadiusClient, RadiusPolicy}
use freeradius_k8s_operator.Renderer.Types.{ClientSpec, PolicySpec}
use freeradius_k8s_operator.Controller.Context.{
  copy, module_config, client_spec, policy_match, policy_action, policy_spec, build_render_context,
}
use freeradius_k8s_operator.Controller.Context.Originals.{
  original_ref, original_module, original_match, original_action, copy-copy, map-map, ref_back,
  module_back, match_back, action_back,
}

-- The specification of a client, from the renderer's and the two fields that the renderer does not get.
pub original_client : ClientSpec → String → List (String × String) → Resources.RadiusClientSpec
original_client r cluster_ref metadata = record {
  cluster_ref = cluster_ref;
  ip = r.ip;
  secret_ref = original_ref r.secret_ref;
  nas_type = r.nas_type;
  metadata = metadata;
  raw_config = r.raw_config;
}

-- The specification of a policy, from the renderer's and the reference to the cluster.
pub original_policy : PolicySpec → String → Resources.RadiusPolicySpec
original_policy r cluster_ref = record {
  cluster_ref = cluster_ref;
  stage = r.stage;
  priority = r.priority;
  match = copy original_match r.match;
  actions = map original_action r.actions;
  raw_config = r.raw_config;
}

-- The renderer has the client's name and, its metadata and its cluster apart, its specification.
pub RestoresClient : RadiusClient → ClientSpec → Type 0
RestoresClient c r =
    (r.name ≡ c.meta.name) × (original_client r c.spec.cluster_ref c.spec.metadata ≡ c.spec)

-- The renderer has the policy's name and, its cluster apart, its specification.
pub RestoresPolicy : RadiusPolicy → PolicySpec → Type 0
RestoresPolicy p r = (r.name ≡ p.meta.name) × (original_policy r p.spec.cluster_ref ≡ p.spec)

client_restored : (c : RadiusClient) → RestoresClient c (client_spec c)
unfolding RestoresClient original_client client_spec
client_restored c = (refl, λ i. record c.spec { secret_ref = ref_back c.spec.secret_ref i })

policy_restored : (p : RadiusPolicy) → RestoresPolicy p (policy_spec p)
unfolding RestoresPolicy original_policy policy_spec
policy_restored p = (
  refl,
  λ i. record p.spec {
    match = copy-copy policy_match original_match match_back p.spec.match i;
    actions = map-map policy_action original_action action_back p.spec.actions i;
  },
)

-- The client with another metadata.
abbrev pub with_metadata : List (String × String) → RadiusClient → RadiusClient
with_metadata metadata c = record c { spec = record c.spec { metadata = metadata } }

without_metadata :
    (metadata : List (String × String)) (cs : List RadiusClient)
    → map client_spec (map (with_metadata metadata) cs) ≡ map client_spec cs
unfolding client_spec
without_metadata metadata [] = refl
without_metadata metadata (c ∷ cs) = ap (◌∷◌ (client_spec c)) (without_metadata metadata cs)

-- One list is the other, element by element.
pub data Pairwise {A B : Type 0} (R : A → B → Type 0) : List A → List B → Type 0 where
  none_left : Pairwise R [] []
  pair :
      {a : A} {b : B} {as' : List A} {bs : List B}
      → R a b
      → Pairwise R as' bs
      → Pairwise R (a ∷ as') (b ∷ bs)

map-Pairwise :
    {A B : Type 0} (R : A → B → Type 0) (f : A → B)
    → ((a : A) → R a (f a))
    → (xs : List A) → Pairwise R xs (map f xs)
map-Pairwise R f h [] = none_left
map-Pairwise R f h (x ∷ xs) = pair (h x) (map-Pairwise R f h xs)

-- The renderer's input restores the cluster's modules, and, in the same order, the name and the
-- specification of each client, its metadata and its reference to the cluster apart, and of each
-- policy, its reference to the cluster apart; and it does not depend on the metadata of the clients.
pub build_render_context-restored :
    {K : KubeTypes} (cluster : RadiusCluster K) (clients : List RadiusClient)
    (policies : List RadiusPolicy)
    → (map original_module (build_render_context cluster clients policies).cluster.modules
        ≡ cluster.spec.modules)
      × Pairwise RestoresClient clients (build_render_context cluster clients policies).clients
      × Pairwise RestoresPolicy policies (build_render_context cluster clients policies).policies
      × ((metadata : List (String × String))
          → build_render_context cluster (map (with_metadata metadata) clients) policies
            ≡ build_render_context cluster clients policies)
unfolding build_render_context
build_render_context-restored cluster clients policies = (
  map-map module_config original_module module_back cluster.spec.modules,
  map-Pairwise RestoresClient client_spec client_restored clients,
  map-Pairwise RestoresPolicy policy_spec policy_restored policies,
  λ metadata i. record (build_render_context cluster clients policies) {
    clients = without_metadata metadata clients i;
  },
)
