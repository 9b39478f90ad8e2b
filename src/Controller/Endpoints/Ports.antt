-- ===== src/Controller/Endpoints/Ports.antt =====
-- The ports of the endpoints, and those on which the rendered server listens.
use freeradius_k8s_operator.Shared.{
  String, ◌≡◌, refl, true, List, Option, none, some, All, All-append, Bool-cases, inl, inr, arith,
  if◌then◌else◌,
}
use freeradius_k8s_operator.Shared.Int.{ℤ, pos, negsuc, ◌≤ℤ◌, int_lt, is_zero}
use freeradius_k8s_operator.Api.Cluster.{CoaConfig, ServiceEndpointConfig, ServicesConfig}
use freeradius_k8s_operator.Api.Objects.{KubeTypes, RadiusClient, RadiusPolicy, RadiusCluster}
use freeradius_k8s_operator.Renderer.Types.{ClusterSpec}
use freeradius_k8s_operator.Renderer.Radiusd.Ports.{
  ListensOn, listens_auth, listens_acct, listens_coa,
}
use freeradius_k8s_operator.Controller.Context.{coa_enabled, coa_port, build_render_context}
use freeradius_k8s_operator.Controller.Endpoints.{
  ServicePort, EndpointDef, endpoint_coa_port, split_endpoint, split_endpoints, unified_endpoint,
  endpoints_of, build_endpoints,
}

-- With CoA on and a port that is not negative, the two functions choose the same port.
coa_port-agrees :
    (o : Option CoaConfig)
    → coa_enabled o ≡ true
    → ((c : CoaConfig) → o ≡ some c → pos 0 ≤ℤ c.port)
    → endpoint_coa_port o ≡ coa_port o
unfolding coa_enabled coa_port endpoint_coa_port
coa_port-agrees none on h = cc
coa_port-agrees (some c) on h = simp on (agree c.port (h c refl))
  where
    agree :
        (p : ℤ)
        → pos 0 ≤ℤ p
        → (if int_lt (pos 0) p then p else pos 3799) ≡ (if is_zero p then pos 3799 else p)
    agree (pos n) k = ground arith
    agree (negsuc n) k = absurd (omega (arith, k))

module _ {K : KubeTypes} (cluster : RadiusCluster K) (clients : List RadiusClient)
    (policies : List RadiusPolicy) where
  abbrev pub rendered : ClusterSpec
  rendered = (build_render_context cluster clients policies).cluster

  -- The ports of an endpoint lead to ports that lines of the generated radiusd.conf set.
  abbrev pub IsServed : EndpointDef → Type 0
  IsServed e = All (λ (p : ServicePort). ListensOn rendered p.target_port) e.ports

  module _ (nonneg : (c : CoaConfig) → cluster.spec.coa ≡ some c → pos 0 ≤ℤ c.port) where
    coa_served :
        coa_enabled cluster.spec.coa ≡ true
        → ListensOn rendered (endpoint_coa_port cluster.spec.coa)
    unfolding build_render_context
    coa_served on = listens_coa rendered on (coa_port-agrees cluster.spec.coa on nonneg)

    unified-IsServed : IsServed (unified_endpoint cluster)
    unfolding unified_endpoint
    unified-IsServed = elim (Bool-cases (coa_enabled cluster.spec.coa)) [
      | inl on ↦ simp on (listens_auth rendered, (listens_acct rendered, (coa_served on, tt)))
      | inr off ↦ simp off (listens_auth rendered, (listens_acct rendered, tt))
    ]

    one-IsServed :
        (role suffix : String) (port : ℤ) (e : Option ServiceEndpointConfig)
        → ((s : ServiceEndpointConfig) → e ≡ some s → ListensOn rendered port)
        → All IsServed (split_endpoint role suffix port e)
    one-IsServed role suffix port none h = tt
    one-IsServed role suffix port (some s) h = ((h s refl, tt), tt)

    endpoints_of-IsServed :
        (services : Option ServicesConfig)
        → ((svcs : ServicesConfig) (e : ServiceEndpointConfig)
            → services ≡ some svcs
            → svcs.coa ≡ some e
            → coa_enabled cluster.spec.coa ≡ true)
        → All IsServed (endpoints_of cluster services)
    unfolding endpoints_of split_endpoints
    endpoints_of-IsServed none on = (unified-IsServed, tt)
    endpoints_of-IsServed (some svcs) on =
        All-append IsServed _ _ (one-IsServed _ _ _ svcs.auth (λ s h. listens_auth rendered)) (
          All-append IsServed _ _
            (one-IsServed _ _ _ svcs.accounting (λ s h. listens_acct rendered))
            (one-IsServed _ _ _ svcs.coa (λ s h. coa_served (on svcs s refl h))))

    -- Unless the CoA port is negative, and unless the cluster has an endpoint for CoA while CoA is
    -- off, each port of each endpoint leads to a port that a line of the generated radiusd.conf sets.
    pub build_endpoints-IsServed :
        ((svcs : ServicesConfig) (e : ServiceEndpointConfig)
          → cluster.spec.services ≡ some svcs
          → svcs.coa ≡ some e
          → coa_enabled cluster.spec.coa ≡ true)
        → All IsServed (build_endpoints cluster)
    unfolding build_endpoints
    build_endpoints-IsServed on = endpoints_of-IsServed cluster.spec.services on
