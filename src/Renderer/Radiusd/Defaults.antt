-- ===== src/Renderer/Radiusd/Defaults.antt =====
-- The values that stand in radiusd.conf for settings that are not given.
use freeradius_k8s_operator.Shared.{
  zero, suc, ap, String, ◌≡◌, refl, ◌≢◌, Bool, true, false, Bool-cases, inl, inr, is_empty, eq_iff,
  arith,
}
use freeradius_k8s_operator.Shared.Int.{ℤ, pos, negsuc, pos_part, neg_part}
use freeradius_k8s_operator.Renderer.Types.{RadiusdConfig, ClusterSpec}
use freeradius_k8s_operator.Renderer.Radiusd.{
  RadiusdContext, bool_default, int32_default, string_default, build_radiusd_context,
}

-- `r` is `v`, except that `def` stands for the value that is not set.
abbrev pub IsDefaulted : {A : Type 0} → A → A → A → A → Type 0
IsDefaulted unset v def r = (v ≡ unset → r ≡ def) × (v ≢ unset → r ≡ v)

number-IsDefaulted : (v def : ℤ) → IsDefaulted (pos 0) v def (int32_default v def)
unfolding int32_default
number-IsDefaulted (pos zero) def = (λ e. refl, λ n. absurd (n refl))
number-IsDefaulted (pos (suc n)) def =
    (λ e. absurd (omega (arith, ap pos_part e)), λ k. ground arith)
number-IsDefaulted (negsuc n) def = (λ e. absurd (omega (arith, ap neg_part e)), λ k. refl)

text-IsDefaulted : (v def : String) → IsDefaulted "" v def (string_default v def)
unfolding string_default
text-IsDefaulted v def = elim (Bool-cases (is_empty v)) [
  | inl e ↦ (λ h. rw e refl, λ n. absurd (n ((eq_iff v "").0 e)))
  | inr e ↦ (λ h. absurd (cc ((eq_iff v "").1 h)), λ n. rw e refl)
]

-- What a cluster's settings become.
pub record AreDefaulted (g : RadiusdConfig) (r : RadiusdContext) : Type 0 where
  pub max_request_time : IsDefaulted (pos 0) g.max_request_time (pos 30) r.max_request_time
  pub max_requests : IsDefaulted (pos 0) g.max_requests (pos 16384) r.max_requests
  pub destination : IsDefaulted "" g.log.destination "stdout" r.log.destination
  pub auth : r.log.auth ≡ true
  pub auth_badpass : r.log.auth_badpass ≡ g.log.auth_badpass
  pub auth_goodpass : r.log.auth_goodpass ≡ g.log.auth_goodpass
  pub max_attributes :
      IsDefaulted (pos 0) g.security.max_attributes (pos 200) r.security.max_attributes
  pub reject_delay : IsDefaulted (pos 0) g.security.reject_delay (pos 1) r.security.reject_delay
  pub start_servers :
      IsDefaulted (pos 0) g.thread_pool.start_servers (pos 5) r.thread_pool.start_servers
  pub max_servers : IsDefaulted (pos 0) g.thread_pool.max_servers (pos 32) r.thread_pool.max_servers
  pub min_spare_servers :
      IsDefaulted (pos 0) g.thread_pool.min_spare_servers (pos 3) r.thread_pool.min_spare_servers
  pub max_spare_servers :
      IsDefaulted (pos 0) g.thread_pool.max_spare_servers (pos 10) r.thread_pool.max_spare_servers
  pub max_requests_per_server :
      r.thread_pool.max_requests_per_server ≡ g.thread_pool.max_requests_per_server

bool_default-true : (b : Bool) → bool_default b true ≡ true
unfolding bool_default
bool_default-true true = refl
bool_default-true false = refl

-- Every setting that is given is kept and every one that is not gets its default, except that the
-- logging of authentications is on whatever the cluster says.
pub build_radiusd_context-AreDefaulted :
    (c : ClusterSpec) → AreDefaulted c.radiusd (build_radiusd_context c)
unfolding build_radiusd_context
build_radiusd_context-AreDefaulted c = record {
  max_request_time = number-IsDefaulted _ _;
  max_requests = number-IsDefaulted _ _;
  destination = text-IsDefaulted _ _;
  auth = bool_default-true c.radiusd.log.auth;
  auth_badpass = refl;
  auth_goodpass = refl;
  max_attributes = number-IsDefaulted _ _;
  reject_delay = number-IsDefaulted _ _;
  start_servers = number-IsDefaulted _ _;
  max_servers = number-IsDefaulted _ _;
  min_spare_servers = number-IsDefaulted _ _;
  max_spare_servers = number-IsDefaulted _ _;
  max_requests_per_server = refl;
}
