-- ===== src/Renderer/Radiusd.antt =====
-- internal/renderer/radiusd.go, with the template
-- internal/renderer/templates/core/radiusd.conf.tmpl.
pub mod Ports
pub mod Defaults
use freeradius_k8s_operator.Shared.{
  ℕ, String, Bool, true, false, ◌||◌, not, List, [], ◌∷◌, ◌++◌, if◌then◌else◌, ◌==◌, is_empty,
  concat, unlines,
}
use freeradius_k8s_operator.Shared.Int.{ℤ, pos, is_zero, format_int}
use freeradius_k8s_operator.Renderer.Types.{
  RadiusdLogConfig, RadiusdSecurityConfig, RadiusdThreadPool, RadiusdConfig, ClusterSpec,
}
use freeradius_k8s_operator.Renderer.Templates.{yesno}

pub record RadiusdContext : Type 0 where
  pub max_request_time : ℤ
  pub max_requests : ℤ
  pub log : RadiusdLogConfig
  pub security : RadiusdSecurityConfig
  pub thread_pool : RadiusdThreadPool
  pub coa_enabled : Bool
  pub coa_port : ℤ

bool_default : Bool → Bool → Bool
bool_default v def = v || def

int32_default : ℤ → ℤ → ℤ
int32_default v def = if not (is_zero v) then v else def

string_default : String → String → String
string_default v def = if not (is_empty v) then v else def

pub build_radiusd_context : ClusterSpec → RadiusdContext
unfolding bool_default int32_default string_default
build_radiusd_context cluster = record {
  max_request_time = int32_default r.max_request_time (pos 30);
  max_requests = int32_default r.max_requests (pos 16384);
  log = record {
    destination = string_default r.log.destination "stdout";
    auth = bool_default r.log.auth true;
    auth_badpass = r.log.auth_badpass;
    auth_goodpass = r.log.auth_goodpass;
  };
  security = record {
    max_attributes = int32_default r.security.max_attributes (pos 200);
    reject_delay = int32_default r.security.reject_delay (pos 1);
  };
  thread_pool = record {
    start_servers = int32_default r.thread_pool.start_servers (pos 5);
    max_servers = int32_default r.thread_pool.max_servers (pos 32);
    min_spare_servers = int32_default r.thread_pool.min_spare_servers (pos 3);
    max_spare_servers = int32_default r.thread_pool.max_spare_servers (pos 10);
    max_requests_per_server = r.thread_pool.max_requests_per_server;
  };
  coa_enabled = cluster.coa_enabled;
  coa_port = cluster.coa_port;
}
  where
    r : RadiusdConfig
    r = cluster.radiusd

radiusd_head : List String
radiusd_head =
    "# radiusd.conf — generated by freeradius-operator" ∷ "# DO NOT EDIT MANUALLY" ∷ ""
    ∷ "name = freeradius" ∷ "" ∷ "prefix = /usr" ∷ "exec_prefix = /usr" ∷ "sysconfdir = /etc"
    ∷ "localstatedir = /var" ∷ "sbindir = ${exec_prefix}/sbin" ∷ "logdir = /var/log/freeradius"
    ∷ "raddbdir = /etc/freeradius" ∷ "radacctdir = ${logdir}/radacct" ∷ "confdir = ${raddbdir}"
    ∷ "modconfdir = ${confdir}/mods-config" ∷ "certdir = ${confdir}/certs"
    ∷ "cadir = ${confdir}/certs" ∷ "run_dir = ${localstatedir}/run/${name}" ∷ "db_dir = ${raddbdir}"
    ∷ "libdir = /usr/lib/freeradius" ∷ "pidfile = ${run_dir}/${name}.pid"
    ∷ "checkrad = ${sbindir}/checkrad" ∷ "" ∷ []

radiusd_limits : RadiusdContext → List String
radiusd_limits ctx =
    concat ("max_request_time = " ∷ format_int ctx.max_request_time ∷ [])
    ∷ "cleanup_delay = 5"
    ∷ concat ("max_requests = " ∷ format_int ctx.max_requests ∷ [])
    ∷ ""
    ∷ "status_server = yes"
    ∷ ""
    ∷ []

pub radiusd_settings : RadiusdContext → List String
radiusd_settings ctx =
    "log {"
    ∷ concat ("    destination = " ∷ ctx.log.destination ∷ [])
    ∷ "    colourise = no"
    ∷ "    stripped_names = no"
    ∷ concat ("    auth = " ∷ yesno ctx.log.auth ∷ [])
    ∷ concat ("    auth_badpass = " ∷ yesno ctx.log.auth_badpass ∷ [])
    ∷ concat ("    auth_goodpass = " ∷ yesno ctx.log.auth_goodpass ∷ [])
    ∷ "}"
    ∷ ""
    ∷ "security {"
    ∷ concat ("    max_attributes = " ∷ format_int ctx.security.max_attributes ∷ [])
    ∷ concat ("    reject_delay = " ∷ format_int ctx.security.reject_delay ∷ [])
    ∷ "    status_server = yes"
    ∷ "}"
    ∷ ""
    ∷ "thread pool {"
    ∷ concat ("    start_servers = " ∷ format_int ctx.thread_pool.start_servers ∷ [])
    ∷ concat ("    max_servers = " ∷ format_int ctx.thread_pool.max_servers ∷ [])
    ∷ concat ("    min_spare_servers = " ∷ format_int ctx.thread_pool.min_spare_servers ∷ [])
    ∷ concat ("    max_spare_servers = " ∷ format_int ctx.thread_pool.max_spare_servers ∷ [])
    ∷ concat
        ("    max_requests_per_server = " ∷ format_int ctx.thread_pool.max_requests_per_server ∷ [])
    ∷ "    auto_limit_acct = no"
    ∷ "}"
    ∷ ""
    ∷ []

radiusd_foot : List String
radiusd_foot =
    "$INCLUDE proxy.conf" ∷ "$INCLUDE clients.conf" ∷ "" ∷ "modules {"
    ∷ "    $INCLUDE mods-enabled/" ∷ "}" ∷ "" ∷ "instantiate {" ∷ "}" ∷ "" ∷ "policy {"
    ∷ "    $INCLUDE policy.d/" ∷ "}" ∷ "" ∷ "$INCLUDE sites-enabled/" ∷ "" ∷ "listen {"
    ∷ "    type = auth" ∷ "    ipaddr = *" ∷ "    port = 1812" ∷ "}" ∷ "" ∷ "listen {"
    ∷ "    type = auth" ∷ "    ipv6addr = ::" ∷ "    port = 1812" ∷ "}" ∷ "" ∷ "listen {"
    ∷ "    type = acct" ∷ "    ipaddr = *" ∷ "    port = 1813" ∷ "}" ∷ "" ∷ "listen {"
    ∷ "    type = acct" ∷ "    ipv6addr = ::" ∷ "    port = 1813" ∷ "}" ∷ []

pub radiusd_coa : RadiusdContext → List String
radiusd_coa ctx =
    ""
    ∷ "listen {"
    ∷ "    type = coa"
    ∷ "    ipaddr = *"
    ∷ concat ("    port = " ∷ format_int ctx.coa_port ∷ [])
    ∷ "}"
    ∷ ""
    ∷ "listen {"
    ∷ "    type = coa"
    ∷ "    ipv6addr = ::"
    ∷ concat ("    port = " ∷ format_int ctx.coa_port ∷ [])
    ∷ "}"
    ∷ []

-- core/radiusd.conf.tmpl
pub radiusd_lines : RadiusdContext → List String
unfolding radiusd_head radiusd_limits radiusd_settings radiusd_foot radiusd_coa
radiusd_lines ctx =
    radiusd_head
    ++ (radiusd_limits ctx
        ++ (radiusd_settings ctx
            ++ (radiusd_foot ++ (if ctx.coa_enabled then radiusd_coa ctx else []))))

-- Executing the template on a value of its own type cannot fail.
pub render_radiusd : ClusterSpec → String
unfolding radiusd_lines build_radiusd_context
render_radiusd cluster =
    if not (is_empty cluster.radiusd.raw_config)
    then cluster.radiusd.raw_config
    else unlines (radiusd_lines (build_radiusd_context cluster))
