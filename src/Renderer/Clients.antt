-- ===== src/Renderer/Clients.antt =====
-- internal/renderer/clients.go, with the template internal/renderer/templates/core/clients.conf.tmpl.
pub mod Reader
pub mod RoundTrip
use freeradius_k8s_operator.Shared.{
  String, List, [], ◌∷◌, ◌++◌, not, if◌then◌else◌, ◌==◌, is_empty, concat, unlines,
}
use freeradius_k8s_operator.Renderer.Types.{ClientSpec}
use freeradius_k8s_operator.Renderer.Templates.{ipaddr_directive}

unfoldable pub clients_head : List String
clients_head =
    "# clients.conf — generated by freeradius-operator" ∷ "# DO NOT EDIT MANUALLY" ∷ ""
    ∷ "client localhost {" ∷ "    ipaddr = 127.0.0.1" ∷ "    secret = testing123"
    ∷ "    nastype = other" ∷ "}" ∷ "" ∷ "client localhost_v6 {" ∷ "    ipv6addr = ::1"
    ∷ "    secret = testing123" ∷ "    nastype = other" ∷ "}" ∷ "" ∷ []

-- The block of one client, as the template prints it when there is no raw text.
unfoldable pub client_block : ClientSpec → List String
client_block c =
    concat ("client " ∷ c.name ∷ " {" ∷ [])
    ∷ concat ("    " ∷ ipaddr_directive c.ip ∷ " = " ∷ c.ip ∷ [])
    ∷ concat (
        "    secret = ${file:/etc/freeradius/secrets/" ∷ c.secret_ref.name ∷ "/" ∷ c.secret_ref.key
        ∷ "}" ∷ [])
    ∷ concat ("    nastype = " ∷ c.nas_type ∷ [])
    ∷ "}"
    ∷ []

unfoldable pub client_lines : ClientSpec → List String
unfolding client_block
client_lines c =
    (if not (is_empty c.raw_config) then c.raw_config ∷ [] else client_block c) ++ "" ∷ []

unfoldable pub all_client_lines : List ClientSpec → List String
all_client_lines [] = []
all_client_lines (c ∷ cs) = client_lines c ++ all_client_lines cs

-- The template's own last line break stands after the last client.
unfoldable pub render_clients : List ClientSpec → String
render_clients clients = unlines (clients_head ++ (all_client_lines clients ++ "" ∷ []))
