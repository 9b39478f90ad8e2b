-- ===== src/Operator/RenderClients.antt =====
-- `renderClientsToFile` of cmd/operator/render_clients.go and `runRenderClients` of
-- cmd/operator/main.go. Messages to the log and to the standard error are left out.
pub mod Writes
use freeradius_k8s_operator.Shared.{
  ℕ, String, Bool, not, ◌||◌, Option, none, some, List, [], ◌∷◌, if◌then◌else◌, ◌==◌, is_empty, ok,
  err, Result, Check, map_err,
}
use freeradius_k8s_operator.Api.Objects.{RadiusClient}
use freeradius_k8s_operator.Kube.{KubeError}
use freeradius_k8s_operator.Renderer.Types.{ClientSpec}
use freeradius_k8s_operator.Renderer.Clients.{render_clients}
use freeradius_k8s_operator.Operator.Refs.{resolve_file_refs}

-- What the command calls: `List` of the Kubernetes client, `os.ReadFile` and `os.WriteFile`, on the
-- state of all that they read and write.
pub record CommandIo : Type 1 where
  pub World : Type 0
  pub list_clients : String → World → Result KubeError (List RadiusClient)
  pub read_file : World → String → Option String
  pub write_file : String → String → World → World × Check String

pub data CommandError : Type 0 where
  listing_clients : KubeError → CommandError
  writing : String → String → CommandError

-- The body of the first loop, for a client of the cluster.
unfoldable pub reader_spec : RadiusClient → ClientSpec
reader_spec c = record {
  name = c.meta.name;
  ip = c.spec.ip;
  secret_ref = record { name = c.spec.secret_ref.name; key = c.spec.secret_ref.key };
  nas_type = c.spec.nas_type;
  raw_config = "";
}

-- The first loop.
unfoldable pub selected : String → List RadiusClient → List ClientSpec
unfolding reader_spec
selected cluster_name [] = []
selected cluster_name (c ∷ cs) =
    let rest = selected cluster_name cs in
    if not (c.spec.cluster_ref == cluster_name) then rest else reader_spec c ∷ rest

module _ (io : CommandIo) where
  open io use {World, list_clients, read_file, write_file}

  -- The last step, with the error that names the file.
  unfoldable pub written : String → World × Check String → World × Check CommandError
  written path (w, r) = (w, map_err (writing path) r)

  unfoldable pub with_content : String → World → Option String → Option (World × Check CommandError)
  unfolding written
  with_content path w none = none
  with_content path w (some content) = some (written path (write_file path content w))

  -- What follows the list, none when the fuel of the loop is used up.
  unfoldable pub with_items :
      ℕ
      → String
      → String
      → World
      → Result KubeError (List RadiusClient)
      → Option (World × Check CommandError)
  unfolding with_content selected
  with_items fuel cluster_name path w (err e) = some (w, err (listing_clients e))
  with_items fuel cluster_name path w (ok items) =
      with_content path w
        (resolve_file_refs (read_file w) fuel (render_clients (selected cluster_name items)))

  unfoldable pub render_clients_to_file :
      ℕ → String → String → String → World → Option (World × Check CommandError)
  unfolding with_items
  render_clients_to_file fuel namespace cluster_name path w =
      with_items fuel cluster_name path w (list_clients namespace w)

  exit_code : Check CommandError → ℕ
  exit_code (ok done) = 0
  exit_code (err e) = 1

  -- The exit code of the command that rendered.
  exited : Option (World × Check CommandError) → Option (World × ℕ)
  unfolding exit_code
  exited none = none
  exited (some (w, r)) = some (w, exit_code r)

  connected : Check KubeError → ℕ → String → String → String → World → Option (World × ℕ)
  unfolding exited
  connected (err e) fuel cluster_name namespace path w = some (w, 1)
  connected (ok client) fuel cluster_name namespace path w =
      exited (render_clients_to_file fuel namespace cluster_name path w)

  -- The state and the exit code at the end of the mode `render-clients`. The first argument is the
  -- answer to the request for a Kubernetes client.
  unfoldable pub run_render_clients :
      Check KubeError → ℕ → String → String → String → World → Option (World × ℕ)
  unfolding connected exited exit_code
  run_render_clients client fuel cluster_name namespace path w =
      let run = connected client fuel cluster_name namespace path w in
      if is_empty cluster_name || is_empty namespace then some (w, 1) else run
