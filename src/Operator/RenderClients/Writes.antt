-- ===== src/Operator/RenderClients/Writes.antt =====
-- The file that the command writes, and that it agrees with the operator's own rendering.
use freeradius_k8s_operator.Shared.{
  ℕ, ◌<◌, String, ◌≡◌, refl, sym, ap, ◌∙◌, some, List, [], ◌∷◌, map, ◌==◌, ok, All, Bool-cases, inl,
  inr, length,
}
use freeradius_k8s_operator.Api.Objects.{KubeTypes, RadiusCluster, RadiusClient, RadiusPolicy}
use freeradius_k8s_operator.Renderer.Clients.{render_clients}
use freeradius_k8s_operator.Renderer.Files.{ConfigFiles, lookup}
use freeradius_k8s_operator.Renderer.Sites.{SliceSort}
use freeradius_k8s_operator.Renderer.Render.{render}
use freeradius_k8s_operator.Renderer.Render.Laws.{render-fixed_files}
use freeradius_k8s_operator.Controller.Secrets.{matching_clients}
use freeradius_k8s_operator.Controller.Context.{client_spec, secret_ref, build_render_context}
use freeradius_k8s_operator.Operator.Refs.Expands.{
  IsPlain, filled_clients, resolve_file_refs-render_clients,
}
use freeradius_k8s_operator.Operator.RenderClients.{
  CommandIo, reader_spec, selected, written, with_content, with_items, render_clients_to_file,
}

-- No client of the cluster has a raw text.
abbrev pub AreGenerated : String → List RadiusClient → Type 0
AreGenerated name items = All (λ c. c.spec.raw_config ≡ "") (matching_clients name items)

same_spec : (c : RadiusClient) → c.spec.raw_config ≡ "" → reader_spec c ≡ client_spec c
unfolding reader_spec client_spec secret_ref
same_spec c h = simp h refl

selected-map :
    (name : String) (items : List RadiusClient)
    → AreGenerated name items
    → selected name items ≡ map client_spec (matching_clients name items)
unfolding selected matching_clients
selected-map name [] h = refl
selected-map name (c ∷ cs) h = elim (Bool-cases (c.spec.cluster_ref == name)) [
  | inl e ↦ let (p, rest) = rw e at h in rw (e, same_spec c p, selected-map name cs rest) refl
  | inr e ↦ rw (e, selected-map name cs (rw e at h)) refl
]

-- When no client of the cluster has a raw text, then the text that the command renders, before it
-- puts the secrets in, is the file clients.conf of every successful rendering by the operator of the
-- same cluster with the matching ones of the listed clients.
pub selected-agrees :
    {K : KubeTypes} (sorting : SliceSort) (cluster : RadiusCluster K) (items : List RadiusClient)
    (policies : List RadiusPolicy) {files : ConfigFiles}
    → AreGenerated cluster.meta.name items
    → render sorting
        (build_render_context cluster (matching_clients cluster.meta.name items) policies)
      ≡ ok files
    → lookup "clients.conf" files ≡ some (render_clients (selected cluster.meta.name items))
unfolding build_render_context
selected-agrees sorting cluster items policies h k =
    (render-fixed_files sorting _ k).0
    ∙ ap (λ cs. some (render_clients cs)) (sym (selected-map cluster.meta.name items h))

module _ (io : CommandIo) where
  open io use {World, list_clients, read_file, write_file}

  -- When the clients are listed, no text of those of the cluster and of their secrets' files has a
  -- dollar sign, no name of a secret a closing brace, every file can be read, and the fuel is more
  -- than the number of those clients, then the command ends after one write, of the rendered clients
  -- with the trimmed text of each secret's file in place of its reference, and fails exactly as that
  -- write does.
  pub render_clients_to_file-Writes :
      (fuel : ℕ) (namespace name path : String) (w : World) (items : List RadiusClient)
      (h : All (IsPlain (read_file w)) (selected name items))
      → list_clients namespace w ≡ ok items
      → length (selected name items) < fuel
      → render_clients_to_file io fuel namespace name path w
        ≡ some (
            written io path
              (write_file path (filled_clients (read_file w) (selected name items) h) w))
  unfolding render_clients_to_file with_items with_content
  render_clients_to_file-Writes fuel namespace name path w items h listed k =
      rw
        (
          listed,
          with_items,
          resolve_file_refs-render_clients (read_file w) (selected name items) h fuel k,
          with_content,
        )
        refl
