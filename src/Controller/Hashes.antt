-- ===== src/Controller/Hashes.antt =====
-- `computeConfigHash` of internal/controller/radiuscluster_controller.go. The hash function, SHA-256
-- with its sum in hexadecimal digits, and `sort.Strings` are parameters; the bytes that are hashed
-- are one text.
use freeradius_k8s_operator.Shared.{String, List, [], ◌∷◌, map, Option, none, some, append, concat}
use freeradius_k8s_operator.Api.Objects.{RadiusClient}
use freeradius_k8s_operator.Renderer.Files.{ConfigFiles, lookup}

-- `files[k]`, empty when it is missing.
value_or_empty : Option String → String
value_or_empty none = ""
value_or_empty (some v) = v

-- The loop over the sorted keys.
hashed_files : ConfigFiles → List String → String
unfolding value_or_empty
hashed_files files [] = ""
hashed_files files (k ∷ keys) =
    append k (append (value_or_empty (lookup k files)) (hashed_files files keys))

-- The loop over the clients.
hashed_clients : List RadiusClient → String
hashed_clients [] = ""
hashed_clients (c ∷ cs) =
    append
      (concat (
        c.meta.name ∷ c.spec.ip ∷ c.spec.secret_ref.name ∷ c.spec.secret_ref.key ∷ c.spec.nas_type
        ∷ []))
      (hashed_clients cs)

unfoldable pub compute_config_hash :
    (String → String) → (List String → List String) → ConfigFiles → List RadiusClient → String
unfolding hashed_files hashed_clients
compute_config_hash hash sort files clients =
    hash (append (hashed_files files (sort (map (λ f. f.0) files))) (hashed_clients clients))
