-- ===== src/Controller/Pod/Mounts.antt =====
-- That a pod can be started: its mounts have volumes, and no two volumes or mounts collide.
use freeradius_k8s_operator.Shared.{
  ℕ, zero, suc, code, ◌≢◌, String, ◌≡◌, refl, ap, ◌∙◌, true, false, List, [], ◌∷◌, ◌++◌, map,
  append, append-cancel, All, AreDistinct, is_in, ◌==◌, eq_iff, arith, Bool-cases, inl, inr,
  All-imp,
}
use freeradius_k8s_operator.Api.Objects.{KubeTypes, RadiusCluster, RadiusClient}
use freeradius_k8s_operator.Renderer.Types.{SecretRef}
use freeradius_k8s_operator.Controller.Secrets.{collect_secret_refs}
use freeradius_k8s_operator.Controller.Secrets.Laws.{names}
use freeradius_k8s_operator.Controller.Secrets.Once.{collect_secret_refs-once}
use freeradius_k8s_operator.Controller.Endpoints.{ContainerPort}
use freeradius_k8s_operator.Controller.Objects.{Literals, Volume, VolumeMount, PodSpec}
use freeradius_k8s_operator.Controller.Pod.{
  secret_volume, secret_mount, volumes, config_init_mounts, secret_mounts, stock_copy_container,
  init_container, client_init_container, main_container, build_pod_spec,
}

abbrev pub volume_names : List Volume → List String
volume_names = map (λ v. v.name)

abbrev pub mount_paths : List VolumeMount → List String
mount_paths = map (λ m. m.mount_path)

-- The mounts of a container: each has one of the volumes, and no two are at the same path.
abbrev pub AreMountable : List Volume → List VolumeMount → Type 0
AreMountable vs ms =
    All (λ m. is_in m.name (volume_names vs) ≡ true) ms × AreDistinct (mount_paths ms)

-- The volumes have different names, and the mounts of all containers are mountable.
abbrev pub IsMountable : {K : KubeTypes} → PodSpec K → Type 0
IsMountable pod =
    AreDistinct (volume_names pod.volumes)
    × All (λ c. AreMountable pod.volumes c.volume_mounts) (pod.init_containers ++ pod.containers)

module _ (p : String) where
  -- The names behind a common beginning.
  abbrev prefixed : List SecretRef → List String
  prefixed = map (λ r. append p r.name)

  same_behind : (s t : String) → s ≡ t → append p s ≡ append p t
  same_behind s t e = ap (append p) e

  same_prefix : (s t : String) → (append p s == append p t) ≡ (s == t)
  same_prefix s t =
      ground
        (arith, eq_iff (append p s) (append p t), eq_iff s t, append-cancel p s t, same_behind s t)

  is_in-prefixed :
      (n : String) (rs : List SecretRef) → is_in (append p n) (prefixed rs) ≡ is_in n (names rs)
  is_in-prefixed n [] = refl
  is_in-prefixed n (r ∷ rs) = rw (same_prefix n r.name, is_in-prefixed n rs) refl

  prefixed-AreDistinct : (rs : List SecretRef) → AreDistinct (names rs) → AreDistinct (prefixed rs)
  prefixed-AreDistinct [] h = tt
  prefixed-AreDistinct (r ∷ rs) (a, h) = (is_in-prefixed r.name rs ∙ a, prefixed-AreDistinct rs h)

volume_names-secrets :
    (rs : List SecretRef) → volume_names (map secret_volume rs) ≡ prefixed "secret-" rs
volume_names-secrets [] = refl
volume_names-secrets (r ∷ rs) = ap (λ ns. append "secret-" r.name ∷ ns) (volume_names-secrets rs)

mount_paths-secrets :
    (rs : List SecretRef)
    → mount_paths (map secret_mount rs) ≡ prefixed "/etc/freeradius/secrets/" rs
mount_paths-secrets [] = refl
mount_paths-secrets (r ∷ rs) =
    ap (λ ns. append "/etc/freeradius/secrets/" r.name ∷ ns) (mount_paths-secrets rs)

-- The code of a character by its position, 0 behind the end.
code_at : ℕ → String → ℕ
code_at i String.[] = 0
code_at zero (String.◌∷◌ c s) = code c
code_at (suc i) (String.◌∷◌ c s) = code_at i s

-- Texts that differ at a position.
differ : (i : ℕ) (s t : String) → code_at i s ≢ code_at i t → (s == t) ≡ false
differ i s t h = elim (Bool-cases (s == t)) [
  | inl e ↦ absurd (h (ap (code_at i) ((eq_iff s t).0 e)))
  | inr e ↦ e
]

-- A fixed name is none of those behind a beginning from which it differs.
not_prefixed :
    (p name : String) (rs : List SecretRef)
    → ((n : String) → (name == append p n) ≡ false)
    → is_in name (prefixed p rs) ≡ false
not_prefixed p name [] h = refl
not_prefixed p name (r ∷ rs) h = rw (h r.name) (not_prefixed p name rs h)

not_secret_volume :
    (rs : List SecretRef)
    → (is_in "freeradius-config" (prefixed "secret-" rs) ≡ false)
      × (is_in "freeradius-config-rendered" (prefixed "secret-" rs) ≡ false)
unfolding append code_at
not_secret_volume rs = (
  not_prefixed "secret-" "freeradius-config" rs
      (λ n. differ 0 "freeradius-config" (append "secret-" n) (omega arith)),
  not_prefixed "secret-" "freeradius-config-rendered" rs
      (λ n. differ 0 "freeradius-config-rendered" (append "secret-" n) (omega arith)),
)

not_secret_path :
    (rs : List SecretRef)
    → (is_in "/etc/freeradius" (prefixed "/etc/freeradius/secrets/" rs) ≡ false)
      × (is_in "/config-flat" (prefixed "/etc/freeradius/secrets/" rs) ≡ false)
unfolding append code_at
not_secret_path rs = (
  not_prefixed "/etc/freeradius/secrets/" "/etc/freeradius" rs
      (λ n. differ 15 "/etc/freeradius" (append "/etc/freeradius/secrets/" n) (omega arith)),
  not_prefixed "/etc/freeradius/secrets/" "/config-flat" rs
      (λ n. differ 1 "/config-flat" (append "/etc/freeradius/secrets/" n) (omega arith)),
)

-- Each element of a list is in it.
own_names : (rs : List SecretRef) → All (λ r. is_in r.name (names rs) ≡ true) rs
own_names [] = tt
own_names (r ∷ rs) =
    (ground (arith, eq_iff r.name r.name), All-imp (λ q h. ground (arith, h)) rs (own_names rs))

module _ (config_map_name : String) where
  mount_in_volumes :
      (all rs : List SecretRef)
      → All (λ r. is_in r.name (names all) ≡ true) rs
      → All
          (λ m. is_in m.name (volume_names (volumes config_map_name all)) ≡ true)
          (map secret_mount rs)
  unfolding volumes append code_at
  mount_in_volumes all [] h = tt
  mount_in_volumes all (r ∷ rs) (a, h) = (
    rw
        (
          volume_names-secrets all,
          differ 0 (append "secret-" r.name) "freeradius-config" (omega arith),
          differ 0 (append "secret-" r.name) "freeradius-config-rendered" (omega arith),
        )
        (is_in-prefixed "secret-" r.name all ∙ a),
    mount_in_volumes all rs h,
  )

  volumes-AreDistinct :
      (rs : List SecretRef)
      → AreDistinct (names rs)
      → AreDistinct (volume_names (volumes config_map_name rs))
  unfolding volumes
  volumes-AreDistinct rs h =
      rw (volume_names-secrets rs)
        ((not_secret_volume rs).0, ((not_secret_volume rs).1, prefixed-AreDistinct "secret-" rs h))

  secret_mounts-AreMountable :
      (rs : List SecretRef)
      → AreDistinct (names rs)
      → AreMountable (volumes config_map_name rs) (secret_mounts rs)
  unfolding secret_mounts volumes
  secret_mounts-AreMountable rs h = (
    (refl, mount_in_volumes rs rs (own_names rs)),
    rw (mount_paths-secrets rs)
        ((not_secret_path rs).0, prefixed-AreDistinct "/etc/freeradius/secrets/" rs h),
  )

  config_init_mounts-AreMountable :
      (rs : List SecretRef)
      → AreDistinct (names rs)
      → AreMountable (volumes config_map_name rs) (config_init_mounts rs)
  unfolding config_init_mounts volumes
  config_init_mounts-AreMountable rs h = (
    (refl, (refl, mount_in_volumes rs rs (own_names rs))),
    rw (mount_paths-secrets rs) (
      (not_secret_path rs).1,
      ((not_secret_path rs).0, prefixed-AreDistinct "/etc/freeradius/secrets/" rs h),
    ),
  )

-- The pod for the secrets that are collected for a cluster has volumes of different names, and each
-- mount of each of its containers has one of them, at a path where the container has no other.
pub build_pod_spec-IsMountable :
    {K : KubeTypes} (literals : Literals K) (image : String) (cluster : RadiusCluster K)
    (clients : List RadiusClient) (ports : List ContainerPort)
    → IsMountable
        (build_pod_spec literals image cluster (collect_secret_refs cluster clients) ports)
unfolding build_pod_spec stock_copy_container init_container client_init_container main_container
build_pod_spec-IsMountable literals image cluster clients ports =
    let refs = collect_secret_refs cluster clients in
    let distinct = (collect_secret_refs-once cluster clients).0 in
    let name = append cluster.meta.name "-freeradius-config" in
    (
      volumes-AreDistinct name refs distinct,
      (
        ((refl, tt), (refl, tt)),
        (
          config_init_mounts-AreMountable name refs distinct,
          (
            secret_mounts-AreMountable name refs distinct,
            (secret_mounts-AreMountable name refs distinct, tt),
          ),
        ),
      ),
    )
