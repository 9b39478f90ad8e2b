-- ===== src/Controller/Secrets/Once.antt =====
-- The collected references: every named secret once, with the key of its first mention.
use freeradius_k8s_operator.Shared.{
  String, ◌≡◌, refl, false, ◌||◌, List, [], ◌∷◌, ◌++◌, none, some, if◌then◌else◌, ◌==◌, eq_iff,
  is_empty, is_in, AreDistinct, arith, Bool-cases, inl, inr,
}
use freeradius_k8s_operator.Api.Modules
use freeradius_k8s_operator.Api.Objects.{KubeTypes, RadiusCluster, RadiusClient}
use freeradius_k8s_operator.Renderer.Types.{SecretRef}
use freeradius_k8s_operator.Controller.Secrets.{Collected, add, collect_secret_refs}
use freeradius_k8s_operator.Controller.Secrets.Laws.{
  is_some, or_else, key_of, first_key, names, add_all, mentioned, start, collect-all,
}

-- The set `seen` holds the names of the references, each once, and no empty name.
record Inv (st : Collected) : Type 0 where
  same : (n : String) → is_in n st.seen ≡ is_in n (names st.refs)
  distinct : AreDistinct (names st.refs)
  named : is_in "" (names st.refs) ≡ false

key_of-is_in : (n : String) (rs : List SecretRef) → is_in n (names rs) ≡ is_some (key_of n rs)
unfolding key_of
key_of-is_in n [] = refl
key_of-is_in n (r ∷ rs) = ground (arith, key_of-is_in n rs, eq_iff n r.name, eq_iff r.name n)

key_of-append :
    (n : String) (rs : List SecretRef) (r : SecretRef)
    → key_of n (rs ++ r ∷ []) ≡ or_else (key_of n rs) (if r.name == n then some r.key else none)
unfolding key_of
key_of-append n [] r = ground arith
key_of-append n (q ∷ rs) r = ground (arith, key_of-append n rs r)

is_in-append :
    (n : String) (rs : List SecretRef) (r : SecretRef)
    → is_in n (names (rs ++ r ∷ [])) ≡ (is_in n (names rs) || n == r.name)
is_in-append n [] r = ground arith
is_in-append n (q ∷ rs) r = ground (arith, is_in-append n rs r)

append-distinct :
    (rs : List SecretRef) (r : SecretRef)
    → AreDistinct (names rs)
    → is_in r.name (names rs) ≡ false
    → AreDistinct (names (rs ++ r ∷ []))
append-distinct [] r h k = (refl, tt)
append-distinct (q ∷ rs) r (p, h) k = (
  ground (arith, is_in-append q.name rs r, eq_iff q.name r.name, eq_iff r.name q.name),
  append-distinct rs r h (ground arith),
)

add-Inv : (st : Collected) (r : Modules.SecretRef) → Inv st → Inv (add st r)
unfolding add
add-Inv st r v = elim (Bool-cases (is_empty r.name || is_in r.name st.seen)) [
  | inl e ↦ rw e v
  | inr e ↦
      let r' : SecretRef = record { name = r.name; key = r.key } in
      rw e (record {
        same = λ n. ground (arith, is_in-append n st.refs r', v.same n);
        distinct = append-distinct st.refs r' v.distinct (ground (arith, v.same r.name));
        named =
            ground (arith, is_in-append "" st.refs r', v.named, eq_iff "" r.name, eq_iff r.name "");
      })
]

-- The key that a reference leaves under a name.
add-key :
    (n : String) (st : Collected) (r : Modules.SecretRef)
    → Inv st
    → is_empty n ≡ false
    → key_of n (add st r).refs
      ≡ or_else (key_of n st.refs) (if r.name == n then some r.key else none)
unfolding add
add-key n st r v h = elim (Bool-cases (is_empty r.name || is_in r.name st.seen)) [
  | inl e ↦ rw e (
      ground
        (arith, eq_iff r.name n, eq_iff n "", eq_iff r.name "", v.same n, key_of-is_in n st.refs))
  | inr e ↦ rw e (key_of-append n st.refs (record { name = r.name; key = r.key }))
]

add_all-Inv : (st : Collected) (rs : List Modules.SecretRef) → Inv st → Inv (add_all st rs)
unfolding add_all
add_all-Inv st [] v = v
add_all-Inv st (r ∷ rs) v = add_all-Inv (add st r) rs (add-Inv st r v)

add_all-key :
    (n : String) (st : Collected) (rs : List Modules.SecretRef)
    → Inv st
    → is_empty n ≡ false
    → key_of n (add_all st rs).refs ≡ or_else (key_of n st.refs) (first_key n rs)
unfolding add_all first_key
add_all-key n st [] v h = ground arith
add_all-key n st (r ∷ rs) v h =
    ground (arith, add_all-key n (add st r) rs (add-Inv st r v) h, add-key n st r v h)

start-Inv : Inv start
start-Inv = record { same = λ n. refl; distinct = tt; named = refl }

-- The references of a cluster and its clients name no secret twice and none by an empty name.
-- Under every other name stands a reference exactly when the name is mentioned, by the
-- certificate with TLS on, an enabled module or a client, and its key is that of the first mention.
pub collect_secret_refs-once :
    {K : KubeTypes} (cluster : RadiusCluster K) (clients : List RadiusClient)
    → AreDistinct (names (collect_secret_refs cluster clients))
      × (is_in "" (names (collect_secret_refs cluster clients)) ≡ false)
      × ((n : String)
          → is_empty n ≡ false
          → key_of n (collect_secret_refs cluster clients)
            ≡ first_key n (mentioned cluster clients))
unfolding key_of
collect_secret_refs-once cluster clients =
    rw (collect-all cluster clients)
      (v.distinct, v.named, λ n h. add_all-key n start (mentioned cluster clients) start-Inv h)
  where
    v : Inv (add_all start (mentioned cluster clients))
    v = add_all-Inv start (mentioned cluster clients) start-Inv
