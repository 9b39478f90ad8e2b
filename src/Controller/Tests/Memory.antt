-- ===== src/Controller/Tests/Memory.antt =====
-- A store in memory, which is lawful: what each kind and name has, if anything.
use mathlib.Core.Path.{subst_refl}
use freeradius_k8s_operator.Shared.{
  String, ◌≡◌, ◌≢◌, ◌⊎◌, refl, sym, ap, subst, Bool, true, false, ◌&&◌, List, [], ◌∷◌, Option, none,
  some, ok, err, Result, Check, inl, inr, ◌==◌, eq_iff, eq_refl, arith, Bool-cases, Option-cases,
}
use freeradius_k8s_operator.Shared.Int.{pos}
use freeradius_k8s_operator.Api.Objects.{RadiusCluster, RadiusClient}
use freeradius_k8s_operator.Kube.{NamespacedName, KubeError, not_found, Client}
use freeradius_k8s_operator.Controller.Objects.Store.{
  ObjectKind, Content, Object, Store, IsLawful, IsReadable, IsServing,
}
use freeradius_k8s_operator.Controller.Tests.{units}

abbrev pub Held : ObjectKind → Type 0
Held k = Object units Unit k

abbrev pub Memory : Type 0
Memory = (k : ObjectKind) → NamespacedName → Option (Held k)

-- Two kinds are the same one.
abbrev same_kind : (j k : ObjectKind) → Option (k ≡ j)
same_kind ObjectKind.deployment ObjectKind.deployment = some refl
same_kind ObjectKind.service ObjectKind.service = some refl
same_kind ObjectKind.config_map ObjectKind.config_map = some refl
same_kind ObjectKind.autoscaler ObjectKind.autoscaler = some refl
same_kind ObjectKind.disruption_budget ObjectKind.disruption_budget = some refl
same_kind ObjectKind.service_account ObjectKind.service_account = some refl
same_kind ObjectKind.role ObjectKind.role = some refl
same_kind ObjectKind.role_binding ObjectKind.role_binding = some refl
same_kind _ _ = none

same_kind_self : (k : ObjectKind) → same_kind k k ≡ some refl
same_kind_self ObjectKind.deployment = refl
same_kind_self ObjectKind.service = refl
same_kind_self ObjectKind.config_map = refl
same_kind_self ObjectKind.autoscaler = refl
same_kind_self ObjectKind.disruption_budget = refl
same_kind_self ObjectKind.service_account = refl
same_kind_self ObjectKind.role = refl
same_kind_self ObjectKind.role_binding = refl

abbrev key_eq : NamespacedName → NamespacedName → Bool
key_eq a b = (a.namespace == b.namespace) && (a.name == b.name)

key_eq_self : (n : NamespacedName) → key_eq n n ≡ true
key_eq_self n = ground (arith, eq_refl n.namespace, eq_refl n.name)

key_eq_ne : (m n : NamespacedName) → m ≢ n → key_eq m n ≡ false
key_eq_ne m n h = elim (Bool-cases (m.namespace == n.namespace)) [
  | inr a ↦ rw a refl
  | inl a ↦ elim (Bool-cases (m.name == n.name)) [
    | inr b ↦ rw (a, b) refl
    | inl b ↦ absurd (
        h λ i. record {
          namespace = (eq_iff m.namespace n.namespace).0 a i;
          name = (eq_iff m.name n.name).0 b i;
        })
  ]
]

-- The state with the value in place of the one that the kind has under the name.
abbrev chosen :
    {j k : ObjectKind} → Option (k ≡ j) → Bool → Option (Held k) → Option (Held j) → Option (Held j)
chosen none b new old = old
chosen (some p) true new old = subst (λ i. Option (Held i)) p new
chosen (some p) false new old = old

abbrev pub put : (k : ObjectKind) → NamespacedName → Option (Held k) → Memory → Memory
put k n new w = λ j m. chosen (same_kind j k) (key_eq m n) new (w j m)

put_self :
    (k : ObjectKind) (n : NamespacedName) (new : Option (Held k)) (w : Memory)
    → put k n new w k n ≡ new
put_self k n new w =
    rw (same_kind_self k, key_eq_self n) (subst_refl (λ i. Option (Held i)) {x = k} new)

put_other :
    (j k : ObjectKind) (m n : NamespacedName) (new : Option (Held k)) (w : Memory)
    → (j ≢ k) ⊎ (m ≢ n)
    → put k n new w j m ≡ w j m
put_other j k m n new w h = elim (Option-cases (same_kind j k)) [
  | inl e ↦ rw e refl
  | inr (p, e) ↦ elim h [ inl a ↦ absurd (a (sym p)) | inr b ↦ rw (e, key_eq_ne m n b) refl ]
]

abbrev empty_content : (k : ObjectKind) → Content units k
empty_content ObjectKind.deployment = none
empty_content ObjectKind.service = none
empty_content ObjectKind.config_map = []
empty_content ObjectKind.autoscaler = none
empty_content ObjectKind.disruption_budget = none
empty_content ObjectKind.service_account = tt
empty_content ObjectKind.role = []
empty_content ObjectKind.role_binding = record { role_ref = none; subjects = [] }

-- The object that is updated: the one that is held, or an empty one.
abbrev held_or_empty : (k : ObjectKind) → Option (Held k) → Held k
held_or_empty k none = record { owners = tt; annotations = []; content = empty_content k }
held_or_empty k (some o) = o

abbrev asked : {k : ObjectKind} → Option (Held k) → Result KubeError (Held k)
asked none = err not_found
asked (some o) = ok o

-- The cluster and the objects.
abbrev pub World : Type 0
World = RadiusCluster units × Memory

abbrev put_result :
    (k : ObjectKind) → NamespacedName → Result KubeError (Held k) → World → World × Check KubeError
put_result k n (ok o) w = ((w.0, put k n (some o) w.1), ok tt)
put_result k n (err e) w = (w, err e)

abbrev deleted : {k : ObjectKind} → Option (Held k) → Check KubeError
deleted none = err not_found
deleted (some o) = ok tt

-- The store, with the clients that are listed and the answers on secrets.
abbrev pub memory : List RadiusClient → (String → Check KubeError) → Store units World
memory clients secret = record {
  Owners = Unit;
  set_controller_reference = λ cluster owners. ok owners;
  get = λ k n w. asked {k = k} (w.1 k n);
  delete = λ k n w. ((w.0, put k n none w.1), deleted {k = k} (w.1 k n));
  create_or_update = λ k n f w. put_result k n (f (held_or_empty k (w.1 k n))) w;
  ready_replicas = λ n w. ok (pos 1);
  get_secret = λ n w. secret n.name;
  list_clients = λ namespace w. ok clients;
  list_policies = λ namespace w. ok [];
  list_restarts = λ namespace labels w. ok ((pos 2 ∷ pos 1 ∷ []) ∷ (pos 4 ∷ []) ∷ []);
}

-- The client, for which the cluster is there under every name.
abbrev pub kube : Client units
kube = record {
  World = World;
  get_cluster = λ k w. ok w.0;
  get_client = λ k w. err not_found;
  get_policy = λ k w. err not_found;
  update_cluster = λ c w. ((c, w.1), ok tt);
  update_client = λ c w. (w, err not_found);
  update_policy = λ p w. (w, err not_found);
}

-- What a result that was put leaves.
put_result_get :
    (k : ObjectKind) (n : NamespacedName) (f : Held k → Result KubeError (Held k)) (old : Held k)
    (r : Result KubeError (Held k)) (w : World)
    → f old ≡ r
    → (put_result k n r w).1 ≡ ok tt
    → (a : Held k) × (b : Held k) × (f a ≡ ok b)
      × (asked {k = k} ((put_result k n r w).0.1 k n) ≡ ok b)
put_result_get k n f old (ok o) w e h =
    (old, o, e, ap (λ (x : Option (Held k)). asked {k = k} x) (put_self k n (some o) w.1))
put_result_get k n f old (err e) w d h = cc

put_result_other :
    (j k : ObjectKind) (m n : NamespacedName) (r : Result KubeError (Held k)) (w : World)
    → (j ≢ k) ⊎ (m ≢ n)
    → (put_result k n r w).0.1 j m ≡ w.1 j m
put_result_other j k m n (ok o) w h = put_other j k m n (some o) w.1 h
put_result_other j k m n (err e) w h = refl

pub memory-IsLawful :
    (clients : List RadiusClient) (secret : String → Check KubeError)
    → IsLawful units (memory clients secret)
memory-IsLawful clients secret = record {
  get-create_or_update = λ k n f w h. put_result_get k n f (held_or_empty k (w.1 k n)) _ w refl h;
  get-create_or_update_other = λ j k m n f w h.
      ap (λ (x : Option (Held j)). asked {k = j} x)
        (put_result_other j k m n (f (held_or_empty k (w.1 k n))) w h);
  get-delete = λ k n w h. ap (λ (x : Option (Held k)). asked {k = k} x) (put_self k n none w.1);
  get-delete_other =
      λ j k m n w h. ap (λ (x : Option (Held j)). asked {k = j} x) (put_other j k m n none w.1 h);
}

deleted_if_asked :
    (k : ObjectKind) (a : Option (Held k)) (o : Held k)
    → asked {k = k} a ≡ ok o
    → deleted {k = k} a ≡ ok tt
deleted_if_asked k none o h = cc
deleted_if_asked k (some a) o h = refl

only_missing :
    (k : ObjectKind) (a : Option (Held k)) (e : KubeError) → asked {k = k} a ≡ err e → e ≡ not_found
only_missing k none e h = cc
only_missing k (some o) e h = cc

pub memory-IsReadable :
    (clients : List RadiusClient) (secret : String → Check KubeError)
    → IsReadable units (memory clients secret)
memory-IsReadable clients secret k n w e h = only_missing k (w.1 k n) e h

pub memory-IsServing :
    (clients : List RadiusClient) (secret : String → Check KubeError)
    → IsServing units (memory clients secret)
memory-IsServing clients secret = record {
  readable = memory-IsReadable clients secret;
  owns = λ cluster owners. (owners, refl);
  creates = λ k n f w h. let (new, e) = h (held_or_empty k (w.1 k n)) in rw e refl;
  deletes = λ k n o w h. deleted_if_asked k (w.1 k n) o h;
}

-- The answer on a secret that is there.
abbrev pub present : String → Check KubeError
present name = ok tt

abbrev pub nothing : Memory
nothing k n = none
