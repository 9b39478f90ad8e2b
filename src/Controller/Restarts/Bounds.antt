-- ===== src/Controller/Restarts/Bounds.antt =====
-- What the count of restarts is, when it fits in 32 bits and when it does not.
use freeradius_k8s_operator.Shared.{
  ℕ, ◌+◌, ◌%◌, ◌<◌, String, ◌≡◌, ap, ◌∙◌, List, [], ◌∷◌, ok, arith,
}
use freeradius_k8s_operator.Shared.Int.{ℤ, pos, negsuc, ◌≤ℤ◌}
use freeradius_k8s_operator.Api.Objects.{KubeTypes}
use freeradius_k8s_operator.Controller.Endpoints.{pod_labels}
use freeradius_k8s_operator.Controller.Objects.Store.{Store}
use freeradius_k8s_operator.Controller.Restarts.{
  bits, of_bits, add_int32, add_containers, add_pods, restarts_of, count_pod_restarts,
}

-- A value that an `int32` can have.
abbrev pub IsInt32 : ℤ → Type 0
IsInt32 x = (negsuc 2147483647 ≤ℤ x) × (x ≤ℤ pos 2147483647)

of_bits-IsInt32 : (n : ℕ) → n < 4294967296 → IsInt32 (of_bits n)
unfolding of_bits
of_bits-IsInt32 n h = ground arith

bits-of_bits : (n : ℕ) → n < 4294967296 → bits (of_bits n) ≡ n
unfolding of_bits bits
bits-of_bits n h = ground arith

-- The sum of the bits of the values.
abbrev pub sum_bits : List ℤ → ℕ
sum_bits [] = 0
sum_bits (c ∷ cs) = bits c + sum_bits cs

abbrev pub pods_bits : List (List ℤ) → ℕ
pods_bits [] = 0
pods_bits (p ∷ ps) = sum_bits p + pods_bits ps

bits-add_int32 : (a b : ℤ) → bits (add_int32 a b) ≡ (bits a + bits b) % 4294967296
unfolding add_int32
bits-add_int32 a b = bits-of_bits _ (omega arith)

bits-fits : (a : ℤ) → bits a < 4294967296
unfolding bits
bits-fits (pos n) = omega arith
bits-fits (negsuc n) = omega arith

bits-add_containers :
    (total : ℤ) (cs : List ℤ)
    → bits (add_containers total cs) ≡ (bits total + sum_bits cs) % 4294967296
unfolding add_containers
bits-add_containers total [] = omega (arith, bits-fits total)
bits-add_containers total (c ∷ cs) =
    omega (arith, bits-add_containers (add_int32 total c) cs, bits-add_int32 total c)

bits-add_pods :
    (total : ℤ) (ps : List (List ℤ))
    → bits (add_pods total ps) ≡ (bits total + pods_bits ps) % 4294967296
unfolding add_pods
bits-add_pods total [] = omega (arith, bits-fits total)
bits-add_pods total (p ∷ ps) =
    omega (arith, bits-add_pods (add_containers total p) ps, bits-add_containers total p)

add_containers-IsInt32 :
    (total : ℤ) (cs : List ℤ) → IsInt32 total → IsInt32 (add_containers total cs)
unfolding add_containers add_int32
add_containers-IsInt32 total [] h = h
add_containers-IsInt32 total (c ∷ cs) h =
    add_containers-IsInt32 (add_int32 total c) cs (of_bits-IsInt32 _ (omega arith))

add_pods-IsInt32 : (total : ℤ) (ps : List (List ℤ)) → IsInt32 total → IsInt32 (add_pods total ps)
unfolding add_pods
add_pods-IsInt32 total [] h = h
add_pods-IsInt32 total (p ∷ ps) h =
    add_pods-IsInt32 (add_containers total p) ps (add_containers-IsInt32 total p h)

-- The small values are their own bits.
bits-small : (x : ℤ) → IsInt32 x → bits x < 2147483648 → x ≡ pos (bits x)
unfolding bits
bits-small (pos n) (a, b) h = ap pos (omega arith)
bits-small (negsuc n) (a, b) h = absurd (omega arith)

-- When the pods are listed, the count of their restarts fits in 32 bits with a sign. In its bits it
-- is the sum of the counts of all containers of all pods up to a multiple of 2 ^ 32, and it is that
-- sum itself when the sum is less than 2 ^ 31; a negative count is taken for its 32 bits.
pub count_pod_restarts-Wraps :
    {K : KubeTypes} {World : Type 0} (S : Store K World) (namespace name : String) (w : World)
    (pods : List (List ℤ))
    → S.list_restarts namespace (pod_labels name) w ≡ ok pods
    → IsInt32 (count_pod_restarts S namespace name w)
      × (bits (count_pod_restarts S namespace name w) ≡ pods_bits pods % 4294967296)
      × (pods_bits pods < 2147483648 → count_pod_restarts S namespace name w ≡ pos (pods_bits pods))
unfolding count_pod_restarts restarts_of bits
count_pod_restarts-Wraps S namespace name w pods h =
    rw (h, restarts_of)
      (
        range,
        same,
        λ small.
            bits-small (add_pods (pos 0) pods) range (omega (arith, same))
            ∙ ap pos (omega (arith, same)),
      )
  where
    range : IsInt32 (add_pods (pos 0) pods)
    range = add_pods-IsInt32 (pos 0) pods (omega arith)

    same : bits (add_pods (pos 0) pods) ≡ pods_bits pods % 4294967296
    same = omega (arith, bits-add_pods (pos 0) pods)
