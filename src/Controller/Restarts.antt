-- ===== src/Controller/Restarts.antt =====
-- `countPodRestarts` of internal/controller/radiuscluster_controller.go: a sum of `int32` values,
-- which wraps around.
pub mod Bounds
use freeradius_k8s_operator.Shared.{
  ℕ, ◌+◌, ◌-◌, ◌%◌, ◌^◌, String, List, [], ◌∷◌, ok, err, Result, if◌then◌else◌, ltb,
}
use freeradius_k8s_operator.Shared.Int.{ℤ, pos, negsuc}
use freeradius_k8s_operator.Api.Objects.{KubeTypes}
use freeradius_k8s_operator.Kube.{KubeError}
use freeradius_k8s_operator.Controller.Endpoints.{pod_labels}
use freeradius_k8s_operator.Controller.Objects.Store.{Store}

-- The 32 bits of a value, as a number.
unfoldable pub bits : ℤ → ℕ
bits (pos n) = n % 4294967296
bits (negsuc n) = 4294967295 - n % 4294967296

-- The value of 32 bits, in two's complement.
unfoldable pub of_bits : ℕ → ℤ
of_bits n = if ltb n 2147483648 then pos n else negsuc (4294967295 - n)

-- `total += cs.RestartCount`
unfoldable pub add_int32 : ℤ → ℤ → ℤ
unfolding bits of_bits
add_int32 a b = of_bits ((bits a + bits b) % 4294967296)

-- The loop over the containers of a pod.
unfoldable pub add_containers : ℤ → List ℤ → ℤ
unfolding add_int32
add_containers total [] = total
add_containers total (c ∷ cs) = add_containers (add_int32 total c) cs

-- The loop over the pods.
unfoldable pub add_pods : ℤ → List (List ℤ) → ℤ
unfolding add_containers
add_pods total [] = total
add_pods total (p ∷ ps) = add_pods (add_containers total p) ps

unfoldable pub restarts_of : Result KubeError (List (List ℤ)) → ℤ
unfolding add_pods
restarts_of (err e) = pos 0
restarts_of (ok pods) = add_pods (pos 0) pods

unfoldable pub count_pod_restarts :
    {K : KubeTypes} {World : Type 0} → Store K World → String → String → World → ℤ
unfolding restarts_of
count_pod_restarts S namespace cluster_name w =
    restarts_of (S.list_restarts namespace (pod_labels cluster_name) w)
