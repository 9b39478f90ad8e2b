-- ===== src/Controller/Outcome.antt =====
-- What a reconciler returns: the seconds after which it asks to be called again, 0 for never, the
-- error, and the label `result` of the metrics.
use freeradius_k8s_operator.Shared.{ℕ, String, [], ◌∷◌, Option, none, some, concat}
use freeradius_k8s_operator.Kube.{KubeError}
use freeradius_k8s_operator.Renderer.Types.{Error}
use freeradius_k8s_operator.Controller.Quote.{quoted}

-- An error of the client, returned as it is, or wrapped with what was asked for, and an error of the
-- renderer, wrapped.
pub data ReconcileError : Type 0 where
  client_error : KubeError → ReconcileError
  fetching_cluster : String → KubeError → ReconcileError
  listing_clients : KubeError → ReconcileError
  listing_policies : KubeError → ReconcileError
  fetching_secret : String → KubeError → ReconcileError
  rendering_config : Error → ReconcileError

pub record Outcome : Type 0 where
  pub requeue_after : ℕ
  pub error : Option ReconcileError
  pub result : String

abbrev pub succeeded : Outcome
succeeded = record { requeue_after = 0; error = none; result = "success" }

abbrev pub rejected : Outcome
rejected = record { requeue_after = 0; error = none; result = "error" }

abbrev pub waiting : ℕ → Outcome
waiting seconds = record { requeue_after = seconds; error = none; result = "error" }

abbrev pub returned : ReconcileError → Outcome
returned e = record { requeue_after = 0; error = some e; result = "error" }

abbrev pub missing_cluster : String → String → String
missing_cluster name namespace =
    concat ("RadiusCluster " ∷ quoted name ∷ " not found in namespace " ∷ quoted namespace ∷ [])
