-- ===== src/Status/Laws.antt =====
-- The statuses that two reports leave in a list of conditions.
use freeradius_k8s_operator.Shared.{String, ◌≡◌, ◌≢◌, refl, List, Option, none, some}
use freeradius_k8s_operator.Api.Objects.{Condition}
use freeradius_k8s_operator.Kube.{ConditionSetter, find_status_condition}

abbrev pub status_in : Option Condition → Option String
status_in none = none
status_in (some c) = some c.status

-- The status of the condition of a type.
abbrev pub status_of : String → List Condition → Option String
status_of type cs = status_in (find_status_condition type cs)

-- After two reports of different types, both stand.
pub both_set :
    (conditions : ConditionSetter) (cs : List Condition) (c d : Condition)
    → c.type ≢ d.type
    → (status_of c.type (conditions.set_status_condition (conditions.set_status_condition cs c) d)
        ≡ some c.status)
      × (status_of d.type (conditions.set_status_condition (conditions.set_status_condition cs c) d)
          ≡ some d.status)
both_set conditions cs c d h = (
  rw
      (
        conditions.find-set_other (conditions.set_status_condition cs c) d c.type h,
        conditions.find-set_self cs c,
      )
      refl,
  rw (conditions.find-set_self (conditions.set_status_condition cs c) d) refl,
)
