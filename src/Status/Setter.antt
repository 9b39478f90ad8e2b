-- ===== src/Status/Setter.antt =====
-- A function on lists that does what `meta.SetStatusCondition` promises.
use freeradius_k8s_operator.Shared.{
  String, ◌≡◌, ◌≢◌, refl, List, [], ◌∷◌, some, if◌then◌else◌, ◌==◌, eq_iff, eq_refl, arith,
  Bool-cases, inl, inr,
}
use freeradius_k8s_operator.Api.Objects.{Condition}
use freeradius_k8s_operator.Kube.{ConditionSetter, find_status_condition}

abbrev pub replace : List Condition → Condition → List Condition
replace [] c = c ∷ []
replace (d ∷ ds) c = let rest = replace ds c in if d.type == c.type then c ∷ ds else d ∷ rest

pub find-replace_self :
    (cs : List Condition) (c : Condition) → find_status_condition c.type (replace cs c) ≡ some c
unfolding find_status_condition
find-replace_self [] c = rw (eq_refl c.type) refl
find-replace_self (d ∷ ds) c = elim (Bool-cases (d.type == c.type)) [
  | inl e ↦ rw (e, find_status_condition, eq_refl c.type) refl
  | inr e ↦ rw (e, find_status_condition, e) (find-replace_self ds c)
]

pub find-replace_other :
    (cs : List Condition) (c : Condition) (type : String)
    → type ≢ c.type
    → find_status_condition type (replace cs c) ≡ find_status_condition type cs
unfolding find_status_condition
find-replace_other [] c type h = ground (arith, eq_iff c.type type)
find-replace_other (d ∷ ds) c type h = ground (
  arith,
  eq_iff c.type type,
  eq_iff d.type type,
  eq_iff d.type c.type,
  find-replace_other ds c type h,
)

abbrev pub replacing : ConditionSetter
replacing = record {
  set_status_condition = replace;
  find-set_self = find-replace_self;
  find-set_other = find-replace_other;
}
