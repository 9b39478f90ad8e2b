-- ===== src/Renderer/Sites.antt =====
-- `renderSites` of internal/renderer/sites.go, with the template
-- internal/renderer/templates/sites-enabled/default.tmpl.
pub mod Stages
pub mod Laws
pub mod Sorting
use freeradius_k8s_operator.Shared.{
  String, ◌≡◌, Bool, true, false, not, List, [], ◌∷◌, ◌++◌, map, if◌then◌else◌, ◌==◌, is_empty,
  is_in, concat, unlines, keep, ok, err, Check, Result, ◌>>=◌, ◌>>◌, each, All, Perm,
}
use freeradius_k8s_operator.Shared.Int.{int_lt, format_int}
use freeradius_k8s_operator.Renderer.Types.{
  PolicyAction, PolicySpec, Error, invalid_stage_error, invalid_action_error,
}
use freeradius_k8s_operator.Renderer.Templates.{render_action_str}
use freeradius_k8s_operator.Renderer.Conditions.{build_condition}

unfoldable pub valid_stages : List String
valid_stages =
    "authorize" ∷ "authenticate" ∷ "preacct" ∷ "accounting" ∷ "post-auth" ∷ "pre-proxy"
    ∷ "post-proxy" ∷ "session" ∷ []

-- The cases of the `switch` on an action's type.
unfoldable pub action_types : List String
action_types = "set" ∷ "call" ∷ "reject" ∷ "accept" ∷ "redundant" ∷ "load-balance" ∷ []

pub record StageData : Type 0 where
  pub name : String
  pub policies : List PolicySpec

pub record SitesContext : Type 0 where
  pub stages : List StageData
  pub coa_enabled : Bool

unfoldable pub check_action : PolicyAction → Check Error
check_action a = if is_in a.type action_types then ok tt else err (invalid_action_error a.type)

-- One round of the first loop.
unfoldable pub check_policy : PolicySpec → Check Error
check_policy p =
    if not (is_in p.stage valid_stages)
    then err (invalid_stage_error p.stage)
    else each check_action p.actions

-- `byStage[stage]`
pub by_stage : String → List PolicySpec → List PolicySpec
by_stage stage policies = keep (λ p. p.stage == stage) policies

-- The function `less` that `sort.Slice` is given.
unfoldable pub by_priority : PolicySpec → PolicySpec → Bool
by_priority p q = int_lt p.priority q.priority

-- No policy is less than one in front of it.
abbrev pub IsSorted : (PolicySpec → PolicySpec → Bool) → List PolicySpec → Type 0
IsSorted less [] = Unit
IsSorted less (p ∷ ps) = All (λ q. less q p ≡ false) ps × IsSorted less ps

-- What the documentation of Go asks of a function `less`: a strict weak order.
pub record IsWeakOrder (less : PolicySpec → PolicySpec → Bool) : Type 0 where
  pub irreflexive : (p : PolicySpec) → less p p ≡ false
  pub transitive : (p q r : PolicySpec) → less p q ≡ true → less q r ≡ true → less p r ≡ true
  pub negatively : (p q r : PolicySpec) → less p q ≡ false → less q r ≡ false → less p r ≡ false

-- `sort.Slice`: a permutation, sorted by any strict weak order. The order of policies of which none
-- is less than the other is left open, as Go's documentation leaves it.
pub record SliceSort : Type 0 where
  pub sort_slice : (PolicySpec → PolicySpec → Bool) → List PolicySpec → List PolicySpec
  pub sort_slice-perm :
      (less : PolicySpec → PolicySpec → Bool) (ps : List PolicySpec) → Perm (sort_slice less ps) ps
  pub sort_slice-IsSorted :
      (less : PolicySpec → PolicySpec → Bool) (ps : List PolicySpec)
      → IsWeakOrder less
      → IsSorted less (sort_slice less ps)

-- A policy's part of the template.
pub policy_lines : PolicySpec → String
policy_lines p =
    if not (is_empty p.raw_config)
    then concat ("        " ∷ p.raw_config ∷ "\n" ∷ [])
    else concat (
        "        # priority "
        ∷ format_int p.priority
        ∷ ": "
        ∷ p.name
        ∷ "\n"
        ∷ "        if ("
        ∷ build_condition p.match
        ∷ ") {\n"
        ∷ concat (map (λ a. render_action_str a "            ") p.actions)
        ∷ "        }\n"
        ∷ [])

pub stage_block : StageData → String
stage_block s =
    concat ("    " ∷ s.name ∷ " {\n" ∷ concat (map policy_lines s.policies) ∷ "    }\n" ∷ [])

coa_server : List String
coa_server =
    "" ∷ "server coa {" ∷ "    recv-coa {" ∷ "        ok" ∷ "    }" ∷ "" ∷ "    send-coa {"
    ∷ "        ok" ∷ "    }" ∷ "}" ∷ []

-- sites-enabled/default.tmpl
pub default_site : SitesContext → String
default_site ctx = concat (
    unlines (
      "# sites-enabled/default — generated by freeradius-operator" ∷ "# DO NOT EDIT MANUALLY" ∷ ""
      ∷ "server default {" ∷ [])
    ∷ concat (map stage_block ctx.stages)
    ∷ unlines ("}" ∷ (if ctx.coa_enabled then coa_server else []))
    ∷ [])

-- The variadic argument: its first value, if there is one.
pub first_flag : List Bool → Bool
first_flag [] = false
first_flag (b ∷ bs) = b

module _ (sorting : SliceSort) where
  open sorting use {sort_slice}

  pub build_stages : List PolicySpec → List StageData
  build_stages policies =
      map
        (λ stage. record {
          name = stage;
          policies = sort_slice by_priority (by_stage stage policies);
        })
        valid_stages

  unfoldable pub render_sites : List PolicySpec → List Bool → Result Error String
  render_sites policies coa_enabled = do
    each check_policy policies
    ok (
        default_site
          (record { stages = build_stages policies; coa_enabled = first_flag coa_enabled }))
