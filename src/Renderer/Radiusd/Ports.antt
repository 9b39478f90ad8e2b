-- ===== src/Renderer/Radiusd/Ports.antt =====
-- The ports of the `listen` sections of the generated radiusd.conf.
use freeradius_k8s_operator.Shared.{
  ℕ, zero, suc, String, ◌≡◌, refl, true, List, [], ◌∷◌, Option, none, some, subst, Mem, concat,
  append,
}
use mathlib.Core.List.{mem-cons_self, mem-cons_of_mem}
use freeradius_k8s_operator.Shared.Int.{ℤ, pos, format_int, digits, digit}
use freeradius_k8s_operator.Renderer.Types.{ClusterSpec}
use freeradius_k8s_operator.Renderer.Radiusd.{
  radiusd_head, radiusd_limits, radiusd_settings, radiusd_foot, radiusd_coa, build_radiusd_context,
  radiusd_lines,
}

-- The generated file has a line that sets this port.
abbrev pub ListensOn : ClusterSpec → ℤ → Type 0
ListensOn c p =
    Mem (concat ("    port = " ∷ format_int p ∷ [])) (radiusd_lines (build_radiusd_context c))

abbrev get_elem? : List String → ℕ → Option String
get_elem? [] i = none
get_elem? (x ∷ xs) zero = some x
get_elem? (x ∷ xs) (suc i) = get_elem? xs i

some_injective : {a b : String} → some a ≡ some b → a ≡ b
some_injective e = cc

mem_at : (xs : List String) (i : ℕ) {a : String} → get_elem? xs i ≡ some a → Mem a xs
mem_at [] i e = cc
mem_at (x ∷ xs) zero e = subst (λ y. Mem y (x ∷ xs)) (some_injective e) mem-cons_self
mem_at (x ∷ xs) (suc i) e = mem-cons_of_mem x (mem_at xs i e)

module _ (c : ClusterSpec) where
  pub listens_auth : ListensOn c (pos 1812)
  unfolding radiusd_lines radiusd_head radiusd_limits radiusd_settings radiusd_foot
      build_radiusd_context format_int digits digit append
  listens_auth = mem_at _ 72 refl

  pub listens_acct : ListensOn c (pos 1813)
  unfolding radiusd_lines radiusd_head radiusd_limits radiusd_settings radiusd_foot
      build_radiusd_context format_int digits digit append
  listens_acct = mem_at _ 84 refl

  pub listens_coa : {p : ℤ} → c.coa_enabled ≡ true → p ≡ c.coa_port → ListensOn c p
  unfolding radiusd_lines radiusd_head radiusd_limits radiusd_settings radiusd_foot radiusd_coa
      build_radiusd_context
  listens_coa on e = mem_at _ 96 (simp (on, e) refl)
