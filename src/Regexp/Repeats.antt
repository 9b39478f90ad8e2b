-- ===== src/Regexp/Repeats.antt =====
-- The texts that a bounded repetition of one class matches.
use Prim.Native.String.{[], ◌∷◌}
use freeradius_k8s_operator.Shared.{
  ℕ, zero, suc, ◌≤◌, String, ◌≡◌, refl, ◌↔◌, Bool, true, append, arith, AllChars, size,
}
use freeradius_k8s_operator.Regexp.{class, star, up_to}
use freeradius_k8s_operator.Regexp.Language.{Matches, empty, one, both, left, right, stop, again}

-- Every character passes the test.
abbrev pub Passes : (ℕ → Bool) → String → Type 0
Passes p = AllChars (λ n. p n ≡ true)

module _ (p : ℕ → Bool) where
  up_to_sound : (n : ℕ) {u : String} → Matches (up_to n (class p)) u → Passes p u × (size u ≤ n)
  unfolding up_to append
  up_to_sound zero (empty e) = rw e (tt, omega arith)
  up_to_sound (suc n) (left (empty e)) = rw e (tt, omega arith)
  up_to_sound (suc n) (right (both s t e (one c f h) m)) =
      let (k, b) = up_to_sound n m in rw (e, f) ((h, k), omega arith)

  up_to_complete : (n : ℕ) (u : String) → Passes p u → size u ≤ n → Matches (up_to n (class p)) u
  unfolding up_to append
  up_to_complete zero [] h b = empty refl
  up_to_complete zero (c ∷ u) h b = absurd (omega arith)
  up_to_complete (suc n) [] h b = left (empty refl)
  up_to_complete (suc n) (c ∷ u) (q, h) b =
      right (both (c ∷ []) u refl (one c refl q) (up_to_complete n u h (omega arith)))

  -- `[…]{0,n}` matches the texts of at most `n` characters that all pass the test.
  pub up_to-Matches_iff :
      (n : ℕ) (u : String) → Matches (up_to n (class p)) u ↔ (Passes p u × (size u ≤ n))
  up_to-Matches_iff n u = (up_to_sound n, λ h. up_to_complete n u h.0 h.1)

  star_sound : {u : String} → Matches (star (class p)) u → Passes p u
  unfolding append
  star_sound (stop e) = rw e tt
  star_sound (again s t e (one c f h) m) = rw (e, f) (h, star_sound m)

  star_complete : (u : String) → Passes p u → Matches (star (class p)) u
  unfolding append
  star_complete [] h = stop refl
  star_complete (c ∷ u) (q, h) = again (c ∷ []) u refl (one c refl q) (star_complete u h)

  -- `[…]*` matches the texts whose characters all pass the test.
  pub star-Matches_iff : (u : String) → Matches (star (class p)) u ↔ Passes p u
  star-Matches_iff u = (star_sound, star_complete u)
