-- ===== src/Controller/Steps/ConfigMaps/RoundTrip.antt =====
-- The names of the files, through the keys of the config map and back.
use text.Mathlib.TextEquality.{Char-path}
use freeradius_k8s_operator.Shared.{
  String, Char, code, ◌≡◌, ◌≢◌, refl, sym, ap, ◌∙◌, true, false, [], ◌∷◌, nat_eq, nat_eq_iff,
  append, All, ◌==◌, eq_iff, Bool-cases, inl, inr,
}
use freeradius_k8s_operator.Renderer.Files.{ConfigFiles, lookup}
use freeradius_k8s_operator.Renderer.Files.Laws.{lookup-assign, lookup-assign_ne}
use freeradius_k8s_operator.Controller.Steps.ConfigMaps.{
  flat_name, restored_from, restored_name, config_map_data,
}

-- The text does not start with an underscore or a slash.
abbrev pub StartsPlain : String → Type 0
StartsPlain String.[] = Unit
StartsPlain (String.◌∷◌ c s) = (code c ≢ b'_') × (code c ≢ b'/')

-- No underscore stands before another one or before a slash.
abbrev pub IsRestorable : String → Type 0
IsRestorable String.[] = Unit
IsRestorable (String.◌∷◌ c s) = (code c ≡ b'_' → StartsPlain s) × IsRestorable s

slash : (c d : Char) (s t : String) → code c ≡ code d → s ≡ t → String.◌∷◌ d s ≡ String.◌∷◌ c t
slash c d s t h k = rw (Char-path c d h, k) refl

module _ (c : Char) (s : String) where
  restored-under :
      nat_eq (code c) b'_' ≡ true → restored_from false (String.◌∷◌ c s) ≡ restored_from true s
  unfolding restored_from
  restored-under h = rw (h, restored_from) refl

  restored-plain :
      nat_eq (code c) b'_' ≡ false
      → restored_from false (String.◌∷◌ c s) ≡ String.◌∷◌ c (restored_from false s)
  unfolding restored_from
  restored-plain h = rw (h, restored_from) refl

  restored-late :
      nat_eq (code c) b'_' ≡ false
      → restored_from true (String.◌∷◌ c s) ≡ append "_" (String.◌∷◌ c (restored_from false s))
  unfolding restored_from
  restored-late h = rw (h, restored_from) refl

restored-slash :
    (t : String) → restored_from false (append "__" t) ≡ String.◌∷◌ "/" (restored_from false t)
unfolding restored_from append
restored-slash t = refl

restored-nothing : (restored_from false "" ≡ "") × (StartsPlain "" → restored_from true "" ≡ "_")
unfolding restored_from
restored-nothing = (refl, λ p. refl)

late :
    (c : Char) {s t : String}
    → s ≡ t
    → append "_" (String.◌∷◌ c s) ≡ String.◌∷◌ "_" (String.◌∷◌ c t)
unfolding append
late c h = rw h refl

-- Both ways to meet the rest of a name: without and with an underscore before it.
restored-flat :
    (k : String)
    → IsRestorable k
    → (restored_from false (flat_name k) ≡ k)
      × (StartsPlain k → restored_from true (flat_name k) ≡ String.◌∷◌ "_" k)
unfolding flat_name
restored-flat String.[] h = restored-nothing
restored-flat (String.◌∷◌ c s) (p, h) = elim (Bool-cases (nat_eq (code c) b'/')) [
  | inl e ↦
      let same = (nat_eq_iff (code c) b'/').0 e in
      (
        rw (e, restored-slash (flat_name s))
            (slash c "/" (restored_from false (flat_name s)) s same (restored-flat s h).0),
        λ plain. absurd (plain.1 same),
      )
  | inr e ↦ elim (Bool-cases (nat_eq (code c) b'_')) [
    | inl f ↦
        let same = (nat_eq_iff (code c) b'_').0 f in
        (
          rw (e, restored-under c (flat_name s) f)
              ((restored-flat s h).1 (p same) ∙ slash c "_" s s same refl),
          λ plain. absurd (plain.0 same),
        )
    | inr f ↦ (
      rw (e, restored-plain c (flat_name s) f) (ap (String.◌∷◌ c) (restored-flat s h).0),
      λ plain. rw (e, restored-late c (flat_name s) f) (late c (restored-flat s h).0),
    )
  ]
]

flat-injective :
    (j k : String) → IsRestorable j → IsRestorable k → flat_name j ≡ flat_name k → j ≡ k
flat-injective j k h p e =
    sym (restored-flat j h).0 ∙ (ap (restored_from false) e ∙ (restored-flat k p).0)

different : (j k : String) → (j == k) ≡ false → j ≢ k
different j k e same = cc ((eq_iff j k).1 same)

lookup-data :
    (files : ConfigFiles) (k : String)
    → All (λ f. IsRestorable f.0) files
    → IsRestorable k
    → lookup (flat_name k) (config_map_data files) ≡ lookup k files
unfolding config_map_data lookup
lookup-data [] k h p = refl
lookup-data ((j, v) ∷ files) k (q, h) p = elim (Bool-cases (j == k)) [
  | inl e ↦
      let same = (eq_iff j k).0 e in
      lookup-assign (flat_name j) (flat_name k) v (config_map_data files)
      ∙ rw (e, (eq_iff (flat_name j) (flat_name k)).1 (ap flat_name same)) refl
  | inr e ↦
      lookup-assign_ne (flat_name j) (flat_name k) v (config_map_data files)
        (λ same. different j k e (flat-injective j k q p same))
      ∙ rw e (lookup-data files k h p)
]

-- When no underscore of a file's name stands before another one or before a slash, then the config
-- map has under each such name's key what the files have under the name, and the script that lays
-- the files out takes the name back from the key.
pub config_map_data-restored :
    (files : ConfigFiles) (k : String)
    → All (λ f. IsRestorable f.0) files
    → IsRestorable k
    → (lookup (flat_name k) (config_map_data files) ≡ lookup k files)
      × (restored_name (flat_name k) ≡ k)
unfolding restored_name
config_map_data-restored files k h p = (lookup-data files k h p, (restored-flat k p).0)
