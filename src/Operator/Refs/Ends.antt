-- ===== src/Operator/Refs/Ends.antt =====
-- When the loop of `resolveFileRefs` comes to an end, and when it never does.
use freeradius_k8s_operator.Shared.{
  ℕ, zero, suc, ◌+◌, ◌<◌, String, code, ◌≡◌, ◌≢◌, refl, sym, ap, ◌∙◌, Option, none, some, append,
  nat_eq, is_empty, ◌&&◌, if◌then◌else◌, Bool-cases, Option-cases, inl, inr, AllChars, arith,
}
use freeradius_k8s_operator.Operator.Refs.{
  cut, marker, reference, trim_left, trim_right, trim_space, is_space, with_data, with_end,
  with_start, resolve_one, resolve_file_refs,
}
use freeradius_k8s_operator.Operator.Refs.Cuts.{cut-some, content-pieces, replace_first-reference}

-- No dollar sign.
abbrev pub NoDollar : String → Type 0
NoDollar = AllChars (λ n. n ≢ b'$')

-- The number of dollar signs.
abbrev pub dollars : String → ℕ
dollars String.[] = 0
dollars (String.◌∷◌ c s) = (if nat_eq (code c) b'$' then 1 else 0) + dollars s

dollars-append : (s t : String) → dollars (append s t) ≡ dollars s + dollars t
unfolding append
dollars-append String.[] t = omega arith
dollars-append (String.◌∷◌ c s) t = rw (dollars-append s t) (omega arith)

dollars-NoDollar : (s : String) → NoDollar s → dollars s ≡ 0
dollars-NoDollar String.[] h = refl
dollars-NoDollar (String.◌∷◌ c s) (p, h) = ground (arith, dollars-NoDollar s h)

module _ (P : ℕ → Type 0) where
  AllChars-trim_left : (s : String) → AllChars P s → AllChars P (trim_left s)
  unfolding trim_left
  AllChars-trim_left String.[] h = tt
  AllChars-trim_left (String.◌∷◌ c s) (p, h) = elim (Bool-cases (is_space (code c))) [
    | inl e ↦ rw e (AllChars-trim_left s h)
    | inr e ↦ rw e (p, h)
  ]

  AllChars-trim_right : (s : String) → AllChars P s → AllChars P (trim_right s)
  unfolding trim_right
  AllChars-trim_right String.[] h = tt
  AllChars-trim_right (String.◌∷◌ c s) (p, h) =
      elim (Bool-cases (is_empty (trim_right s) && is_space (code c))) [
        | inl e ↦ rw e tt
        | inr e ↦ rw e (p, AllChars-trim_right s h)
      ]

  pub AllChars-trim_space : (s : String) → AllChars P s → AllChars P (trim_space s)
  unfolding trim_space
  AllChars-trim_space s h = AllChars-trim_right (trim_left s) (AllChars-trim_left s h)

written : {a b next : String} → some a ≡ some next → a ≡ b → next ≡ b
written h k = cc

module _ (read_file : String → Option String) where
  -- A pass of the loop: the first reference, the text of its file, and the new text.
  pub record Pass (content next : String) : Type 0 where
    pub before : String
    pub rest : String
    pub path : String
    pub tail : String
    pub found : String
    pub starts : cut marker content ≡ some (before, rest)
    pub ends : cut "}" rest ≡ some (path, tail)
    pub reads : read_file path ≡ some found
    pub writes : next ≡ append before (append (trim_space found) tail)

  -- The body of the loop is such a pass.
  pub resolve_one-Pass :
      (content : String) {next : String}
      → resolve_one read_file content ≡ some next
      → Pass content next
  unfolding resolve_one with_start with_end with_data
  resolve_one-Pass content {next} h = elim (Option-cases (cut marker content)) [
    | inl e ↦ cc (rw (e, with_start) at h)
    | inr ((before, rest), e) ↦ elim (Option-cases (cut "}" rest)) [
      | inl f ↦ cc (rw (e, with_start, f, with_end) at h)
      | inr ((path, tail), f) ↦ elim (Option-cases (read_file path)) [
        | inl g ↦ cc (rw (e, with_start, f, with_end, g, with_data) at h)
        | inr (found, g) ↦ record {
          before = before;
          rest = rest;
          path = path;
          tail = tail;
          found = found;
          starts = e;
          ends = f;
          reads = g;
          writes =
              written (rw (e, with_start, f, with_end, g, with_data) at h)
                (replace_first-reference content (trim_space found) before rest path tail e f);
        }
      ]
    ]
  ]

  -- A pass takes a dollar sign away, unless the file's text brings one.
  Pass-dollars :
      {content next : String} (p : Pass content next)
      → NoDollar p.found
      → dollars next < dollars content
  Pass-dollars {content} {next} p h =
      let middle =
        dollars-NoDollar (trim_space p.found) (AllChars-trim_space (λ n. n ≢ b'$') p.found h) in
      let tail = append "}" p.tail in
      rw
        (
          p.writes,
          cut-some marker content p.starts,
          cut-some "}" p.rest p.ends,
          dollars-append p.before (append (trim_space p.found) p.tail),
          dollars-append (trim_space p.found) p.tail,
          dollars-append p.before (append marker (append p.path tail)),
          dollars-append marker (append p.path tail),
          dollars-append p.path tail,
          dollars-append "}" p.tail,
          middle,
        )
        (omega arith)

  -- When no file that can be read has a dollar sign in it, and the fuel is more than the number of
  -- dollar signs of the text, then the loop comes to an end, with a text whose first reference, if
  -- it has one, cannot be read or is not closed.
  pub resolve_file_refs-Ends :
      ((path found : String) → read_file path ≡ some found → NoDollar found)
      → (fuel : ℕ) (content : String) → dollars content < fuel
      → (t : String) × (resolve_file_refs read_file fuel content ≡ some t)
        × (resolve_one read_file t ≡ none)
  unfolding resolve_file_refs
  resolve_file_refs-Ends h zero content k = absurd (omega arith)
  resolve_file_refs-Ends h (suc fuel) content k =
      elim (Option-cases (resolve_one read_file content)) [
        | inl e ↦ rw (e, resolve_file_refs) (content, refl, e)
        | inr (next, e) ↦
            let p = resolve_one-Pass content e in
            let fewer = Pass-dollars p (h p.path p.found p.reads) in
            rw (e, resolve_file_refs) (resolve_file_refs-Ends h fuel next (omega arith))
      ]

  -- When the file of the first reference of a text holds, between white space, a reference to
  -- itself, then the loop never comes to an end, however much fuel it is given.
  pub resolve_file_refs-loops :
      (content before rest path tail found : String)
      → cut marker content ≡ some (before, rest)
      → cut "}" rest ≡ some (path, tail)
      → read_file path ≡ some found
      → trim_space found ≡ reference path
      → (fuel : ℕ) → resolve_file_refs read_file fuel content ≡ none
  unfolding resolve_file_refs resolve_one with_start with_end with_data
  resolve_file_refs-loops content before rest path tail found a b c d zero = refl
  resolve_file_refs-loops content before rest path tail found a b c d (suc fuel) =
      rw (again, resolve_file_refs)
        (resolve_file_refs-loops content before rest path tail found a b c d fuel)
    where
      again : resolve_one read_file content ≡ some content
      again =
          rw (a, with_start, b, with_end, c, with_data, d)
            (ap some (
              replace_first-reference content (reference path) before rest path tail a b
              ∙ sym (content-pieces content before rest path tail a b)))
