-- ===== src/Operator/Refs/Expands.antt =====
-- What the loop makes of the rendered clients: the same text, with the secrets in it.
use freeradius_k8s_operator.Shared.{
  ℕ, zero, suc, ◌≤◌, ◌<◌, Option-cases, unlines-append, String, ◌≡◌, ◌≢◌, refl, sym, ap, ◌∙◌, List,
  [], ◌∷◌, ◌++◌, Option, some, append, concat, unlines, length, append_assoc_text, All, AllChars,
  AllChars-append, AllChars-concat, append_assoc, arith, inl, inr,
}
use freeradius_k8s_operator.Renderer.Types.{ClientSpec, SecretRef}
use freeradius_k8s_operator.Renderer.Templates.{
  ipaddr_directive, ipaddr_directive_cases, secret_file_path,
}
use freeradius_k8s_operator.Renderer.Clients.{
  clients_head, client_lines, client_block, all_client_lines, render_clients,
}
use freeradius_k8s_operator.Operator.Refs.{
  cut, marker, reference, trim_space, with_data, with_end, with_start, resolve_one,
  resolve_file_refs,
}
use freeradius_k8s_operator.Operator.Refs.Cuts.{cut-append, cut-absent, replace_first-reference}
use freeradius_k8s_operator.Operator.Refs.Ends.{NoDollar}

-- Where the pod has the secret's file.
abbrev pub file_path : SecretRef → String
file_path ref = concat ("/etc/freeradius/secrets/" ∷ ref.name ∷ "/" ∷ ref.key ∷ [])

-- The block of a client with the given text for the secret.
abbrev pub block_with : String → ClientSpec → List String
block_with secret c =
    concat ("client " ∷ c.name ∷ " {" ∷ [])
    ∷ concat ("    " ∷ ipaddr_directive c.ip ∷ " = " ∷ c.ip ∷ [])
    ∷ append "    secret = " secret
    ∷ concat ("    nastype = " ∷ c.nas_type ∷ [])
    ∷ "}"
    ∷ ""
    ∷ []

abbrev opening_pieces : ClientSpec → List String
opening_pieces c =
    "client " ∷ c.name ∷ " {\n    " ∷ ipaddr_directive c.ip ∷ " = " ∷ c.ip ∷ "\n    secret = " ∷ []

opening : ClientSpec → String
opening c = concat (opening_pieces c)

abbrev closing_pieces : ClientSpec → List String
closing_pieces c = "\n    nastype = " ∷ c.nas_type ∷ "\n}\n\n" ∷ []

closing : ClientSpec → String
closing c = concat (closing_pieces c)

abbrev path_pieces : SecretRef → List String
path_pieces ref = "/etc/freeradius/secrets/" ∷ ref.name ∷ "/" ∷ ref.key ∷ []

unlines-block_with :
    (secret : String) (c : ClientSpec) (ls : List String)
    → unlines (block_with secret c ++ ls)
      ≡ append (opening c) (append secret (append (closing c) (unlines ls)))
unfolding opening closing append
unlines-block_with secret c ls = simp append_assoc_text refl

client_lines-block_with :
    (c : ClientSpec)
    → c.raw_config ≡ ""
    → client_lines c ≡ block_with (reference (file_path c.secret_ref)) c
unfolding client_lines client_block secret_file_path append
client_lines-block_with c h = rw h (simp append_assoc_text refl)

module _ (read_file : String → Option String) where
  -- The texts of the client have no dollar sign, its secret's names no closing brace, and the file
  -- of its secret can be read and has no dollar sign.
  pub record IsPlain (c : ClientSpec) : Type 0 where
    pub generated : c.raw_config ≡ ""
    pub name : NoDollar c.name
    pub ip : NoDollar c.ip
    pub nas_type : NoDollar c.nas_type
    pub secret_name : AllChars (λ n. n ≢ b'}') c.secret_ref.name
    pub secret_key : AllChars (λ n. n ≢ b'}') c.secret_ref.key
    pub secret : String
    pub reads : read_file (file_path c.secret_ref) ≡ some secret
    pub plain : NoDollar (trim_space secret)

  -- The lines with the trimmed texts of the files in place of the references.
  abbrev pub filled_lines : (cs : List ClientSpec) → All IsPlain cs → List String
  filled_lines [] h = []
  filled_lines (c ∷ cs) (p, h) = block_with (trim_space p.secret) c ++ filled_lines cs h

  resolve_one-step :
      (before path tail found : String)
      → NoDollar before
      → AllChars (λ n. n ≢ b'}') path
      → read_file path ≡ some found
      → resolve_one read_file (append before (append (reference path) tail))
        ≡ some (append before (append (trim_space found) tail))
  unfolding resolve_one with_start with_end with_data append
  resolve_one-step before path tail found h k r =
      rw (starts, with_start, ends, with_end, r, with_data)
        (ap some
          (replace_first-reference content (trim_space found) before _ path tail starts ends))
    where
      content : String
      content = append before (append (reference path) tail)

      same : content ≡ append before (append marker (append path (append "}" tail)))
      same = rw (append_assoc_text path "}" tail) refl

      starts : cut marker content ≡ some (before, append path (append "}" tail))
      starts = ap (cut marker) same ∙ cut-append "$" "{file:" before _ h

      ends : cut "}" (append path (append "}" tail)) ≡ some (path, tail)
      ends = cut-append "}" "" path tail k

  -- One pass, with some fuel left.
  resolve-step :
      (fuel : ℕ) (before path tail found : String)
      → NoDollar before
      → AllChars (λ n. n ≢ b'}') path
      → read_file path ≡ some found
      → resolve_file_refs read_file (suc fuel) (append before (append (reference path) tail))
        ≡ resolve_file_refs read_file fuel (append before (append (trim_space found) tail))
  unfolding resolve_file_refs
  resolve-step fuel before path tail found h k r =
      rw (resolve_one-step before path tail found h k r, resolve_file_refs) refl

  resolve-last :
      (fuel : ℕ) (content : String)
      → NoDollar content
      → resolve_file_refs read_file (suc fuel) content ≡ some content
  unfolding resolve_file_refs resolve_one with_start
  resolve-last fuel content h =
      rw (cut-absent "$" "{file:" content h, with_start, resolve_file_refs) refl

  directive-NoDollar : (ip : String) → NoDollar (ipaddr_directive ip)
  directive-NoDollar ip = elim (ipaddr_directive_cases ip) [
    | inl e ↦ rw e (omega arith)
    | inr e ↦ rw e (omega arith)
  ]

  opening-NoDollar : (c : ClientSpec) → IsPlain c → NoDollar (opening c)
  unfolding opening
  opening-NoDollar c p =
      AllChars-concat (λ n. n ≢ b'$') (opening_pieces c)
        (
          omega arith,
          (
            p.name,
            (omega arith, (directive-NoDollar c.ip, (omega arith, (p.ip, (omega arith, tt))))),
          ),
        )

  closing-NoDollar : (c : ClientSpec) → IsPlain c → NoDollar (closing c)
  unfolding closing
  closing-NoDollar c p =
      AllChars-concat (λ n. n ≢ b'$') (closing_pieces c)
        (omega arith, (p.nas_type, (omega arith, tt)))

  file_path-closed :
      (c : ClientSpec) → IsPlain c → AllChars (λ n. n ≢ b'}') (file_path c.secret_ref)
  file_path-closed c p =
      AllChars-concat (λ n. n ≢ b'}') (path_pieces c.secret_ref)
        (omega arith, (p.secret_name, (omega arith, (p.secret_key, tt))))

  resolve-clients :
      (done : String) (cs : List ClientSpec) (h : All IsPlain cs)
      → NoDollar done
      → resolve_file_refs read_file
          (suc (length cs))
          (append done (unlines (all_client_lines cs ++ "" ∷ [])))
        ≡ some (append done (unlines (filled_lines cs h ++ "" ∷ [])))
  unfolding all_client_lines append
  resolve-clients done [] h k =
      resolve-last 0 (append done "\n") (AllChars-append (λ n. n ≢ b'$') done "\n" k (omega arith))
  resolve-clients done (c ∷ cs) (p, h) k =
      ap (resolve_file_refs read_file (suc (suc (length cs)))) start
      ∙ (resolve-step (suc (length cs)) (append done (opening c)) (file_path c.secret_ref)
            (append (closing c) (unlines ls)) p.secret
            (AllChars-append (λ n. n ≢ b'$') done (opening c) k (opening-NoDollar c p))
            (file_path-closed c p) p.reads
          ∙ (ap (resolve_file_refs read_file (suc (length cs))) regroup
              ∙ (resolve-clients done' cs h done'-NoDollar ∙ ap some finish)))
    where
      ls : List String
      ls = all_client_lines cs ++ "" ∷ []

      filled : List String
      filled = filled_lines cs h ++ "" ∷ []

      secret : String
      secret = trim_space p.secret

      done' : String
      done' = append (append (append done (opening c)) secret) (closing c)

      done'-NoDollar : NoDollar done'
      done'-NoDollar =
          AllChars-append (λ n. n ≢ b'$') (append (append done (opening c)) secret) (closing c)
            (AllChars-append (λ n. n ≢ b'$') (append done (opening c)) secret
              (AllChars-append (λ n. n ≢ b'$') done (opening c) k (opening-NoDollar c p)) p.plain)
            (closing-NoDollar c p)

      start :
          append done (unlines (all_client_lines (c ∷ cs) ++ "" ∷ []))
          ≡ append
              (append done (opening c))
              (append (reference (file_path c.secret_ref)) (append (closing c) (unlines ls)))
      start =
          ap (append done) (
            ap unlines (
              append_assoc (client_lines c) (all_client_lines cs) ("" ∷ [])
              ∙ ap (λ bs. bs ++ ls) (client_lines-block_with c p.generated))
            ∙ unlines-block_with (reference (file_path c.secret_ref)) c ls)
          ∙ sym (append_assoc_text done (opening c) _)

      regroup :
          append (append done (opening c)) (append secret (append (closing c) (unlines ls)))
          ≡ append done' (unlines ls)
      regroup = simp append_assoc_text refl

      finish :
          append done' (unlines filled)
          ≡ append done (unlines (filled_lines (c ∷ cs) (p, h) ++ "" ∷ []))
      finish =
          simp append_assoc_text refl
          ∙ ap (append done) (
              sym (unlines-block_with secret c filled)
              ∙ ap unlines (sym (append_assoc (block_with secret c) (filled_lines cs h) ("" ∷ []))))

  -- More fuel changes no result.
  resolve-more :
      (n m : ℕ) (content : String) {out : String}
      → n ≤ m
      → resolve_file_refs read_file n content ≡ some out
      → resolve_file_refs read_file m content ≡ some out
  unfolding resolve_file_refs
  resolve-more zero m content k h = cc
  resolve-more (suc n) zero content k h = absurd (omega arith)
  resolve-more (suc n) (suc m) content k h = elim (Option-cases (resolve_one read_file content)) [
    | inl e ↦ rw (e, resolve_file_refs) (rw (e, resolve_file_refs) at h)
    | inr (next, e) ↦
        rw (e, resolve_file_refs)
          (resolve-more n m next (omega arith) (rw (e, resolve_file_refs) at h))
  ]

  -- The text of clients.conf with the secrets in it.
  abbrev pub filled_clients : (cs : List ClientSpec) → All IsPlain cs → String
  filled_clients cs h = unlines (clients_head ++ (filled_lines cs h ++ "" ∷ []))

  -- When no client has a raw text, no name, address and type of a client and no trimmed text of a
  -- secret's file has a dollar sign, no name and key of a secret a closing brace, and the file of every
  -- client's secret can be read, then the loop, given more fuel than there are clients, returns the
  -- rendered clients with the trimmed text of each secret's file in place of its reference.
  pub resolve_file_refs-render_clients :
      (cs : List ClientSpec) (h : All IsPlain cs) (fuel : ℕ)
      → length cs < fuel
      → resolve_file_refs read_file fuel (render_clients cs) ≡ some (filled_clients cs h)
  unfolding render_clients clients_head append
  resolve_file_refs-render_clients cs h fuel k =
      resolve-more (suc (length cs)) fuel (render_clients cs) (omega arith) (
        ap (resolve_file_refs read_file (suc (length cs)))
          (unlines-append clients_head (all_client_lines cs ++ "" ∷ []))
        ∙ (resolve-clients (unlines clients_head) cs h (omega arith)
            ∙ ap some (sym (unlines-append clients_head (filled_lines cs h ++ "" ∷ [])))))
