-- ===== src/Renderer/Clients/RoundTrip.antt =====
-- Reading the rendered clients back.
use freeradius_k8s_operator.Shared.{
  ℕ, String, ◌≡◌, ◌≢◌, refl, ap, ◌∙◌, List, [], ◌∷◌, ◌++◌, map, none, some, concat, unlines, append,
  split_at, split_at-append, split_at_last, arith, All, All-append, AllChars, AllChars-append,
  AllChars-imp, NotIn, append_assoc, append-nil, inl, inr,
}
use freeradius_k8s_operator.Renderer.Types.{ClientSpec, SecretRef}
use freeradius_k8s_operator.Renderer.Templates.{
  ipaddr_directive, ipaddr_directive_cases, secret_file_path,
}
use freeradius_k8s_operator.Renderer.Clients.{
  clients_head, client_lines, all_client_lines, render_clients,
}
use freeradius_k8s_operator.Renderer.Clients.Reader.{
  Section, ReadState, words, read_words, read_lines, read_sections,
}

-- No blank and no line break.
abbrev pub IsWord : String → Type 0
IsWord = AllChars (NotIn " \n")

abbrev NoBreak : String → Type 0
NoBreak = AllChars (λ n. n ≢ b'\n')

split_at-unlines : (ls : List String) → All NoBreak ls → split_at b'\n' (unlines ls) ≡ ls ++ "" ∷ []
unfolding split_at append
split_at-unlines [] h = refl
split_at-unlines (l ∷ ls) (p, h) =
    split_at-append b'\n' "\n" l (unlines ls) p refl ∙ ap (◌∷◌ l) (split_at-unlines ls h)

word-blank : (s : String) → IsWord s → AllChars (λ n. n ≢ b' ') s
word-blank = AllChars-imp (NotIn " \n") _ (λ n h. h.0)

words-client :
    (name : String)
    → IsWord name
    → words (concat ("client " ∷ name ∷ " {" ∷ [])) ≡ "client" ∷ name ∷ "{" ∷ []
unfolding words append
words-client name h = rw (split_at-append b' ' " " name "{" (word-blank name h) refl)

-- An indented line `key = value`, for each key of a client's section.
module _ (v : String) (h : IsWord v) where
  words-ipaddr : words (concat ("    " ∷ "ipaddr" ∷ " = " ∷ v ∷ [])) ≡ "ipaddr" ∷ "=" ∷ v ∷ []
  unfolding words append
  words-ipaddr = rw (split_at_last b' ' v (word-blank v h))

  words-ipv6addr : words (concat ("    " ∷ "ipv6addr" ∷ " = " ∷ v ∷ [])) ≡ "ipv6addr" ∷ "=" ∷ v ∷ []
  unfolding words append
  words-ipv6addr = rw (split_at_last b' ' v (word-blank v h))

  words-nastype : words (concat ("    nastype = " ∷ v ∷ [])) ≡ "nastype" ∷ "=" ∷ v ∷ []
  unfolding words append
  words-nastype = rw (split_at_last b' ' v (word-blank v h))

secret-IsWord : (ref : SecretRef) → IsWord ref.name → IsWord ref.key → IsWord (secret_file_path ref)
unfolding secret_file_path
secret-IsWord ref h k = AllChars-append P _ _ (omega arith) (
    AllChars-append P ref.name _ h
      (AllChars-append P "/" _ (omega arith) (AllChars-append P ref.key _ k (omega arith))))
  where
    P : ℕ → Type 0
    P = NotIn " \n"

words-secret :
    (ref : SecretRef)
    → IsWord ref.name
    → IsWord ref.key
    → words (
        concat
          ("    secret = ${file:/etc/freeradius/secrets/" ∷ ref.name ∷ "/" ∷ ref.key ∷ "}" ∷ []))
      ≡ "secret" ∷ "=" ∷ secret_file_path ref ∷ []
unfolding words append secret_file_path
words-secret ref h k =
    ap (λ ws. "secret" ∷ "=" ∷ ws)
      (split_at_last b' ' (secret_file_path ref)
        (word-blank (secret_file_path ref) (secret-IsWord ref h k)))

words-close : words "}" ≡ "}" ∷ []
unfolding words
words-close = refl

words-empty : words "" ≡ "" ∷ []
unfolding words
words-empty = refl

-- What a client's section says.
pub section_of : ClientSpec → Section
section_of c = record {
  name = c.name;
  settings =
      (ipaddr_directive c.ip, c.ip)
      ∷ ("secret", secret_file_path c.secret_ref)
      ∷ ("nastype", c.nas_type)
      ∷ [];
}

-- The texts of a client that has no raw text are words.
pub record IsReadable (c : ClientSpec) : Type 0 where
  pub generated : c.raw_config ≡ ""
  pub name : IsWord c.name
  pub ip : IsWord c.ip
  pub nas_type : IsWord c.nas_type
  pub secret_name : IsWord c.secret_ref.name
  pub secret_key : IsWord c.secret_ref.key

abbrev after : List Section → ReadState
after done = record { closed = done; current = none }

abbrev within_section : List Section → Section → ReadState
within_section done s = record { closed = done; current = some s }

words-address :
    (ip : String)
    → IsWord ip
    → words (concat ("    " ∷ ipaddr_directive ip ∷ " = " ∷ ip ∷ []))
      ≡ ipaddr_directive ip ∷ "=" ∷ ip ∷ []
words-address ip h = elim (ipaddr_directive_cases ip) [
  | inl e ↦ rw e (words-ipv6addr ip h)
  | inr e ↦ rw e (words-ipaddr ip h)
]

read_address :
    (done : List Section) (s : Section) (ip : String)
    → read_words (within_section done s) (ipaddr_directive ip ∷ "=" ∷ ip ∷ [])
      ≡ within_section done (record s { settings = s.settings ++ (ipaddr_directive ip, ip) ∷ [] })
unfolding read_words
read_address done s ip = elim (ipaddr_directive_cases ip) [ inl e ↦ rw e | inr e ↦ rw e ]

read_block :
    (done : List Section) (c : ClientSpec) (rest : List String)
    → IsReadable c
    → read_lines (after done) (client_lines c ++ rest)
      ≡ read_lines (after (done ++ section_of c ∷ [])) rest
unfolding client_lines read_lines section_of
read_block done c rest h = rw (
  h.generated,
  words-client c.name h.name,
  words-address c.ip h.ip,
  read_address done (record { name = c.name; settings = [] }) c.ip,
  words-secret c.secret_ref h.secret_name h.secret_key,
  words-nastype c.nas_type h.nas_type,
  words-close,
  words-empty,
)

read-All :
    (done : List Section) (cs : List ClientSpec) (rest : List String)
    → All IsReadable cs
    → read_lines (after done) (all_client_lines cs ++ rest)
      ≡ read_lines (after (done ++ map section_of cs)) rest
unfolding all_client_lines
read-All done [] rest h = rw append-nil
read-All done (c ∷ cs) rest (p, h) =
    ap (read_lines (after done)) (append_assoc (client_lines c) (all_client_lines cs) rest)
    ∙ (read_block done c (all_client_lines cs ++ rest) p
        ∙ (read-All (done ++ section_of c ∷ []) cs rest h
            ∙ ap (λ l. read_lines (after l) rest)
                (append_assoc done (section_of c ∷ []) (map section_of cs))))

-- The sections of the two local clients that every file begins with.
pub local_sections : List Section
local_sections =
    record {
      name = "localhost";
      settings = ("ipaddr", "127.0.0.1") ∷ ("secret", "testing123") ∷ ("nastype", "other") ∷ [];
    }
    ∷ record {
      name = "localhost_v6";
      settings = ("ipv6addr", "::1") ∷ ("secret", "testing123") ∷ ("nastype", "other") ∷ [];
    }
    ∷ []

read_head :
    (rest : List String)
    → read_lines (after []) (clients_head ++ rest) ≡ read_lines (after local_sections) rest
unfolding clients_head read_lines words local_sections
read_head rest = refl

abbrev NotBreak : ℕ → Type 0
NotBreak n = n ≢ b'\n'

word-NoBreak : (s : String) → IsWord s → NoBreak s
word-NoBreak = AllChars-imp (NotIn " \n") NotBreak (λ n h. h.1.0)

-- A line between two fixed texts.
line-NoBreak :
    (a s b : String) → NoBreak a → IsWord s → NoBreak b → NoBreak (concat (a ∷ s ∷ b ∷ []))
line-NoBreak a s b h k l =
    AllChars-append NotBreak a _ h (AllChars-append NotBreak s b (word-NoBreak s k) l)

ipaddr_directive-IsWord : (ip : String) → IsWord (ipaddr_directive ip)
ipaddr_directive-IsWord ip = elim (ipaddr_directive_cases ip) [
  | inl e ↦ rw e (omega arith)
  | inr e ↦ rw e (omega arith)
]

client_lines-NoBreak : (c : ClientSpec) → IsReadable c → All NoBreak (client_lines c)
unfolding client_lines
client_lines-NoBreak c h = rw h.generated (
  line-NoBreak "client " c.name " {" (omega arith) h.name (omega arith),
  (
    line-NoBreak "    " (ipaddr_directive c.ip) (concat (" = " ∷ c.ip ∷ [])) (omega arith)
        (ipaddr_directive-IsWord c.ip)
        (AllChars-append NotBreak " = " c.ip (omega arith) (word-NoBreak c.ip h.ip)),
    (
      line-NoBreak "    secret = ${file:/etc/freeradius/secrets/" c.secret_ref.name
          (concat ("/" ∷ c.secret_ref.key ∷ "}" ∷ [])) (omega arith) h.secret_name
          (line-NoBreak "/" c.secret_ref.key "}" (omega arith) h.secret_key (omega arith)),
      (
        AllChars-append NotBreak "    nastype = " c.nas_type (omega arith)
            (word-NoBreak c.nas_type h.nas_type),
        (omega arith, (tt, tt)),
      ),
    ),
  ),
)

all_client_lines-NoBreak :
    (cs : List ClientSpec) → All IsReadable cs → All NoBreak (all_client_lines cs)
unfolding all_client_lines
all_client_lines-NoBreak [] h = tt
all_client_lines-NoBreak (c ∷ cs) (p, h) =
    All-append NoBreak (client_lines c) _ (client_lines-NoBreak c p) (all_client_lines-NoBreak cs h)

clients_head-NoBreak : All NoBreak clients_head
unfolding clients_head
clients_head-NoBreak = omega arith

read_blanks : (st : ReadState) → read_lines st ("" ∷ "" ∷ []) ≡ st
unfolding read_lines words
read_blanks st = refl

-- A reader of the rendered file finds the two local clients and then, in order, exactly one section
-- for each client, with its name, address, secret reference and type.
pub read_sections-render_clients :
    (cs : List ClientSpec)
    → All IsReadable cs
    → read_sections (render_clients cs) ≡ local_sections ++ map section_of cs
unfolding read_sections render_clients
read_sections-render_clients cs h =
    ap (λ ls. (read_lines (after []) ls).closed)
      (split_at-unlines _ (
          All-append NoBreak clients_head _ clients_head-NoBreak
            (All-append NoBreak (all_client_lines cs) _ (all_client_lines-NoBreak cs h) (tt, tt)))
        ∙ (append_assoc clients_head (all_client_lines cs ++ "" ∷ []) ("" ∷ [])
            ∙ ap (◌++◌ clients_head) (append_assoc (all_client_lines cs) ("" ∷ []) ("" ∷ []))))
    ∙ ap (λ (st : ReadState). st.closed)
        (read_head (all_client_lines cs ++ "" ∷ "" ∷ [])
          ∙ (read-All local_sections cs ("" ∷ "" ∷ []) h ∙ read_blanks _))
