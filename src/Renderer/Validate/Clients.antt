-- ===== src/Renderer/Validate/Clients.antt =====
-- What the validation of clients guarantees of the rendered clients.conf.
use freeradius_k8s_operator.Shared.{
  String, ◌≡◌, inl, inr, List, [], ◌∷◌, ◌++◌, map, eq_iff, is_empty, All, AllChars-imp, NotIn, ok,
  >>-eq-ok, Bool-cases,
}
use freeradius_k8s_operator.Renderer.Types.{ClientSpec}
use freeradius_k8s_operator.Renderer.Sanitize.{validate_identifier, validate_ip_or_cidr}
use freeradius_k8s_operator.Renderer.Sanitize.Safe.{
  IsBare, bare_stops, validate_identifier-IsBare, validate_ip_or_cidr-IsBare,
}
use freeradius_k8s_operator.Renderer.Validate.{validate_client_spec, unless_empty}
use freeradius_k8s_operator.Renderer.Clients.{render_clients}
use freeradius_k8s_operator.Renderer.Clients.Reader.{read_sections}
use freeradius_k8s_operator.Renderer.Clients.RoundTrip.{
  IsWord, IsReadable, section_of, local_sections, read_sections-render_clients,
}

bare-IsWord : (s : String) → IsBare s → IsWord s
bare-IsWord = AllChars-imp (NotIn bare_stops) (NotIn " \n") (λ n h. (h.0, (h.1.1.0, tt)))

optional-IsBare : (field s : String) → unless_empty (validate_identifier field) s ≡ ok tt → IsBare s
optional-IsBare field s h = elim (Bool-cases (is_empty s)) [
  | inl e ↦ rw ((eq_iff s "").0 e) tt
  | inr e ↦ validate_identifier-IsBare field s (rw e at h)
]

-- What the secret's reference must be, which the code does not check.
pub record IsChecked (c : ClientSpec) : Type 0 where
  pub valid : validate_client_spec c ≡ ok tt
  pub generated : c.raw_config ≡ ""
  pub secret_name : IsWord c.secret_ref.name
  pub secret_key : IsWord c.secret_ref.key

-- The three checks of a client without raw text.
client_parts :
    (c : ClientSpec)
    → c.raw_config ≡ ""
    → validate_client_spec c ≡ ok tt
    → IsBare c.name × IsBare c.ip × IsBare c.nas_type
unfolding validate_client_spec
client_parts c g h =
    let (n, rest) = >>-eq-ok (validate_identifier "client name" c.name) _ (rw g at h) in
    let (i, t) = >>-eq-ok (validate_ip_or_cidr "client IP" c.ip) _ rest in
    (
      validate_identifier-IsBare "client name" c.name n,
      validate_ip_or_cidr-IsBare "client IP" c.ip i,
      optional-IsBare "nastype" c.nas_type t,
    )

checked-IsReadable : (c : ClientSpec) → IsChecked c → IsReadable c
checked-IsReadable c h =
    let (n, i, t) = client_parts c h.generated h.valid in
    record {
      generated = h.generated;
      name = bare-IsWord c.name n;
      ip = bare-IsWord c.ip i;
      nas_type = bare-IsWord c.nas_type t;
      secret_name = h.secret_name;
      secret_key = h.secret_key;
    }

-- For clients that pass the validation and have no raw text, and whose secret references hold no
-- blank and no line break, a reader of the rendered file finds the two local clients and then, in
-- order, exactly one section for each client, with its name, address, secret reference and type.
pub read_sections-validated :
    (cs : List ClientSpec)
    → All IsChecked cs
    → read_sections (render_clients cs) ≡ local_sections ++ map section_of cs
read_sections-validated cs h = read_sections-render_clients cs (readable cs h)
  where
    readable : (ds : List ClientSpec) → All IsChecked ds → All IsReadable ds
    readable [] k = tt
    readable (d ∷ ds) (p, k) = (checked-IsReadable d p, readable ds k)
