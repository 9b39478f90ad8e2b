-- ===== src/Operator/Tests.antt =====
-- The theorems on the command, at one client whose secret's file holds a word and a line break, and
-- at a file that refers to itself.
mod Agreeing
use freeradius_k8s_operator.Shared.{
  ℕ, String, ◌≡◌, refl, subst, true, false, Option, none, some, List, [], ◌∷◌, ok, Result, Check,
  All, append, arith, Bool-cases, inl, inr, if◌then◌else◌, ◌==◌,
}
use freeradius_k8s_operator.Shared.Int.{pos}
use freeradius_k8s_operator.Api.Objects.{KubeTypes, RadiusCluster, RadiusClient, RadiusPolicy}
use freeradius_k8s_operator.Kube.{KubeError}
use freeradius_k8s_operator.Renderer.Types.{ClientSpec}
use freeradius_k8s_operator.Renderer.Clients.{render_clients}
use freeradius_k8s_operator.Renderer.Templates.{ipaddr_directive, contains_char}
use freeradius_k8s_operator.Operator.Refs.{
  cut, strip_prefix, marker, reference, trim_space, trim_left, trim_right, is_space, resolve_one,
  resolve_file_refs,
}
use freeradius_k8s_operator.Operator.Refs.Ends.{
  NoDollar, dollars, resolve_file_refs-Ends, resolve_file_refs-loops,
}
use freeradius_k8s_operator.Operator.Refs.Expands.{
  IsPlain, file_path, filled_clients, resolve_file_refs-render_clients,
}
use freeradius_k8s_operator.Operator.RenderClients.{
  CommandIo, selected, reader_spec, written, render_clients_to_file,
}
use freeradius_k8s_operator.Operator.RenderClients.Writes.{render_clients_to_file-Writes}

abbrev nas : RadiusClient
nas = record {
  meta = record { name = "nas1"; namespace = "radius" };
  spec = record {
    cluster_ref = "main";
    ip = "10.0.0.1";
    secret_ref = record { name = "nas"; key = "secret" };
    nas_type = "other";
    metadata = [];
    raw_config = "";
  };
  conditions = [];
}

abbrev stray : RadiusClient
stray = record nas { spec = record nas.spec { cluster_ref = "backup" } }

abbrev spec : ClientSpec
spec = record {
  name = "nas1";
  ip = "10.0.0.1";
  secret_ref = record { name = "nas"; key = "secret" };
  nas_type = "other";
  raw_config = "";
}

-- Every file holds the same text.
abbrev every_file : String → Option String
every_file path = some "s3cret\n"

trimmed : NoDollar (trim_space "s3cret\n")
unfolding trim_space
trimmed = omega arith

abbrev spec-IsPlain : IsPlain every_file spec
spec-IsPlain = record {
  generated = refl;
  name = omega arith;
  ip = omega arith;
  nas_type = omega arith;
  secret_name = omega arith;
  secret_key = omega arith;
  secret = "s3cret\n";
  reads = refl;
  plain = trimmed;
}

resolve_file_refs-render_clients_example :
    resolve_file_refs every_file 2 (render_clients (spec ∷ []))
    ≡ some (filled_clients every_file (spec ∷ []) (spec-IsPlain, tt))
resolve_file_refs-render_clients_example =
    resolve_file_refs-render_clients every_file (spec ∷ []) (spec-IsPlain, tt) 2 (omega arith)

IsAbsentOrPlain : Option String → Type 0
IsAbsentOrPlain none = Unit
IsAbsentOrPlain (some found) = NoDollar found

held : (found : String) → some "s3cret\n" ≡ some found → NoDollar found
unfolding IsAbsentOrPlain
held found e = subst IsAbsentOrPlain e (omega arith)

resolve_file_refs-Ends_example :
    (t : String) × (resolve_file_refs every_file 2 "secret = ${file:/run/a}" ≡ some t)
    × (resolve_one every_file t ≡ none)
resolve_file_refs-Ends_example =
    resolve_file_refs-Ends every_file (λ path found e. held found e) 2 "secret = ${file:/run/a}"
      (omega arith)

-- The file is a reference to itself.
abbrev itself : String → Option String
itself path = some (append "${file:" (append path "}\n"))

resolve_file_refs-loops_example : resolve_file_refs itself 1000 "secret = ${file:/run/a}" ≡ none
unfolding cut append trim_space
resolve_file_refs-loops_example =
    resolve_file_refs-loops itself "secret = ${file:/run/a}" "secret = " "/run/a}" "/run/a" ""
      "${file:/run/a}\n" refl refl refl refl 1000

-- A directory with one file to write.
abbrev io : CommandIo
io = record {
  World = String;
  list_clients = λ namespace w. ok (nas ∷ stray ∷ []);
  read_file = λ w. every_file;
  write_file = λ path content w. (content, ok tt);
}

only : selected "main" (nas ∷ stray ∷ []) ≡ spec ∷ []
unfolding selected
only = refl

render_clients_to_file-Writes_example :
    render_clients_to_file io 2 "radius" "main" "clients.conf" ""
    ≡ some (
        written io "clients.conf" (filled_clients every_file (spec ∷ []) (spec-IsPlain, tt), ok tt))
unfolding selected
render_clients_to_file-Writes_example =
    render_clients_to_file-Writes io 2 "radius" "main" "clients.conf" "" (nas ∷ stray ∷ [])
      (spec-IsPlain, tt) refl (omega arith)
