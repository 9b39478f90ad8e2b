-- ===== src/Renderer/Files.antt =====
-- `ConfigFiles`, the map from file names to contents, as an association list.
pub mod Laws
use freeradius_k8s_operator.Shared.{
  String, Bool, false, List, [], ◌∷◌, Option, none, some, if◌then◌else◌, ◌==◌,
}

abbrev pub ConfigFiles : Type 0
ConfigFiles = List (String × String)

-- `files[k]`
unfoldable pub lookup : String → ConfigFiles → Option String
lookup k [] = none
lookup k ((j, v) ∷ m) = if j == k then some v else lookup k m

-- `files[k] = v`
unfoldable pub assign : String → String → ConfigFiles → ConfigFiles
assign k v [] = (k, v) ∷ []
assign k v ((j, w) ∷ m) = if j == k then (k, v) ∷ m else (j, w) ∷ assign k v m

-- `for k, v := range from { files[k] = v }`; the keys of a map are distinct, so the order of the
-- iteration does not matter.
unfoldable pub assign_all : ConfigFiles → ConfigFiles → ConfigFiles
assign_all [] files = files
assign_all ((k, v) ∷ from) files = assign k v (assign_all from files)
