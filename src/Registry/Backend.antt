-- ===== src/Registry/Backend.antt =====
-- Backend configs: the registry of config classes, and the parse and dump of a payload.
use beetroot.Prelude.{
  String, Bool, true, false, ◌&&◌, Option, none, some, [], ◌∷◌, ◌==◌, string_eq, option_eq, Result,
  ok, err, no_kind_default, kind_taken, if◌then◌else◌,
}
use beetroot.Prelude.Maybe.{◌>>=◌, ◌>>◌, require}
use beetroot.Dict.{Dict, lookup, insert}
use beetroot.Json.{
  Json, Fields, str, obj, end, field, field_get, only, string_of, dict_of, of_strings,
}

pub data BackendConfig : Type 0 where
  redroid : String → Dict String → BackendConfig
  adb : String → BackendConfig
  vm : String → BackendConfig
  external : String → Fields → BackendConfig
  unresolved : String → Fields → BackendConfig

-- A config class; one of another package has a name, and the default of its `kind` field.
pub data ConfigClass : Type 0 where
  redroid_class adb_class vm_class : ConfigClass
  external_class : String → Option String → ConfigClass

abbrev pub in_tree_classes : Dict ConfigClass
in_tree_classes = ("redroid", redroid_class) ∷ ("adb", adb_class) ∷ ("vm", vm_class) ∷ []

-- cls.model_fields["kind"].default
abbrev pub kind_default : ConfigClass → Option String
kind_default redroid_class = some "redroid"
kind_default adb_class = some "adb"
kind_default vm_class = some "vm"
kind_default (external_class name kind) = kind

-- `existing is cls`
abbrev pub same_class : ConfigClass → ConfigClass → Bool
same_class redroid_class redroid_class = true
same_class adb_class adb_class = true
same_class vm_class vm_class = true
same_class (external_class a k) (external_class b l) = a == b && k == l
same_class _ _ = false

abbrev claim :
    String → ConfigClass → Dict ConfigClass → Option ConfigClass → Result (Dict ConfigClass)
claim kind cls classes none = ok (insert kind cls classes)
claim kind cls classes (some existing) =
    if same_class existing cls then ok (insert kind cls classes) else err kind_taken

unfoldable pub register_backend_config : ConfigClass → Dict ConfigClass → Result (Dict ConfigClass)
register_backend_config cls classes = elim (kind_default cls) [
  | none ↦ err no_kind_default
  | some kind ↦ claim kind cls classes (lookup kind classes)
]

-- raw.get("kind", "") if that is a text, else ""
unfoldable pub kind_of : Fields → String
unfolding field_get
kind_of raw = elim (field_get "kind" raw >>= string_of) [ none ↦ "" | some kind ↦ kind ]

unfoldable pub opaque_backend : Fields → BackendConfig
unfolding kind_of
opaque_backend raw = unresolved (kind_of raw) raw

-- `kind: Literal[k] = k`
abbrev pub has_kind : String → Option Json → Bool
has_kind k (some (str s)) = s == k
has_kind k none = true
has_kind k _ = false

-- `stealth_paths: dict[str, str] = Field(default_factory=dict)`
abbrev pub stealth_of : Option Json → Option (Dict String)
stealth_of none = some []
stealth_of (some v) = dict_of v

unfoldable pub validate_redroid : Fields → Option BackendConfig
unfolding field_get dict_of
validate_redroid raw = do
  require (only ("kind" ∷ "absolute_path" ∷ "stealth_paths" ∷ []) raw)
  require (has_kind "redroid" (field_get "kind" raw))
  path ← field_get "absolute_path" raw >>= string_of
  stealth_paths ← stealth_of (field_get "stealth_paths" raw)
  some (redroid path stealth_paths)

unfoldable pub validate_adb : Fields → Option BackendConfig
unfolding field_get
validate_adb raw = do
  require (only ("kind" ∷ "serial" ∷ []) raw)
  require (has_kind "adb" (field_get "kind" raw))
  serial ← field_get "serial" raw >>= string_of
  some (adb serial)

unfoldable pub validate_vm : Fields → Option BackendConfig
unfolding field_get
validate_vm raw = do
  require (only ("kind" ∷ "absolute_path" ∷ []) raw)
  require (has_kind "vm" (field_get "kind" raw))
  path ← field_get "absolute_path" raw >>= string_of
  some (vm path)

module _ (external_of : String → Fields → Option Fields) where
  -- cls.model_validate(raw)
  unfoldable pub validate : ConfigClass → Fields → Option BackendConfig
  unfolding validate_redroid validate_adb validate_vm kind_of
  validate redroid_class raw = validate_redroid raw
  validate adb_class raw = validate_adb raw
  validate vm_class raw = validate_vm raw
  validate (external_class name kind) raw = do
    payload ← external_of name raw
    some (external (kind_of raw) payload)

  -- `none` stands for a ValidationError.
  unfoldable pub parse_backend_config : Dict ConfigClass → Fields → Option BackendConfig
  unfolding validate opaque_backend
  parse_backend_config classes raw = elim (lookup (kind_of raw) classes) [
    | none ↦ some (opaque_backend raw)
    | some cls ↦ validate cls raw
  ]

unfoldable pub dump_backend_config : BackendConfig → Fields
unfolding of_strings
dump_backend_config (redroid path stealth_paths) =
    field "kind" (str "redroid") (
      field "absolute_path" (str path) (field "stealth_paths" (obj (of_strings stealth_paths)) end))
dump_backend_config (adb serial) = field "kind" (str "adb") (field "serial" (str serial) end)
dump_backend_config (vm path) = field "kind" (str "vm") (field "absolute_path" (str path) end)
dump_backend_config (external kind payload) = payload
dump_backend_config (unresolved kind raw) = raw
