-- ===== src/Registry/Rows.antt =====
-- Rows of the registry: an `InstanceMeta`, the parse of a row with its salvage, and the document
-- that is written.
use beetroot.Prelude.{String, Option, none, some, [], ◌∷◌, ℤ, pos}
use beetroot.Prelude.Maybe.{◌>>=◌, ◌>>◌, require, or_else}
use beetroot.Dict.{Dict, insert}
use beetroot.Json.{Json, Fields, num, str, obj, end, field, field_get, only}
use beetroot.Registry.{Platform}
use beetroot.Registry.Backend.{
  BackendConfig, ConfigClass, opaque_backend, parse_backend_config, dump_backend_config,
}

pub record InstanceMeta (T : Type 0) : Type 0 where
  pub backend : BackendConfig
  pub index : ℤ
  pub created_at : T

abbrev pub schema_version : ℤ
schema_version = pos 3

-- `dict[str, object]` of a row's value, or of its backend; anything else is skipped.
abbrev pub object_of : Option Json → Option Fields
object_of (some (obj fs)) = some fs
object_of _ = none

-- {"backend": ..., "index": ..., "created_at": ...}, and the whole document
module _ {T : Type 0} (isoformat : T → String) where
  unfoldable pub row_to_json : InstanceMeta T → Json
  row_to_json meta = obj (
      field "backend" (obj (dump_backend_config meta.backend))
        (field "index" (num meta.index) (field "created_at" (str (isoformat meta.created_at)) end)))

  unfoldable pub rows_to_fields : Dict (InstanceMeta T) → Fields
  rows_to_fields [] = end
  rows_to_fields ((name, meta) ∷ rows) = field name (row_to_json meta) (rows_to_fields rows)

  unfoldable pub registry_to_json : Dict (InstanceMeta T) → Json
  registry_to_json rows =
      obj (field "version" (num schema_version) (field "instances" (obj (rows_to_fields rows)) end))

module _ {T Text : Type 0} (p : Platform T Text) where
  -- InstanceMeta.model_validate({**meta_dict, "backend": backend})
  unfoldable pub validate_meta : Fields → BackendConfig → Option (InstanceMeta T)
  unfolding field_get
  validate_meta meta_dict backend = do
    require (only ("backend" ∷ "index" ∷ "created_at" ∷ []) meta_dict)
    index ← field_get "index" meta_dict >>= p.int_of
    created_at ← field_get "created_at" meta_dict >>= p.datetime_of
    some (record { backend = backend; index = index; created_at = created_at })

  -- `none` stands for a RegistryRowError.
  unfoldable pub parse_row : Dict ConfigClass → Fields → Fields → Option (InstanceMeta T)
  parse_row classes meta_dict backend_raw =
      or_else
        (do
          backend ← parse_backend_config p.external_of classes backend_raw
          validate_meta meta_dict backend)
        (validate_meta meta_dict (opaque_backend backend_raw))

  -- The loop over `raw_instances`: `none` for a row that cannot be salvaged.
  unfoldable pub read_rows :
      Dict ConfigClass → Dict (InstanceMeta T) → Fields → Option (Dict (InstanceMeta T))
  unfolding field_get
  read_rows classes acc end = some acc
  read_rows classes acc (field name value rest) = elim (object_of (some value)) [
    | none ↦ read_rows classes acc rest
    | some meta_dict ↦ elim (object_of (field_get "backend" meta_dict)) [
      | none ↦ read_rows classes acc rest
      | some backend_raw ↦ elim (parse_row classes meta_dict backend_raw) [
        | none ↦ none
        | some meta ↦ read_rows classes (insert name meta acc) rest
      ]
    ]
  ]
