-- ===== src/Registry/Storage.antt =====
-- The registry file: reading with the backup of a file that cannot be used, writing, and the
-- critical section of an operation.
use beetroot.Prelude.{Bool, true, false, Option, none, some, [], Result, ok, err, if◌then◌else◌}
use beetroot.Dict.{Dict}
use beetroot.Json.{Json, Fields, obj, end, field_get, equals_nat}
use beetroot.Registry.{Platform}
use beetroot.Registry.Backend.{ConfigClass}
use beetroot.Registry.Rows.{InstanceMeta, object_of, read_rows, registry_to_json}

-- `instances.json` and `instances.json.bak`, each with its text if it is there.
pub record Files (Text : Type 0) : Type 0 where
  pub registry : Option Text
  pub backup : Option Text

-- json.loads(text).get("version") == SCHEMA_VERSION, for the fields of a document that is an object
abbrev pub is_current : Option Json → Bool
is_current none = false
is_current (some v) = equals_nat v 3

-- raw.get("instances", {}), or {} if that is no dict
abbrev pub instances_of : Option Json → Fields
instances_of (some (obj fs)) = fs
instances_of _ = end

module _ {Text : Type 0} where
  -- The rename of a text that was read; the file it came from is gone.
  unfoldable pub backup_and_warn : Files Text → Files Text
  backup_and_warn files = record { registry = none; backup = files.registry }

module _ {T Text : Type 0} (p : Platform T Text) (classes : Dict ConfigClass) where
  -- The rows of a text; `none` where `_read` backs the file up.
  unfoldable pub parse_registry : Text → Option (Dict (InstanceMeta T))
  unfolding field_get
  parse_registry text = elim (object_of (p.loads text)) [
    | none ↦ none
    | some raw ↦
        if is_current (field_get "version" raw)
        then read_rows p classes [] (instances_of (field_get "instances" raw))
        else none
  ]

  -- _needs_legacy_migration
  unfoldable pub needs_legacy_migration : Files Text → Bool
  unfolding field_get
  needs_legacy_migration files = elim files.registry [
    | none ↦ false
    | some text ↦ elim (object_of (p.loads text)) [
      | none ↦ true
      | some raw ↦ if is_current (field_get "version" raw) then false else true
    ]
  ]

  abbrev pub Rows : Type 0
  Rows = Dict (InstanceMeta T)

  -- _read
  unfoldable pub read : Files Text → Rows × Files Text
  unfolding backup_and_warn
  read files = elim files.registry [
    | none ↦ ([], files)
    | some text ↦ elim (parse_registry text) [
      | none ↦ ([], backup_and_warn files)
      | some rows ↦ (rows, files)
    ]
  ]

  -- _write
  unfoldable pub write : Rows → Files Text → Files Text
  write rows files = record files { registry = some (p.dumps (registry_to_json p.isoformat rows)) }

  -- The first exclusive lock writes an empty document.
  unfoldable pub initialise : Files Text → Files Text
  unfolding write
  initialise files = elim files.registry [ none ↦ write [] files | some text ↦ files ]

  -- list_instances: both of its paths read the file as it stands under the lock.
  unfoldable pub list_instances : Files Text → Rows × Files Text
  unfolding read initialise needs_legacy_migration
  list_instances files = elim files.registry [
    | none ↦ ([], files)
    | some text ↦ if needs_legacy_migration files then read (initialise files) else read files
  ]

  -- `with _locked(path): data = _read(path); ...`, for a body that returns a value and, if it
  -- writes, the rows to write. An exception leaves what the read has done.
  unfoldable pub transact {ℓ} :
      {A : Type ℓ} → (Rows → Result (A × Option Rows)) → Files Text → Result A × Files Text
  transact body files =
      let (rows, files') = read (initialise files) in
      elim (body rows) [
        | err e ↦ (err e, files')
        | ok (a, none) ↦ (ok a, files')
        | ok (a, some rows') ↦ (ok a, write rows' files')
      ]
