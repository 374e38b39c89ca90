-- ===== src/Registry/Tests/Document.antt =====
-- A registry file that the tests run on.
use beetroot.Prelude.{ℕ, ◌≡◌, refl, String, none, some, [], ◌∷◌, pos, nat_eq, int_eq, string_eq}
use beetroot.Dict.{Dict, lookup, insert}
use beetroot.Json.{Json, Fields, num, str, obj, end, field, field_get, dict_of, strings_of}
use beetroot.Registry.Backend.{
  redroid, external, unresolved, ConfigClass, external_class, in_tree_classes, parse_backend_config,
  validate, validate_redroid, validate_adb, validate_vm, opaque_backend, kind_of,
}
use beetroot.Registry.Rows.{InstanceMeta, read_rows, parse_row, validate_meta}
use beetroot.Registry.Storage.{
  Files, parse_registry, read, write, initialise, list_instances, needs_legacy_migration,
  backup_and_warn,
}
use beetroot.Registry.Reread.{HasInTree}
use beetroot.Registry.Transactions.{listed}
use beetroot.Registry.Tests.Sample.{sample}

abbrev pub classes : Dict ConfigClass
classes = ("vbox", external_class "VboxConfig" (some "vbox")) ∷ in_tree_classes

abbrev pub web : InstanceMeta String
web = record { backend = redroid "/srv/web" []; index = pos 0; created_at = "monday" }

abbrev pub box : InstanceMeta String
box = record {
  backend = external "vbox" (field "kind" (str "vbox") (field "ram" (num (pos 4)) end));
  index = pos 2;
  created_at = "tuesday";
}

-- An instance of a plugin that is not installed.
abbrev pub lost : InstanceMeta String
lost = record {
  backend = unresolved "cloud" (field "kind" (str "cloud") end);
  index = pos 5;
  created_at = "friday";
}

abbrev pub rows : Dict (InstanceMeta String)
rows = ("web", web) ∷ ("box", box) ∷ ("lost", lost) ∷ []

abbrev pub row_of : Fields → ℕ → String → Json
row_of backend index time = obj (
    field "index" (num (pos index))
      (field "backend" (obj backend) (field "created_at" (str time) end)))

abbrev pub document : Json
document = obj (
    field "version" (num (pos 3)) (
      field "instances"
        (obj (
          field "web"
            (row_of (field "kind" (str "redroid") (field "absolute_path" (str "/srv/web") end)) 0
              "monday")
            (field "box"
              (row_of (field "kind" (str "vbox") (field "ram" (num (pos 4)) end)) 2 "tuesday")
              (field "lost" (row_of (field "kind" (str "cloud") end) 5 "friday") end))))
        end))

abbrev pub files : Files Json
files = record { registry = some document; backup = none }

pub known : HasInTree classes
unfolding lookup
known = record { redroid_there = refl; adb_there = refl; vm_there = refl }

pub listed-rows : listed sample classes files ≡ rows
unfolding list_instances initialise read write parse_registry read_rows parse_row validate_meta
    parse_backend_config validate validate_redroid validate_adb validate_vm opaque_backend kind_of
    field_get dict_of strings_of lookup insert needs_legacy_migration backup_and_warn
listed-rows = refl

pub listed-web : lookup "web" (listed sample classes files) ≡ some web
unfolding lookup
listed-web = rw listed-rows refl
