-- ===== src/Api/Tests.antt =====
-- Instances on a small machine, on which every path is an entry of one directory.
use beetroot.Prelude.{
  String, ◌≡◌, refl, true, false, none, some, [], ◌∷◌, pos, ok, err, arith, Result, eq_iff,
  string_eq, nat_eq, int_eq, compose_failed, contains, if◌then◌else◌,
}
use beetroot.Prelude.Triples.{Ends}
use beetroot.Dict.{lookup, insert}
use beetroot.Json.{Json, num, str, obj, end, field, field_get, dict_of, strings_of}
use beetroot.Registry.Backend.{
  redroid, vm, parse_backend_config, validate, validate_redroid, validate_adb, validate_vm,
  opaque_backend, kind_of,
}
use beetroot.Registry.Rows.{InstanceMeta, read_rows, parse_row, validate_meta}
use beetroot.Registry.Storage.{
  parse_registry, read, initialise, list_instances, needs_legacy_migration, backup_and_warn,
}
use beetroot.Registry.Transactions.{listed}
use beetroot.Registry.Tests.Sample.{sample}
use beetroot.Registry.Tests.Document.{classes, row_of, known}
use beetroot.Config.Schema.{default_config, durable, ephemeral}
use beetroot.Disk.{is_file, FilePath, Disk, directory as folder, file, same_path}
use beetroot.Api.{load_yaml, Machine, World, Instance}
use beetroot.Api.Create.{create, register}
use beetroot.Api.Lifecycle.{destroy, reset, apply}
use beetroot.Api.Enroll.{Lists, Elsewhere}
use beetroot.Api.Admission.{Admitted, Adopted}
use beetroot.Api.Outcomes.{create_lem, register_lem}
use beetroot.Api.Endings.{Gone, Failed, destroy_lem}
use beetroot.Api.Calls.{creation, run}
use beetroot.Api.Separate.{roots}
use beetroot.Api.Manager.{list_loadable, list_orphans}
use beetroot.Api.Partition.{names}
use beetroot.Api.Listings.{list_loadable-list_orphans}
use beetroot.Api.Apart.{Apart, run-Apart}
use beetroot.Api.Peers.{destroy-reset-apply-peer}

abbrev pub place : String → FilePath
place s = "srv" ∷ s ∷ []

abbrev pub last_of : FilePath → String
last_of (a ∷ b ∷ p) = b
last_of _ = ""

abbrev pub machine : Machine String Json
machine = record {
  platform = sample;
  resolve = place;
  show_path = last_of;
  resolve-show_path = λ s. refl;
  parse_config = λ text. some (default_config durable);
  dump_config = λ cfg. "api_version: 8\n";
  render_node = false;
  denied = λ path. false;
  fetch_frida = λ root frida binder disk. (ok tt, disk);
  fetch_modules = λ root cfg disk. (ok tt, disk);
  fetch_frida-outside = λ root frida binder disk q h. refl;
  fetch_modules-outside = λ root cfg disk q h. refl;
}

abbrev pub web : InstanceMeta String
web = record { backend = redroid "web" []; index = pos 0; created_at = "monday" }

abbrev db : InstanceMeta String
db = record { backend = vm "db"; index = pos 1; created_at = "tuesday" }

abbrev pub document : Json
document = obj (
    field "version" (num (pos 3)) (
      field "instances"
        (obj (
          field "web"
            (row_of (field "kind" (str "redroid") (field "absolute_path" (str "web") end)) 0
              "monday")
            (field "db"
              (row_of (field "kind" (str "vm") (field "absolute_path" (str "db") end)) 1 "tuesday")
              end)))
        end))

-- Two instances, each with its config.
abbrev pub disk : Disk
disk q =
    if same_path q []
    then some folder
    else if same_path q ("srv" ∷ [])
    then some folder
    else if same_path q (place "web")
    then some folder
    else if same_path q (place "db")
    then some folder
    else if same_path q ("srv" ∷ "web" ∷ "beetroot.yaml" ∷ [])
    then some (file "api_version: 8\n")
    else none

abbrev pub world : World Json
world = record { files = record { registry = some document; backup = none }; disk = disk }

listed-both : listed sample classes world.files ≡ ("web", web) ∷ ("db", db) ∷ []
unfolding list_instances initialise read parse_registry read_rows parse_row validate_meta
    parse_backend_config validate validate_redroid validate_adb validate_vm opaque_backend kind_of
    field_get dict_of strings_of lookup insert needs_legacy_migration backup_and_warn
listed-both = refl

pub listed-web : lookup "web" (listed sample classes world.files) ≡ some web
unfolding lookup
listed-web = rw listed-both refl

listed-db : lookup "db" (listed sample classes world.files) ≡ some db
unfolding lookup
listed-db = rw listed-both refl

apart : Apart machine classes world
unfolding roots
apart = rw listed-both ((ground (arith, eq_iff "web" "db"), tt), (tt, tt))

abbrev web_instance : Instance
web_instance = record { name = "web"; root = place "web"; cfg = default_config ephemeral }

create_lem_example :
    let rows = listed sample classes world.files in
    let inst : Instance = record {
      name = "new";
      root = place "new";
      cfg = default_config ephemeral;
    } in
    Ends
      (λ out w'.
        Admitted machine classes rows inst "today" out w'
        × Elsewhere machine classes inst.root world w')
      (λ e w'. Lists machine classes rows w' × Elsewhere machine classes inst.root world w')
      (create machine classes "new" none none (some ephemeral) "today" world)
create_lem_example = create_lem machine classes known "new" none none (some ephemeral) "today" world

register_lem_example :
    let rows = listed sample classes world.files in
    Ends
      (λ out w'.
        Adopted machine classes rows known "today" "web" (place "web") out w'
        × Elsewhere machine classes (place "web") world w')
      (λ e w'. Lists machine classes rows w' × Elsewhere machine classes (place "web") world w')
      (register machine classes "web" none "today" world)
register_lem_example = register_lem machine classes known "web" none "today" world

destroy_lem_example :
    let rows = listed sample classes world.files in
    Ends
      (λ _ w'.
        ((◌≡◌ {A = Result (Unit {0})} (err compose_failed) (ok tt))
          × Gone machine classes known web_instance (err compose_failed) rows w')
        × Elsewhere machine classes (place "web") world w')
      (λ e w'.
        Failed machine classes known web_instance (err compose_failed) rows e w'
        × Elsewhere machine classes (place "web") world w')
      (destroy machine classes web_instance true (err compose_failed) world)
destroy_lem_example = destroy_lem machine classes known web_instance (err compose_failed) world

run-Apart_example :
    Apart machine classes (run machine classes (creation "new" none none none "today") world).1
run-Apart_example =
    run-Apart machine classes known (creation "new" none none none "today") world apart

destroy-reset-apply-peer_example :
    ((destroy machine classes web_instance true (ok tt) world).1.disk (place "db")
      ≡ world.disk (place "db"))
    × ((reset machine classes web_instance true (ok tt) world).1.disk (place "db")
        ≡ world.disk (place "db"))
    × ((apply machine classes web_instance world).1.disk (place "db") ≡ world.disk (place "db"))
destroy-reset-apply-peer_example =
    destroy-reset-apply-peer machine classes world web_instance "db" "web" "db" web db true (ok tt)
      (place "db") apart listed-web refl refl listed-db refl (ground (arith, eq_iff "web" "db"))
      refl

list_loadable-list_orphans_example :
    Ends
      (λ insts v. contains "web" (names insts) ≡ true)
      (λ e v. ⊥)
      (list_loadable machine classes world)
    × Ends
        (λ orphans v. contains "web" orphans ≡ false)
        (λ e v. ⊥)
        (list_orphans machine classes world)
unfolding is_file load_yaml
list_loadable-list_orphans_example =
    list_loadable-list_orphans machine classes known "web" "web" web world listed-web refl
