-- ===== src/Registry/Tests/Runs.antt =====
-- Runs of the registry's operations on concrete inputs.
use beetroot.Prelude.{
  eq_iff, ◌≡◌, ◌⊎◌, ◌||◌, refl, String, true, false, none, some, [], ◌∷◌, ◌++◌, pos, ok, err, ltb,
  already_registered, if◌then◌else◌, index_too_large, arith, nat_eq, int_eq, string_eq, ◌≤◌,
}
use beetroot.Dict.{Dict, lookup, member, insert}
use beetroot.Json.{Fields, num, str, obj, end, field, field_get}
use beetroot.Ports.{lowest_free_index, free_from, check_index, max_port_index}
use beetroot.Registry.Backend.{
  redroid, adb, vm, ConfigClass, adb_class, external_class, in_tree_classes, parse_backend_config,
  dump_backend_config, register_backend_config,
}
use beetroot.Registry.Rows.{InstanceMeta, parse_row}
use beetroot.Registry.Storage.{read, write}
use beetroot.Registry.Operations.{
  indices, add_row, add_allocating, remove, set_stealth_paths, reconcile_backend_kind, flipped,
  instance_path, get,
}
use beetroot.Registry.Reread.{reread_adb}
use beetroot.Registry.RoundTrip.{IsReadable}
use beetroot.Registry.Salvage.{parse_row_salvage, read-write-read}
use beetroot.Registry.Transactions.{listed}
use beetroot.Registry.Commits.{new_row, add_allocating_commits, remove_commits}
use beetroot.Registry.Updates.{reconcile_commits, set_stealth_paths_commits}
use beetroot.Registry.Invariant.{IsConsistent}
use beetroot.Registry.Reach.{Reach, start, next, added, Reach-IsConsistent}
use beetroot.Registry.Classes.{register_keeps}
use beetroot.Registry.Paths.{instance_path-add_allocating}
use beetroot.Registry.Tests.Document.{listed-rows, classes, web, rows, files, known, listed-web}
use beetroot.Registry.Tests.Sample.{sample}

adb-IsReadable :
    (meta : InstanceMeta String) → meta.backend ≡ adb "s1" → IsReadable sample classes meta
unfolding dump_backend_config
adb-IsReadable meta shape = record {
  again = rw shape (reread_adb sample classes known "s1");
  keyed = rw shape ((refl, (refl, tt)), (tt, (tt, tt)));
}

add_allocating_commits_example :
    let rows = listed sample classes files in
    let index = lowest_free_index (indices rows) in
    let (result, files') =
      add_allocating sample classes "new" none (some (adb "s1")) "today" files in
    (result ≡ (
      if member "new" rows
      then err already_registered
      else if ltb max_port_index index
      then err index_too_large
      else ok index))
    × (listed sample classes files' ≡ (
        if member "new" rows || ltb max_port_index index
        then rows
        else rows ++ ("new", new_row sample classes (adb "s1") "today" files) ∷ []))
add_allocating_commits_example =
    add_allocating_commits sample classes known "new" (adb "s1") "today" files
      (adb-IsReadable (new_row sample classes (adb "s1") "today" files) refl)

remove_commits_example :
    let (result, files') = remove sample classes "box" files in
    (result ≡ ok tt)
    × (member "box" (listed sample classes files') ≡ false)
    × (lookup "web" (listed sample classes files') ≡ lookup "web" (listed sample classes files))
remove_commits_example =
    remove_commits sample classes known "box" "web" files (ground (arith, eq_iff "web" "box"))

reconcile_commits_example :
    let (result, files') = reconcile_backend_kind sample classes "web" "vm" files in
    (result ≡ ok true)
    × (lookup "web" (listed sample classes files') ≡ some (record web { backend = vm "/srv/web" }))
    × (lookup "lost" (listed sample classes files') ≡ lookup "lost" (listed sample classes files))
unfolding flipped
reconcile_commits_example =
    reconcile_commits sample classes known "web" "vm" "lost" files web (vm "/srv/web") listed-web
      refl (ground (arith, eq_iff "lost" "web"))

abbrev paths : Dict String
paths = ("su", "/data/x") ∷ []

set_stealth_paths_commits_example :
    let (result, files') = set_stealth_paths sample classes "web" paths files in
    (result ≡ ok tt)
    × (lookup "web" (listed sample classes files')
        ≡ some (record web { backend = redroid "/srv/web" paths }))
    × (lookup "lost" (listed sample classes files') ≡ lookup "lost" (listed sample classes files))
set_stealth_paths_commits_example =
    set_stealth_paths_commits sample classes known "web" "lost" "/srv/web" [] paths files web
      (refl, tt) listed-web refl (ground (arith, eq_iff "lost" "web"))

read-write-read_example :
    let (rows, files') = read sample classes files in
    read sample classes (write sample classes rows files')
    ≡ (rows, write sample classes rows files')
read-write-read_example = read-write-read sample classes known files

-- A row whose redroid payload has no path.
abbrev broken : Fields
broken = field "kind" (str "redroid") (field "path" (str "/srv/web") end)

abbrev broken_row : Fields
broken_row =
    field "backend" (obj broken)
      (field "index" (num (pos 9)) (field "created_at" (str "sunday") end))

parse_row_salvage_example :
    (meta : InstanceMeta String) × (parse_row sample classes broken_row broken ≡ some meta)
    × (meta.index ≡ pos 9)
    × (meta.created_at ≡ "sunday")
    × ((parse_backend_config sample.external_of classes broken ≡ some meta.backend)
        ⊎ ((parse_backend_config sample.external_of classes broken ≡ none)
            × (dump_backend_config meta.backend ≡ broken)))
unfolding field_get
parse_row_salvage_example =
    parse_row_salvage sample classes broken_row broken (num (pos 9)) (str "sunday") (pos 9) "sunday"
      refl refl refl refl refl

abbrev two : Dict (InstanceMeta String)
two =
    ("web", web)
    ∷ ("phone", record { backend = adb "s1"; index = pos 1; created_at = "today" })
    ∷ []

add_web : add_row "web" (redroid "/srv/web" []) "monday" [] ≡ ok (0, some (("web", web) ∷ []))
unfolding add_row lowest_free_index free_from check_index insert
add_web = refl

add_phone : add_row "phone" (adb "s1") "today" (("web", web) ∷ []) ≡ ok (1, some two)
unfolding add_row lowest_free_index free_from check_index insert
add_phone = refl

reached : Reach two
reached =
    next (next start (added "web" (redroid "/srv/web" []) "monday" 0 add_web))
      (added "phone" (adb "s1") "today" 1 add_phone)

Reach-IsConsistent_example : IsConsistent two
Reach-IsConsistent_example = Reach-IsConsistent reached

abbrev with_cloud : Dict ConfigClass
with_cloud = ("cloud", external_class "CloudConfig" (some "cloud")) ∷ []

registered :
    register_backend_config (external_class "CloudConfig" (some "cloud")) in_tree_classes
    ≡ ok (in_tree_classes ++ with_cloud)
unfolding register_backend_config lookup insert
registered = refl

register_keeps_example :
    (lookup "cloud" (in_tree_classes ++ with_cloud)
      ≡ some (external_class "CloudConfig" (some "cloud")))
    × (lookup "adb" (in_tree_classes ++ with_cloud) ≡ some adb_class)
unfolding lookup
register_keeps_example =
    register_keeps (external_class "CloudConfig" (some "cloud")) in_tree_classes
      (in_tree_classes ++ with_cloud) "cloud" "adb" adb_class registered refl refl

not_listed : member "new" (listed sample classes files) ≡ false
not_listed = rw listed-rows refl

room : lowest_free_index (indices (listed sample classes files)) ≤ max_port_index
unfolding lowest_free_index free_from
room = rw listed-rows (ground arith)

instance_path-add_allocating_example :
    let index = lowest_free_index (indices (listed sample classes files)) in
    let (result, files') =
      add_allocating sample classes "new" (some "/srv/new") none "today" files in
    (result ≡ ok index)
    × ((instance_path sample classes "new" files').0 ≡ ok "/srv/new")
    × ((get sample classes "new" files').0
        ≡ some
            (record { backend = redroid "/srv/new" []; index = pos index; created_at = "today" }))
instance_path-add_allocating_example =
    instance_path-add_allocating sample classes known "new" "/srv/new" "today" files not_listed room
