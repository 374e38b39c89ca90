-- ===== src/Snapshot/Restore.antt =====
-- `restore` of src/beetroot/snapshot.py, with its rollback.
use beetroot.Prelude.{
  ℕ, String, Bool, true, false, not, Option, none, some, List, [], ◌∷◌, string_eq, Result, ok, err,
  pos, already_registered, occupied_target, file_target, vm_snapshot, no_config, port_collision,
}
use beetroot.Prelude.Maybe.{is_some}
use beetroot.Prelude.Actions.{Action, ◌>>=◌, ◌>>◌, return, given, refuse_if, rescue}
use beetroot.Dict.{Dict}
use beetroot.Ports.{ResolvedPort, resolve_ports}
use beetroot.Registry.Backend.{ConfigClass, redroid}
use beetroot.Registry.Operations.{add_allocating, set_stealth_paths}
use beetroot.Registry.Collisions.{all_resolved_host_ports, find_port_collision, without}
use beetroot.Config.Schema.{Binder, vm_binder, auto_binder, host_binder}
use beetroot.Disk.{FilePath, exists, is_file, mkdir, rmtree}
use beetroot.Disk.Layout.{instance_yaml}
use beetroot.Api.{Machine, World, Instance, on_files, on_disk, look, load_yaml, load_ports_at}
use beetroot.Api.Names.{validate_instance_name}
use beetroot.Api.Staging.{
  get_row, check_directory_overlap, resolved_ports, stage_local, stage_network_soft,
  rollback_partial_create,
}
use beetroot.Api.Create.{load}
use beetroot.Snapshot.{
  Manifest, Archive, Archiver, read_manifest, extract_members, max_extract_bytes,
}

-- cfg.binder == "vm"
abbrev pub is_vm : Binder → Bool
is_vm vm_binder = true
is_vm auto_binder = false
is_vm host_binder = false

abbrev pub is_empty : Dict String → Bool
is_empty [] = true
is_empty (entry ∷ d) = false

module _ {T Text : Type 0} (m : Machine T Text) (classes : Dict ConfigClass)
    (archiver : Archiver) where
  abbrev pub make_room : FilePath → Bool → Bool → Action (World Text) (Unit {0})
  make_room target force false w = (ok tt, w)
  make_room target force true w =
      (refuse_if (not force) occupied_target >> on_disk (rmtree m.denied target)) w

  -- _prepare_destination
  unfoldable pub prepare_destination : FilePath → Bool → Action (World Text) (Unit {0})
  unfolding is_file check_directory_overlap rmtree
  prepare_destination target force = do
    file_there ← look (is_file target)
    refuse_if file_there file_target
    occupied ← look (archiver.has_entries target)
    check_directory_overlap m classes target
    make_room target force occupied

  abbrev pub collided : Option (ℕ × String × String) → Result (Unit {0})
  collided none = ok tt
  collided (some (port, other, service)) = err (port_collision port other service)

  abbrev pub check_others : String → List ResolvedPort → Action (World Text) (Unit {0})
  check_others dest_name new_ports w =
      (do
        all_ports ← on_files (all_resolved_host_ports m.platform classes (load_ports_at m w.disk))
        given (collided (find_port_collision new_ports (without dest_name all_ports))))
        w

  -- _check_restored_port_collision
  unfoldable pub check_restored_port_collision :
      String → ℕ → FilePath → Action (World Text) (Unit {0})
  unfolding load_yaml resolve_ports all_resolved_host_ports find_port_collision without
      load_ports_at
  check_restored_port_collision dest_name index target = do
    loaded ← look (load_yaml m (instance_yaml target))
    cfg ← given loaded
    new_ports ← given (resolved_ports m classes (resolve_ports (pos index) cfg.ports false))
    check_others dest_name new_ports

  -- _extract_archive_into
  unfoldable pub extract_archive_into : Archive → FilePath → Action (World Text) (Unit {0})
  unfolding extract_members is_file
  extract_archive_into archive target = do
    total ←
        on_disk
          (extract_members archiver max_extract_bytes target 0 archive.members archive.damaged)
    there ← look (is_file (instance_yaml target))
    refuse_if (not there) no_config

  -- if manifest.path_layout: registry.set_stealth_paths(...)
  abbrev pub set_layout : String → Bool → Dict String → Action (World Text) (Unit {0})
  set_layout dest_name true layout w = (ok tt, w)
  set_layout dest_name false layout w =
      on_files (set_stealth_paths m.platform classes dest_name layout) w

  -- The steps of `restore` that are rolled back together.
  unfoldable pub unpack : Archive → Manifest → String → FilePath → ℕ → Action (World Text) Instance
  unfolding extract_archive_into load_yaml set_stealth_paths check_restored_port_collision load
      stage_local
  unpack archive manifest dest_name target index = do
    extract_archive_into archive target
    loaded ← look (load_yaml m (instance_yaml target))
    cfg ← given loaded
    refuse_if (is_vm cfg.binder) vm_snapshot
    set_layout dest_name (is_empty manifest.path_layout) manifest.path_layout
    check_restored_port_collision dest_name index target
    restored ← load m classes dest_name
    stage_local m classes restored
    return restored

  -- `restore` once there is room for the target.
  unfoldable pub commit : Archive → Manifest → String → FilePath → T → Action (World Text) FilePath
  unfolding exists mkdir add_allocating unpack rollback_partial_create stage_network_soft
  commit archive manifest dest_name target now = do
    there ← look (exists target)
    on_disk (mkdir m.denied target)
    index ← on_files (
        add_allocating m.platform classes dest_name none (some (redroid (m.show_path target) []))
          now)
    restored ←
        rescue (unpack archive manifest dest_name target index)
          (rollback_partial_create m classes dest_name target (not there))
    stage_network_soft m classes restored
    return target

  unfoldable pub restore : Archive → String → String → Bool → T → Action (World Text) FilePath
  unfolding validate_instance_name get_row read_manifest prepare_destination commit
  restore archive dest_name dest_path force now = do
    given (validate_instance_name dest_name)
    existing ← get_row m classes dest_name
    refuse_if (is_some existing) already_registered
    let target = m.resolve dest_path
    manifest ← given (read_manifest archiver archive)
    prepare_destination target force
    commit archive manifest dest_name target now
