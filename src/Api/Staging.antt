-- ===== src/Api/Staging.antt =====
-- What an instance's directory gets (`Instance._stage_local` and `_stage_network` of
-- src/beetroot/api.py), and the checks before a directory is registered.
use beetroot.Prelude.{
  String, Bool, true, false, Option, none, some, List, [], ◌&&◌, ◌||◌, not, ◌==◌, string_eq, ok,
  Result, no_instance, directory_overlap, any,
}
use beetroot.Prelude.Maybe.{is_some}
use beetroot.Prelude.Actions.{Action, ◌>>=◌, ◌>>◌, given, refuse_if}
use beetroot.Dict.{Dict, values}
use beetroot.Ports.{Resolution, ResolvedPort, resolve_ports}
use beetroot.Registry.Backend.{BackendConfig, ConfigClass, redroid}
use beetroot.Registry.Rows.{InstanceMeta}
use beetroot.Registry.Storage.{Files, list_instances}
use beetroot.Registry.Operations.{directory, get, remove}
use beetroot.Registry.Collisions.{assert_no_port_collision}
use beetroot.Config.Schema.{Frida}
use beetroot.Config.Render.{render_env, render_compose_ports_override}
use beetroot.Disk.{FilePath, Disk, Entry, file, exists, mkdir, write_text, parent, rmtree}
use beetroot.Disk.Paths.{overlaps}
use beetroot.Api.{Machine, World, Instance, on_files, on_disk, when_disk, load_ports_at}
use beetroot.Disk.Layout.{
  instance_compose_override, instance_data, instance_env, instance_frida, instance_modules,
}

-- backend.stealth_paths, or none where the backend is no redroid one
abbrev pub stealth_paths_of : BackendConfig → Dict String
stealth_paths_of (redroid path stealth_paths) = stealth_paths
stealth_paths_of _ = []

-- frida_path.exists() and frida_path.stat().st_size > 0
abbrev pub is_real_binary : Option Entry → Bool
is_real_binary (some (file text)) = not (text == "")
is_real_binary none = false
is_real_binary _ = true

abbrev pub needs_placeholder : Instance → Disk → Bool
needs_placeholder inst disk =
    not (is_some inst.cfg.frida) || not (is_real_binary (disk (instance_frida inst.root)))

module _ {T Text : Type 0} (m : Machine T Text) (classes : Dict ConfigClass) where
  abbrev pub found_row :
      Option (InstanceMeta T) × Files Text → Result (Option (InstanceMeta T)) × Files Text
  found_row (row, files) = (ok row, files)

  -- registry.get(name)
  unfoldable pub get_row : String → Action (World Text) (Option (InstanceMeta T))
  unfolding get
  get_row name = on_files (λ files. found_row (get m.platform classes name files))

  abbrev pub row_or_raise : Option (InstanceMeta T) → Action (World Text) (InstanceMeta T)
  row_or_raise none w = (Result.err no_instance, w)
  row_or_raise (some meta) w = (ok meta, w)

  -- Instance._meta
  unfoldable pub meta_of : String → Action (World Text) (InstanceMeta T)
  unfolding get_row
  meta_of name = do found ← get_row name; row_or_raise found

  abbrev pub overlapping : FilePath → InstanceMeta T → Bool
  overlapping target meta = elim (directory meta.backend) [
    | none ↦ false
    | some path ↦ overlaps (m.resolve path) target
  ]

  abbrev pub listed_rows :
      Dict (InstanceMeta T) × Files Text → Result (Dict (InstanceMeta T)) × Files Text
  listed_rows (rows, files) = (ok rows, files)

  -- registry.list_instances()
  unfoldable pub all_rows : Action (World Text) (Dict (InstanceMeta T))
  unfolding list_instances
  all_rows = on_files (λ files. listed_rows (list_instances m.platform classes files))

  -- _check_directory_overlap
  unfoldable pub check_directory_overlap : FilePath → Action (World Text) (Unit {0})
  unfolding all_rows
  check_directory_overlap target = do
    rows ← all_rows
    refuse_if (any (overlapping target) (values rows)) directory_overlap

  abbrev pub resolved_ports : Result Resolution → Result (List ResolvedPort)
  resolved_ports (Result.err e) = Result.err e
  resolved_ports (ok resolution) = ok resolution.ports

  -- _check_port_collisions
  unfoldable pub check_port_collisions : String → List ResolvedPort → Action (World Text) (Unit {0})
  unfolding assert_no_port_collision load_ports_at
  check_port_collisions name new_ports w =
      on_files (assert_no_port_collision m.platform classes (load_ports_at m w.disk) name new_ports)
        w

  -- frida_download.stage_empty
  unfoldable pub stage_empty : FilePath → Action Disk (Unit {0})
  unfolding mkdir write_text
  stage_empty root = do
    mkdir m.denied (parent (instance_frida root))
    write_text m.denied (instance_frida root) ""

  unfoldable pub stage_local : Instance → Action (World Text) (Unit {0})
  unfolding meta_of resolve_ports mkdir write_text stage_empty
  stage_local inst = do
    meta ← meta_of inst.name
    new_ports ← given (resolved_ports (resolve_ports meta.index inst.cfg.ports false))
    on_disk (mkdir m.denied (instance_data inst.root))
    on_disk (mkdir m.denied (instance_modules inst.root))
    on_disk (
        write_text m.denied (instance_env inst.root)
          (render_env m.render_node inst.name inst.cfg (stealth_paths_of meta.backend)))
    on_disk (
        write_text m.denied (instance_compose_override inst.root)
          (render_compose_ports_override new_ports))
    when_disk (needs_placeholder inst) (on_disk (stage_empty inst.root))

  -- `if self._cfg.frida is not None`
  abbrev pub frida_step : Option Frida → Instance → Action (World Text) (Unit {0})
  frida_step none inst w = (ok tt, w)
  frida_step (some frida) inst w = on_disk (m.fetch_frida inst.root frida inst.cfg.binder) w

  unfoldable pub stage_network : Instance → Action (World Text) (Unit {0})
  stage_network inst = do
    frida_step inst.cfg.frida inst
    on_disk (m.fetch_modules inst.root inst.cfg)

  -- Every exception of the network stage is swallowed, with a hint.
  unfoldable pub stage_network_soft : Instance → Action (World Text) (Unit {0})
  unfolding stage_network
  stage_network_soft inst w = (ok tt, (stage_network inst w).1)

  -- _rollback_partial_create
  unfoldable pub rollback_partial_create : String → FilePath → Bool → Action (World Text) (Unit {0})
  unfolding remove exists rmtree
  rollback_partial_create name target created_dir = do
    on_files (remove m.platform classes name)
    when_disk (λ disk. created_dir && exists target disk) (on_disk (rmtree m.denied target))
