-- ===== src/Api/Create.antt =====
-- `Instance.create`, `Instance.register` and `Instance.load` of src/beetroot/api.py.
use beetroot.Prelude.{
  Result, err, ℕ, String, Bool, false, Option, none, some, [], ◌∷◌, ◌&&◌, not, pos, ok, err,
  already_registered, lifecycle_with_config, config_exists, no_config, no_instance,
}
use beetroot.Prelude.Maybe.{is_some}
use beetroot.Prelude.Text.{◌+++◌}
use beetroot.Prelude.Actions.{Action, ◌>>=◌, ◌>>◌, return, given, refuse_if, rescue}
use beetroot.Dict.{Dict}
use beetroot.Ports.{resolve_ports}
use beetroot.Registry.Backend.{BackendConfig, ConfigClass, redroid, vm}
use beetroot.Registry.Rows.{InstanceMeta}
use beetroot.Registry.Operations.{add_allocating}
use beetroot.Config.Schema.{
  InstanceConfig, Lifecycle, durable, lifecycle_text, default_config, Binder, vm_binder,
  auto_binder, host_binder,
}
use beetroot.Disk.{FilePath, Disk, exists, is_file, mkdir, write_text, parent}
use beetroot.Api.{Machine, World, Instance, on_files, on_disk, look, load_yaml}
use beetroot.Disk.Layout.{instance_yaml}
use beetroot.Api.Names.{validate_instance_name}
use beetroot.Api.Staging.{
  get_row, check_directory_overlap, check_port_collisions, resolved_ports, stage_local,
  stage_network_soft, rollback_partial_create,
}

abbrev pub or_durable : Option Lifecycle → Lifecycle
or_durable none = durable
or_durable (some lifecycle) = lifecycle

abbrev pub effective_config : Option InstanceConfig → Option Lifecycle → InstanceConfig
effective_config (some cfg) lifecycle = cfg
effective_config none lifecycle = default_config (or_durable lifecycle)

abbrev pub lifecycle_line : Option Lifecycle → String
lifecycle_line none = ""
lifecycle_line (some lifecycle) = "lifecycle: " +++ lifecycle_text lifecycle +++ "\n"

unfoldable pub minimal_yaml : String
minimal_yaml = "api_version: 8\nandroid:\n  version: 14\n"

-- The last segment of a path.
abbrev pub base_name : FilePath → String
base_name [] = ""
base_name (a ∷ []) = a
base_name (a ∷ b ∷ p) = base_name (b ∷ p)

abbrev pub text_or : Option String → String → String
text_or none default = default
text_or (some text) default = text

module _ {T Text : Type 0} (m : Machine T Text) (classes : Dict ConfigClass) where
  -- the backend config of a directory
  abbrev pub backend_at : FilePath → Binder → BackendConfig
  backend_at root vm_binder = vm (m.show_path root)
  backend_at root auto_binder = redroid (m.show_path root) []
  backend_at root host_binder = redroid (m.show_path root) []

  unfoldable pub write_yaml : FilePath → InstanceConfig → Action Disk (Unit {0})
  unfolding mkdir write_text
  write_yaml path cfg = do
    mkdir m.denied (parent path)
    write_text m.denied path (m.dump_config cfg)

  -- The config file of a new instance.
  unfoldable pub write_config :
      FilePath → Option InstanceConfig → Option Lifecycle → Action Disk (Unit {0})
  unfolding write_text write_yaml minimal_yaml
  write_config path none lifecycle =
      write_text m.denied path (minimal_yaml +++ lifecycle_line lifecycle)
  write_config path (some cfg) lifecycle = write_yaml path cfg

  -- The steps of `create` and `register` that are rolled back together.
  unfoldable pub resolve_and_stage : Instance → ℕ → Action (World Text) (Unit {0})
  unfolding resolve_ports check_port_collisions stage_local
  resolve_and_stage inst index = do
    new_ports ← given (resolved_ports m classes (resolve_ports (pos index) inst.cfg.ports false))
    check_port_collisions m classes inst.name new_ports
    stage_local m classes inst

  -- Both constructors from the registration on.
  unfoldable pub enroll : Instance → Bool → T → Action (World Text) Instance
  unfolding add_allocating resolve_and_stage rollback_partial_create stage_network_soft
  enroll inst created_dir now = do
    index ← on_files (
        add_allocating m.platform classes inst.name none
          (some (backend_at inst.root inst.cfg.binder)) now)
    rescue (resolve_and_stage inst index)
        (rollback_partial_create m classes inst.name inst.root created_dir)
    stage_network_soft m classes inst
    return inst

  unfoldable pub create :
      String
      → Option String
      → Option InstanceConfig
      → Option Lifecycle
      → T
      → Action (World Text) Instance
  unfolding validate_instance_name get_row exists check_directory_overlap mkdir write_config enroll
  create name path cfg lifecycle now = do
    given (validate_instance_name name)
    refuse_if (is_some cfg && is_some lifecycle) lifecycle_with_config
    found ← get_row m classes name
    refuse_if (is_some found) already_registered
    let target_root = m.resolve (text_or path name)
    adopted ← look (exists (instance_yaml target_root))
    refuse_if adopted config_exists
    check_directory_overlap m classes target_root
    let effective_cfg = effective_config cfg lifecycle
    there ← look (exists target_root)
    on_disk (mkdir m.denied target_root)
    on_disk (write_config (instance_yaml target_root) cfg lifecycle)
    enroll (record { name = name; root = target_root; cfg = effective_cfg }) (not there) now

  unfoldable pub register : String → Option String → T → Action (World Text) Instance
  unfolding is_file validate_instance_name get_row check_directory_overlap load_yaml enroll
  register path name now = do
    let target_root = m.resolve path
    there ← look (is_file (instance_yaml target_root))
    refuse_if (not there) no_config
    let resolved_name = text_or name (base_name target_root)
    given (validate_instance_name resolved_name)
    found ← get_row m classes resolved_name
    refuse_if (is_some found) already_registered
    check_directory_overlap m classes target_root
    loaded ← look (load_yaml m (instance_yaml target_root))
    cfg ← given loaded
    enroll (record { name = resolved_name; root = target_root; cfg = cfg }) false now

  abbrev pub loaded_instance :
      String → FilePath → Result InstanceConfig → Action (World Text) Instance
  loaded_instance name root (err e) w = (err e, w)
  loaded_instance name root (ok cfg) w = (ok (record { name = name; root = root; cfg = cfg }), w)

  abbrev pub load_row : String → Option (InstanceMeta T) → Action (World Text) Instance
  load_row name none w = (err no_instance, w)
  load_row name (some meta) w = elim meta.backend [
    | redroid path stealth_paths ↦
        let root = m.resolve path in
        loaded_instance name root (load_yaml m (instance_yaml root) w.disk) w
    | _ ↦ (err no_instance, w)
  ]

  unfoldable pub load : String → Action (World Text) Instance
  unfolding get_row load_yaml
  load name = do found ← get_row m classes name; load_row name found
