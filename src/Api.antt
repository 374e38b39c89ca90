-- ===== src/Api.antt =====
-- Instances as the library API (src/beetroot/api.py) handles them: the state that it works on, and
-- the code around it.
pub mod Tests
mod Runs
pub mod Stable
pub mod Steps
pub mod Enroll
pub mod Admission
pub mod Isolation
pub mod Outcomes
pub mod Endings
pub mod Calls
pub mod Separate
pub mod Apart
pub mod Peers
pub mod Manager
pub mod Orphans
pub mod Partition
pub mod Listings
pub mod Names
pub mod Staging
pub mod Create
pub mod Lifecycle
use beetroot.Prelude.{
  String, ◌≡◌, Bool, true, false, Option, none, some, Result, ok, err, no_config, invalid_config,
}
use beetroot.Prelude.Actions.{Action, given}
use beetroot.Registry.{Platform}
use beetroot.Registry.Storage.{Files}
use beetroot.Registry.Collisions.{Loaded, missing, refused, loaded}
use beetroot.Config.Schema.{InstanceConfig, Frida, Binder}
use beetroot.Disk.Layout.{instance_yaml}
use beetroot.Disk.{FilePath, Disk, Entry, directory, file, child, under}

-- What the API calls. `resolve` and `show_path` are pathlib's `Path(text).resolve()` and `str(path)`
-- (no symbolic link is changed while a command runs); `parse_config` is what `load_yaml` makes of a
-- text, and `dump_config` the text that `write_yaml` writes; `render_node` tells whether /dev/dri
-- has a render node; `denied` are the paths whose change the system refuses; `fetch_frida` and
-- `fetch_modules` are the two `stage_for_instance` of the downloads, which fill an instance's
-- directory from the network or raise.
pub record Machine (T Text : Type 0) : Type 0 where
  pub platform : Platform T Text
  pub resolve : String → FilePath
  pub show_path : FilePath → String
  pub resolve-show_path : (s : String) → resolve (show_path (resolve s)) ≡ resolve s
  pub parse_config : String → Option InstanceConfig
  pub dump_config : InstanceConfig → String
  pub render_node : Bool
  pub denied : FilePath → Bool
  pub fetch_frida : FilePath → Frida → Binder → Action Disk (Unit {0})
  pub fetch_modules : FilePath → InstanceConfig → Action Disk (Unit {0})
  pub fetch_frida-outside :
      (root : FilePath) (frida : Frida) (binder : Binder) (disk : Disk) (q : FilePath)
      → under root q ≡ false
      → (fetch_frida root frida binder disk).1 q ≡ disk q
  pub fetch_modules-outside :
      (root : FilePath) (cfg : InstanceConfig) (disk : Disk) (q : FilePath)
      → under root q ≡ false
      → (fetch_modules root cfg disk).1 q ≡ disk q

-- The registry's files, and the part of the disk that holds the instances.
pub record World (Text : Type 0) : Type 0 where
  pub files : Files Text
  pub disk : Disk

-- class Instance: its attributes
pub record Instance : Type 0 where
  pub name : String
  pub root : FilePath
  pub cfg : InstanceConfig

module _ {Text : Type 0} where
  abbrev pub with_files {ℓ} :
      {A : Type ℓ} → World Text → Result A × Files Text → Result A × World Text
  with_files w (result, files) = (result, record w { files = files })

  -- a call of the registry
  abbrev pub on_files {ℓ} :
      {A : Type ℓ} → (Files Text → Result A × Files Text) → Action (World Text) A
  on_files m w = with_files w (m w.files)

  abbrev pub with_disk {ℓ} : {A : Type ℓ} → World Text → Result A × Disk → Result A × World Text
  with_disk w (result, disk) = (result, record w { disk = disk })

  -- a call on the file system
  abbrev pub on_disk {ℓ} : {A : Type ℓ} → Action Disk A → Action (World Text) A
  on_disk m w = with_disk w (m w.disk)

  abbrev pub look {ℓ} : {A : Type ℓ} → (Disk → A) → Action (World Text) A
  look test w = (ok (test w.disk), w)

  -- `if test: m`
  abbrev pub when : Bool → Action (World Text) (Unit {0}) → Action (World Text) (Unit {0})
  when true m w = m w
  when false m w = (ok tt, w)

  -- `if test: m`, for a test of the disk
  abbrev pub when_disk :
      (Disk → Bool) → Action (World Text) (Unit {0}) → Action (World Text) (Unit {0})
  when_disk test m w = when (test w.disk) m w

module _ {T Text : Type 0} (m : Machine T Text) where
  abbrev pub parse_entry : Option Entry → Result InstanceConfig
  parse_entry (some (file text)) = parsed_config (m.parse_config text)
    where
      parsed_config : Option InstanceConfig → Result InstanceConfig
      parsed_config none = err invalid_config
      parsed_config (some cfg) = ok cfg
  parse_entry _ = err no_config

  -- config.load_yaml(path)
  unfoldable pub load_yaml : FilePath → Disk → Result InstanceConfig
  load_yaml path disk = parse_entry (disk path)

  -- What the registry's check of ports sees of an instance's directory.
  unfoldable pub load_ports_at : Disk → String → Loaded
  load_ports_at disk path = elim (disk (instance_yaml (m.resolve path))) [
    | some (file text) ↦ elim (m.parse_config text) [ none ↦ refused | some cfg ↦ loaded cfg.ports ]
    | _ ↦ missing
  ]
