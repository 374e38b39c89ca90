-- ===== src/Lib.antt =====
-- Beetroot keeps named Android instances on one host. A registry file maps each name to a backend
-- and a port index, and a port allocator turns an index and the `ports:` list of a config into host
-- ports. The API creates, adopts, applies, resets and destroys instances: it works on the registry
-- and on each instance's directory, whose `.env` and compose file it renders from the config. A
-- check of the host says which ways of running an instance it supports.
--
-- The files, and the code that each models:
-- * Ports.antt is src/beetroot/ports.py: the constants, `_check_index` (`check_index`),
--   `ports_for_index`, `resolve_ports`, `well_known` and `lowest_free_index`. A resolution is the
--   list of ports with the privileged-port advisory that the call prints. Its child modules give
--   a description of the ports that are handed out (Ports/Spec), and prove what callers rely on.
-- * Registry.antt and its children are src/beetroot/registry.py. Registry/Backend has the config
--   classes, `register_backend_config` and the parse and dump of a payload; Registry/Rows has the
--   rows, `_parse_row` and the document; Registry/Storage has `_read`, `_write`, `_locked`
--   (`transact`) and `list_instances` on the pair of the registry file and its backup;
--   Registry/Operations has the public operations; Registry/Collisions has the host-port check;
--   Registry/Locking has the lock as steps of processes: under the shared lock, where readers
--   interleave, the check of the version, the read and the rename are steps of their own; under the
--   exclusive lock, the first write and the read are one step, and the write is another.
-- * Config.antt and its children are the ports of src/beetroot/config.py: the range checks of
--   `PortMapping`, the migration of the old mapping form, the validators of the list and the order
--   in which a load applies them (`load_ports`).
--   Config/Schema has the sections of a loaded config with the checks between their fields, and
--   Config/Render the image tag, `render_env` and `render_compose_ports_override`.
-- * Disk.antt is what the program uses of pathlib and shutil, on a function from paths to what is
--   there; Disk/Layout is src/beetroot/paths.py, as far as an instance's directory goes;
--   Disk/Outside relates two states of the disk that differ inside one directory.
-- * Api.antt and its children are src/beetroot/api.py: Api/Names the grammar of names, Api/Staging
--   `_stage_local`, `_stage_network`, `_check_directory_overlap` and `_rollback_partial_create`,
--   Api/Create `create`, `register` and `load` (`enroll` is their common end, from
--   `add_allocating` on), Api/Lifecycle `apply`, `reset`, `destroy` and `instance_lock`, Api/Manager
--   `Manager.list_instances` (`list_loadable`) and `Manager.list_orphans`. They are
--   actions (Prelude/Actions) on a World, the registry's files with the disk, and
--   Prelude/Triples has the rules for conditions before and after an action.
-- * Snapshot.antt and its children are src/beetroot/snapshot.py: the archive and its manifest, the
--   capped reader (`capped_read`), and in Snapshot/Restore `_prepare_destination` and `restore`
--   (`commit` is its second half, `unpack` the body of its `try`).
-- * Vm.antt and its children are the micro-VM backend. Vm/Cores and Vm/Qemu are the choices and the
--   command line of src/beetroot/vm/qemu.py, Vm/Process its `QemuProcess`; Vm/BootCache is
--   src/beetroot/vm/boot_cache.py; Vm/Backend and Vm/Up are the waits, `down`, `up`, `_up_cached` and
--   `restart` of src/beetroot/backends/vm.py. They are actions on a Sys: the disk, the processes and
--   the clock, the cache of digests, and a record of the QEMU that were started and of the signals
--   that were sent. `_up_cached` is cut into `prepare_overlay` and `boot`; Vm/Overlay, Vm/Prepared,
--   Vm/Fresh and Vm/Booting go through it step by step.
-- * Compose.antt is src/beetroot/compose.py: the command lines, the lifecycle verbs and `ps_status`.
-- * Hostcheck.antt is src/beetroot/hostcheck.py: `_classify` (`classify`) and
--   `plan_binder_runtime`; Hostcheck/Probes.antt has the probes of the nodes, of binderfs and of the
--   kernel config, over the record `HostFiles` of what the machine answers.
--   Capabilities.antt is src/beetroot/capabilities.py: the verdict of each mode and
--   `classify_modes`. Both keep the texts that they show. Capabilities/Survey.antt has `survey`, on
--   the probes of Hostcheck/Probes and Vm/Qemu.
-- * Json.antt is the Python value that `json.loads` gives, with the checks of a model's fields;
--   Dict.antt is a Python dict as a list of entries; Prelude.antt and its children are tests,
--   integers, equality, lists and the errors.
--
-- An operation is a function from the files to its result and the files after it; an error is a
-- value of `Error`, without its message. Python's integers that may be negative are ℤ, ports and
-- well-formed indices are ℕ; no machine-width integers occur.
--
-- Parameters: json, pydantic's checks of a `datetime` and of an `int`, and the config classes of
-- other packages are the record `Platform` of Registry.antt, with the round trips that the code
-- relies on. The registered config classes, the time of a registration and what `load_yaml` makes
-- of an instance's directory are arguments, and so are the files that the probes of the host read.
--
-- For the API the record `Machine` of Api.antt has the resolution of paths and their texts, YAML
-- with the validation of a config, the paths that the system refuses to change, and the two
-- downloads of the network stage, which change nothing outside the instance's directory (the cache
-- of downloads and the registry lie elsewhere and are not on the modelled disk). The result of
-- `docker compose down` is an argument. The record `Archiver` of Snapshot.antt has the reading of a
-- manifest, the unpacking of one member, which changes nothing outside the target, and the test for
-- an empty directory; an archive is the members that zstd and tar give, with the lengths of the
-- chunks that are read for each.
--
-- The record `Docker` of Compose.antt has the runs of docker, json and Python's `str` of a value.
-- Python's `str.lower` is that of ASCII letters, and lines end in "\n" (Prelude/Words).
--
-- For the micro-VM the record `Host` of Vm.antt has the probes of the host, the settings, SHA-256
-- and stat, the process table, adb and qemu-img, and the monitor. It states that a file with one path,
-- size and time of change has one content, that digests are hexadecimal, that a sleep lasts at least
-- as long as it is asked to, and that a command takes no time back.
--
-- Fuel: the loop of `lowest_free_index` runs on as much fuel as there are indices in use, and one
-- more: each round but the last passes an index in use. The waits of the micro-VM run on one round
-- for each sleep that fits before the deadline, and one or two more; where fuel runs out they give
-- the error `out_of_fuel`, and the theorems on them exclude it.
--
-- Not modelled: the temporary file and the fsync calls of `_write`, the hint for a v0.2 registry
-- in the working directory, the messages of errors, errors of a read other than OSError in the
-- probes of the host, and the fields of a config other than those of Config/Schema. Of the
-- micro-VM: its messages, `apply`, `destroy`, `health`, `shell` and `logs`, and what goes on
-- between the read of a command line and the signal. Of the API: warnings, modes of files, waiting
-- for a lock, a write that stops halfway, and the calls of docker and adb (up, down, shell, logs,
-- health). Of snapshot.py, the writing of an archive.
pub mod Api
pub mod Capabilities
pub mod Compose
pub mod Config
pub mod Dict
pub mod Disk
pub mod Hostcheck
pub mod Json
pub mod Ports
pub mod Prelude
pub mod Registry
pub mod Snapshot
pub mod Vm
