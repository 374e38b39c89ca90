-- ===== src/Vm.antt =====
-- The micro-VM backend (src/beetroot/vm and src/beetroot/backends/vm.py): the state that it works
-- on, and what it asks of the host.
pub mod Tests
pub mod Cores
pub mod Qemu
pub mod Process
pub mod BootCache
pub mod Backend
pub mod Up
pub mod Files
pub mod Identity
pub mod Overlay
pub mod Prepared
pub mod Untouched
pub mod Fresh
pub mod Booting
pub mod Accel
pub mod Recognised
pub mod Waiting
pub mod Signals
use beetroot.Prelude.{
  ℕ, ◌+◌, ◌≤◌, ◌≡◌, String, Bool, true, false, Option, none, some, List, [], ◌∷◌, ◌==◌, string_eq,
  nat_eq, ◌&&◌, Result, ok, err, os_error, if◌then◌else◌,
}
use beetroot.Prelude.Actions.{Action}
use beetroot.Prelude.Words.{is_hex}
use beetroot.Disk.{FilePath, Disk, Entry, file, directory, is_there, is_dir_entry, same_path}

pub data Signal : Type 0 where
  terminate_signal kill_signal : Signal

-- the outcome of `os.kill(pid, 0)`
pub data Probe : Type 0 where
  alive not_permitted other_errno : Probe

-- /proc/<pid>/cmdline of the processes whose command line can be read
abbrev pub Processes : Type 0
Processes = ℕ → Option String

-- What changes while the program waits: `clock` is `time.monotonic()` in tenths of a second.
pub record Live : Type 0 where
  pub disk : Disk
  pub processes : Processes
  pub clock : ℕ

-- What the program did to processes: the QEMU that it started, with the disk at that moment, and
-- the signals that it sent, with the command line of the process.
pub data Event : Type 0 where
  started : List String → Disk → Event
  signalled : Signal → ℕ → Option String → Event

-- A file as `stat` shows it: the path, the size and the time of the last change.
pub record Stamp : Type 0 where
  pub path : FilePath
  pub size : ℕ
  pub changed : ℕ

abbrev pub same_stamp : Stamp → Stamp → Bool
same_stamp a b = same_path a.path b.path && a.size == b.size && a.changed == b.changed

-- `hashes` is _HASH_CACHE; `events` has the newest event first.
pub record Sys : Type 0 where
  pub live : Live
  pub hashes : List (Stamp × String)
  pub events : List Event

-- subprocess.CompletedProcess
pub record Completed : Type 0 where
  pub returncode : ℕ
  pub stdout : String
  pub stderr : String

-- What the backend asks of the host, with its settings. `locate` is
-- `Path(text).expanduser().resolve()`; `elapse` is what happens during `time.sleep`, and `command` is
-- a subprocess with a timeout, which gives nothing on an OSError or a SubprocessError; `popen` gives
-- the new process or an OSError; `create_image` is `qemu-img create`, with the exit and what is at
-- the overlay after it, and `list_images` the output of `qemu-img snapshot -l` on an image;
-- `banner` is what the monitor sends to a new connection, and `order` what it answers to a line,
-- each in the chunks that are received up to the end of the stream.
pub record Host : Type 0 where
  pub machine : String
  pub kvm_usable : Bool
  pub affinity : Option ℕ
  pub cpu_count : Option ℕ
  pub cpuinfo : Option String
  pub qemu_bin : String
  pub vm_kernel : String
  pub vm_rootfs : String
  pub connect_timeout : ℕ
  pub on_path : String → Bool
  pub locate : String → FilePath
  pub show_path : FilePath → String
  pub denied : FilePath → Bool
  pub sha256 : String → String
  pub stat : FilePath → Live → Option (ℕ × ℕ)
  pub content_of : Stamp → String
  pub elapse : ℕ → Live → Live
  pub command : List String → ℕ → Live → Option Completed × Live
  pub probe : ℕ → Live → Probe
  pub kill : Signal → ℕ → Live → Bool × Processes
  pub popen : List String → Live → Option (ℕ × Processes)
  pub create_image : FilePath → FilePath → Disk → Bool × Option Entry
  pub list_images : String → Option String
  pub banner : FilePath → Live → Option (List String)
  pub order : FilePath → String → Live → Option (List String) × Live
  -- two files of one path, size and time of change have one content
  pub stat-content :
      (path : FilePath) (l : Live) (size changed : ℕ)
      → stat path l ≡ some (size, changed)
      → l.disk path
        ≡ some (file (content_of (record { path = path; size = size; changed = changed })))
  -- a digest is written in hexadecimal digits
  pub sha256-hex : (text : String) → is_hex (sha256 text) ≡ true
  pub sha256-given : (text : String) → (sha256 text == "") ≡ false
  pub elapse-clock : (ticks : ℕ) (l : Live) → l.clock + ticks ≤ (elapse ticks l).clock
  pub command-clock :
      (argv : List String) (timeout : ℕ) (l : Live) → l.clock ≤ (command argv timeout l).1.clock

abbrev pub with_live {ℓ} : {A : Type ℓ} → Sys → Result A × Live → Result A × Sys
with_live s (result, live) = (result, record s { live = live })

abbrev pub with_disk {ℓ} : {A : Type ℓ} → Sys → Result A × Disk → Result A × Sys
with_disk s (result, disk) = (result, record s { live = record s.live { disk = disk } })

-- a call on the file system
abbrev pub on_disk {ℓ} : {A : Type ℓ} → Action Disk A → Action Sys A
on_disk m s = with_disk s (m s.live.disk)

abbrev pub look {ℓ} : {A : Type ℓ} → (Disk → A) → Action Sys A
look test s = (ok (test s.live.disk), s)

-- `if test: m`
abbrev pub when : Bool → Action Sys (Unit {0}) → Action Sys (Unit {0})
when true m s = m s
when false m s = (ok tt, s)

abbrev pub noted : Event → Sys → Sys
noted e s = record s { events = e ∷ s.events }

-- time.sleep
abbrev pub sleep : Host → ℕ → Action Sys (Unit {0})
sleep h ticks s = (ok tt, record s { live = h.elapse ticks s.live })

module _ (refused : FilePath → Bool) where
  -- path.unlink(missing_ok=True)
  unfoldable pub unlink : FilePath → Action Disk (Unit {0})
  unlink path disk =
      if is_there (disk path)
      then if refused path
        then (err os_error, disk)
        else if is_dir_entry (disk path)
        then (err os_error, disk)
        else (ok tt, λ q. if same_path q path then none else disk q)
      else (ok tt, disk)

  -- path.replace(target)
  unfoldable pub replace : FilePath → FilePath → Action Disk (Unit {0})
  replace path target disk =
      if refused target
      then (err os_error, disk)
      else if is_dir_entry (disk target)
      then (err os_error, disk)
      else if is_there (disk path)
      then (
        ok tt,
        λ q. if same_path q target then disk path else if same_path q path then none else disk q,
      )
      else (err os_error, disk)
