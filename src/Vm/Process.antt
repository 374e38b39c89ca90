-- ===== src/Vm/Process.antt =====
-- The QEMU process of an instance (`QemuProcess` of src/beetroot/vm/qemu.py).
use Prim.Native.Char.{Char, code}
use beetroot.Prelude.{
  ℕ, zero, suc, ◌+◌, ◌-◌, ◌*◌, String, Bool, true, false, ◌&&◌, Option, none, some, List, ltb, leb,
  nat_eq, ◌==◌, ok, err, Result, launch_failed, out_of_fuel, if◌then◌else◌,
}
use beetroot.Prelude.Actions.{Action, ◌>>=◌, ◌>>◌, return, refuse_if}
use beetroot.Prelude.Text.{decimal}
use beetroot.Prelude.Words.{occurs, strip}
use beetroot.Disk.{FilePath, Disk, Entry, file, child, mkdir, write_text}
use beetroot.Vm.{
  Host, Live, Sys, Signal, terminate_signal, kill_signal, Probe, alive, not_permitted, other_errno,
  Processes, started, signalled, on_disk, unlink, noted, sleep,
}
use beetroot.Vm.Qemu.{host_forward}

-- The instance's directory and the host port that its ADB is forwarded from.
pub record QemuProcess : Type 0 where
  pub instance_dir : FilePath
  pub host_adb_port : Option ℕ

abbrev pub pidfile : QemuProcess → FilePath
pidfile q = child q.instance_dir "qemu.pid"

abbrev pub console_log : QemuProcess → FilePath
console_log q = child q.instance_dir "qemu-console.log"

abbrev is_digit : Char → Bool
is_digit c = leb b'0' (code c) && leb (code c) b'9'

-- the digits of `int(text)`, which single underscores may part
unfoldable pub int_from : ℕ → Bool → String → Option ℕ
int_from acc after_digit String.[] = if after_digit then some acc else none
int_from acc after_digit (String.◌∷◌ c s) =
    let digits = int_from (acc * 10 + (code c - b'0')) true s in
    let parted = int_from acc false s in
    if is_digit c then digits else if after_digit && code c == b'_' then parted else none

-- `int(text)`; a negative number names no process under /proc, as no number does
unfoldable pub parse_pid : String → Option ℕ
unfolding int_from
parse_pid String.[] = none
parse_pid (String.◌∷◌ c s) =
    if code c == b'+' then int_from 0 false s else int_from 0 false (String.◌∷◌ c s)

abbrev pid_text : Option Entry → Option ℕ
pid_text (some (file text)) = parse_pid (strip text)
pid_text _ = none

unfoldable pub read_pid : QemuProcess → Disk → Option ℕ
unfolding parse_pid strip
read_pid q disk = pid_text (disk (pidfile q))

abbrev pub names_qemu : Option ℕ → String → Bool
names_qemu none cmdline = occurs "qemu-system" cmdline
names_qemu (some port) cmdline = occurs "qemu-system" cmdline && occurs (host_forward port) cmdline

abbrev pub cmdline_is_qemu : Option ℕ → Option String → Bool
cmdline_is_qemu port none = false
cmdline_is_qemu port (some cmdline) = names_qemu port cmdline

-- _pid_is_qemu
unfoldable pub pid_is_qemu : QemuProcess → ℕ → Processes → Bool
unfolding occurs decimal
pid_is_qemu q pid processes = cmdline_is_qemu q.host_adb_port (processes pid)

abbrev answers : Probe → Bool
answers alive = true
answers not_permitted = true
answers other_errno = false

abbrev pid_is_running : Host → QemuProcess → Option ℕ → Live → Bool
pid_is_running h q none live = false
pid_is_running h q (some pid) live =
    if answers (h.probe pid live) then pid_is_qemu q pid live.processes else false

unfoldable pub is_running : Host → QemuProcess → Live → Bool
unfolding read_pid pid_is_qemu
is_running h q live = pid_is_running h q (read_pid q live.disk) live

module _ (h : Host) (q : QemuProcess) where
  -- `except OSError: raise QemuLaunchError`
  abbrev pub as_launch_failed {ℓ} : {A : Type ℓ} → Result A × Sys → Result A × Sys
  as_launch_failed (ok a, s) = (ok a, s)
  as_launch_failed (err e, s) = (err launch_failed, s)

  abbrev pub popened : List String → Option (ℕ × Processes) → Action Sys ℕ
  popened argv none s = (err launch_failed, s)
  popened argv (some (pid, processes)) s = (
    ok pid,
    noted (started argv s.live.disk) (record s { live = record s.live { processes = processes } }),
  )

  -- subprocess.Popen
  abbrev pub popen : List String → Action Sys ℕ
  popen argv s = popened argv (h.popen argv s.live) s

  -- the opening of the console log, within the `try`
  abbrev pub open_console : Action Sys (Unit {0})
  open_console s = as_launch_failed (on_disk (write_text h.denied (console_log q) "") s)

  unfoldable pub launch : List String → Action Sys ℕ
  unfolding mkdir write_text decimal
  launch argv = do
    on_disk (mkdir h.denied q.instance_dir)
    open_console
    pid ← popen argv
    on_disk (write_text h.denied (pidfile q) (decimal pid))
    return pid

  unfoldable pub start : List String → Action Sys ℕ
  unfolding is_running launch
  start argv s = (refuse_if (is_running h q s.live) launch_failed >> launch argv) s

  -- os.kill(pid, signal), and whether it raised no OSError
  abbrev pub kill : Signal → ℕ → Action Sys Bool
  kill signal pid s =
      let (sent, processes) = h.kill signal pid s.live in
      (
        ok sent,
        noted (signalled signal pid (s.live.processes pid))
            (record s { live = record s.live { processes = processes } }),
      )

  abbrev pub kill_hard : ℕ → Action Sys (Unit {0})
  kill_hard pid s = (ok tt, (kill kill_signal pid s).1)

  -- a round of _escalate_if_alive, by whether there is time left and whether the process is there
  abbrev pub grace : Bool → Bool → ℕ → Action Sys (Unit {0}) → Action Sys (Unit {0})
  grace early false pid again s = (ok tt, s)
  grace true true pid again s = again s
  grace false true pid again s = kill_hard pid s

  -- the loop of _escalate_if_alive, and the signal after it
  unfoldable pub escalate_until : ℕ → ℕ → ℕ → Action Sys (Unit {0})
  unfolding pid_is_qemu
  escalate_until zero deadline pid s = (err out_of_fuel, s)
  escalate_until (suc fuel) deadline pid s =
      grace (ltb s.live.clock deadline) (pid_is_qemu q pid s.live.processes) pid
        (sleep h 1 >> escalate_until fuel deadline pid) s

  unfoldable pub escalate_if_alive : ℕ → Action Sys (Unit {0})
  unfolding escalate_until
  escalate_if_alive pid s = escalate_until 51 (s.live.clock + 50) pid s

  abbrev pub escalated : ℕ → Bool → Action Sys Bool
  escalated pid true = do escalate_if_alive pid; return true
  escalated pid false = return false

  abbrev pub terminate_pid : Option ℕ → Action Sys Bool
  terminate_pid none s = (ok false, s)
  terminate_pid (some pid) s =
      if pid_is_qemu q pid s.live.processes
      then (kill terminate_signal pid >>= escalated pid) s
      else (ok false, s)

  -- `with contextlib.suppress(OSError)`
  abbrev pub suppressed : Result (Unit {0}) × Sys → Result (Unit {0}) × Sys
  suppressed (r, s) = (ok tt, s)

  abbrev pub remove_pidfile : Action Sys (Unit {0})
  remove_pidfile s = suppressed (on_disk (unlink h.denied (pidfile q)) s)

  unfoldable pub terminate : Action Sys Bool
  unfolding read_pid escalate_if_alive unlink
  terminate s = (terminate_pid (read_pid q s.live.disk) >>= λ sent. remove_pidfile >> return sent) s
