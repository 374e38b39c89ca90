-- ===== src/Vm/Backend.antt =====
-- The attributes of the micro-VM backend, its waits for the guest and `down` (`VmDeviceBackend` of
-- src/beetroot/backends/vm.py).
use Prim.Native.String.{String}
use beetroot.Prelude.{
  ℕ, zero, suc, ◌+◌, ◌*◌, ℤ, Bool, true, false, ◌&&◌, not, Option, none, some, [], ◌∷◌, max, ltb,
  leb, nat_eq, ◌==◌, string_eq, Error, Result, ok, err, launch_failed, service_missing,
  not_installed, out_of_fuel, if◌then◌else◌,
}
use beetroot.Prelude.Actions.{Action, ◌>>=◌, ◌>>◌, return, given, refuse_if, rescue}
use beetroot.Prelude.Text.{◌+++◌, decimal}
use beetroot.Prelude.Words.{strip, lowered, occurs}
use beetroot.Dict.{lookup}
use beetroot.Ports.{resolve_ports, well_known}
use beetroot.Config.Schema.{InstanceConfig, Binder, auto_binder, host_binder, vm_binder, given_text}
use beetroot.Disk.{FilePath, Disk, exists}
use beetroot.Vm.{Host, Sys, Completed, sleep}
use beetroot.Vm.Qemu.{ResolvedAccel, kvm_accel, tcg_accel}
use beetroot.Vm.Process.{QemuProcess, is_running, terminate}

pub record VmDeviceBackend : Type 0 where
  pub name : String
  pub root : FilePath
  pub cfg : InstanceConfig
  pub index : ℤ

abbrev pub adb_of : Option ℕ → Result ℕ
adb_of none = err service_missing
adb_of (some port) = ok port

-- `ports.well_known(self.ports)["adb"]`
unfoldable pub adb_port : VmDeviceBackend → Result ℕ
unfolding resolve_ports well_known lookup
adb_port b = elim (resolve_ports b.index b.cfg.ports false) [
  | err e ↦ err e
  | ok resolution ↦ adb_of (lookup "adb" (well_known resolution.ports))
]

abbrev pub qemu_of : VmDeviceBackend → ℕ → QemuProcess
qemu_of b port = record { instance_dir = b.root; host_adb_port = some port }

abbrev pub adb_address : ℕ → String
adb_address port = "localhost:" +++ decimal port

abbrev pub is_launch_failed : Error → Bool
is_launch_failed launch_failed = true
is_launch_failed _ = false

abbrev pub is_vm : Binder → Bool
is_vm vm_binder = true
is_vm auto_binder = false
is_vm host_binder = false

-- `configured or env_default or None`
abbrev raw_artifact : Option String → String → Option String
raw_artifact configured env_default =
    if given_text configured
    then configured
    else if env_default == ""
    then none
    else some env_default

module _ (h : Host) where
  abbrev pub located : Option String → Disk → Result FilePath
  located none disk = err launch_failed
  located (some text) disk =
      if exists (h.locate text) disk then ok (h.locate text) else err launch_failed

  -- _resolve_artifact
  unfoldable pub resolve_artifact : Option String → String → Disk → Result FilePath
  unfolding exists
  resolve_artifact configured env_default disk = located (raw_artifact configured env_default) disk

  abbrev connected : Option Completed → Bool
  connected none = false
  connected (some res) =
      let combined = lowered (res.stdout +++ "\n" +++ res.stderr) in
      res.returncode == 0
      && not (occurs "cannot connect" combined)
      && not (occurs "failed" combined)

  -- _adb_connect_ok
  unfoldable pub adb_connect_ok : String → Action Sys Bool
  unfolding lowered occurs
  adb_connect_ok target s =
      let (res, live) = h.command ("adb" ∷ "connect" ∷ target ∷ []) 50 s.live in
      (ok (connected res), record s { live = live })

  abbrev booted : Option Completed → Bool
  booted none = false
  booted (some res) = strip res.stdout == "1"

  -- the second command of _boot_completed, if the first raised nothing
  abbrev pub read_boot : String → Option Completed → Action Sys Bool
  read_boot target none s = (ok false, s)
  read_boot target (some res) s =
      let (prop, live) =
        h.command ("adb" ∷ "-s" ∷ target ∷ "shell" ∷ "getprop" ∷ "sys.boot_completed" ∷ []) 100
          s.live in
      (ok (booted prop), record s { live = live })

  unfoldable pub boot_completed : String → Action Sys Bool
  unfolding strip
  boot_completed target s =
      let (res, live) = h.command ("adb" ∷ "connect" ∷ target ∷ []) 100 s.live in
      read_boot target res (record s { live = live })

  unfoldable pub adb_connect_deadline_seconds : ResolvedAccel → ℕ
  adb_connect_deadline_seconds tcg_accel = max h.connect_timeout 900
  adb_connect_deadline_seconds kvm_accel = h.connect_timeout

  -- what a round of _wait_for_adb_connect does, by what it has seen: whether ADB is connected,
  -- whether the process runs and whether the time is over
  abbrev pub judge : Bool → Bool → Bool → Action Sys (Unit {0}) → Action Sys (Unit {0})
  judge true runs late again t = (ok tt, t)
  judge false false late again t = (err launch_failed, t)
  judge false true true again t = (err launch_failed, t)
  judge false true false again t = again t

  -- the loop of _wait_for_adb_connect
  unfoldable pub connect_until : ℕ → ℕ → String → QemuProcess → Action Sys (Unit {0})
  unfolding adb_connect_ok is_running
  connect_until zero deadline target proc s = (err out_of_fuel, s)
  connect_until (suc fuel) deadline target proc s =
      (adb_connect_ok target >>= λ up t.
      judge up (is_running h proc t.live) (leb deadline t.live.clock)
        (sleep h 10 >> connect_until fuel deadline target proc) t)
        s

  unfoldable pub wait_for_adb_connect : ResolvedAccel → ℕ → QemuProcess → Action Sys (Unit {0})
  unfolding connect_until adb_connect_deadline_seconds decimal
  wait_for_adb_connect accel port proc s =
      let budget = adb_connect_deadline_seconds accel in
      (refuse_if (not (h.on_path "adb")) not_installed
          >> connect_until (suc (suc budget)) (s.live.clock + budget * 10) (adb_address port) proc)
        s

  abbrev pub seen_booted : Bool → Action Sys Bool → Action Sys Bool
  seen_booted true again t = (ok true, t)
  seen_booted false again t = again t

  abbrev pub while_before : Bool → Action Sys Bool → Action Sys Bool
  while_before true round s = round s
  while_before false round s = (ok false, s)

  -- the loop of _wait_for_boot_completed
  unfoldable pub completed_until : ℕ → ℕ → String → Action Sys Bool
  unfolding boot_completed
  completed_until zero deadline target s = (err out_of_fuel, s)
  completed_until (suc fuel) deadline target s =
      while_before (ltb s.live.clock deadline)
        (boot_completed target >>= λ booted.
          seen_booted booted (sleep h 30 >> completed_until fuel deadline target))
        s

  unfoldable pub wait_for_boot_completed : ℕ → Action Sys Bool
  unfolding completed_until decimal
  wait_for_boot_completed port s =
      (refuse_if (not (h.on_path "adb")) not_installed
          >> completed_until 302 (s.live.clock + 9000) (adb_address port))
        s

  module _ (b : VmDeviceBackend) where
    unfoldable pub down : Action Sys (Unit {0})
    unfolding adb_port terminate
    down = do port ← given (adb_port b); sent ← terminate h (qemu_of b port); return tt

    -- `try: self._wait_for_adb_connect(...)`, and on any exception `self.down(); raise`
    unfoldable pub reach : ResolvedAccel → ℕ → Action Sys (Unit {0})
    unfolding wait_for_adb_connect down
    reach accel port = rescue (wait_for_adb_connect accel port (qemu_of b port)) down
