-- ===== src/Vm/Tests.antt =====
-- A micro-VM on a small host, on which every path is an entry of one directory.
use Prim.Native.String.{String}
use beetroot.Prelude.{
  ℕ, length, ◌+◌, ◌*◌, ◌≡◌, refl, ◌≢◌, ◌↔◌, ◌⊎◌, true, false, Option, none, some, [], ◌∷◌, All, pos,
  arith, ok, err, launch_failed, not_installed, ◌==◌, string_eq, nat_eq, eq_iff, if◌then◌else◌,
}
use beetroot.Prelude.Triples.{Ends}
use beetroot.Prelude.Words.{occurs, is_hex}
use beetroot.Config.Schema.{default_config, ephemeral, vm_binder, auto_accel, kvm, tcg, default_vm}
use beetroot.Disk.{FilePath, Disk, Entry, file, directory, same_path, is_file_entry, exists}
use beetroot.Ports.{resolve_from, allot}
use beetroot.Vm.{Host, Sys, Stamp, Processes, alive}
use beetroot.Vm.Cores.{host_physical_cores}
use beetroot.Vm.Qemu.{kvm_accel, tcg_accel, raw, Invocation, detect_accel, build_qemu_argv}
use beetroot.Vm.Process.{QemuProcess, pidfile, terminate, pid_is_qemu}
use beetroot.Vm.Backend.{
  VmDeviceBackend, adb_address, resolve_artifact, wait_for_adb_connect,
  adb_connect_deadline_seconds,
}
use beetroot.Vm.Up.{base_of, up_cached}
use beetroot.Vm.Fresh.{Orderly}
use beetroot.Vm.Booting.{up_cached-Orderly}
use beetroot.Vm.Signals.{IsOwn, terminate_lem}
use beetroot.Vm.Waiting.{GaveUp, Connected, wait_for_adb_connect_lem}
use beetroot.Vm.Accel.{has_kvm, detect_accel_lem}
use beetroot.Vm.Recognised.{cmdline_of, pid_is_qemu-build_qemu_argv}

abbrev artifact : String → FilePath
artifact name = "srv" ∷ name ∷ []

abbrev root : FilePath
root = "home" ∷ "phone" ∷ []

abbrev shown : FilePath → String
shown (a ∷ b ∷ p) = b
shown _ = "/"

abbrev disk : Disk
disk q =
    if same_path q (artifact "bzImage")
    then some (file "kernel")
    else if same_path q (artifact "rootfs.img")
    then some (file "rootfs")
    else if same_path q root
    then some directory
    else if same_path q ("home" ∷ "phone" ∷ "qemu.pid" ∷ [])
    then some (file "7\n")
    else none

-- The size and the time of change tell the two files apart.
abbrev stat_text : Option Entry → Option (ℕ × ℕ)
stat_text (some (file text)) =
    if text == "kernel" then some (6, 1) else if text == "rootfs" then some (6, 2) else none
stat_text _ = none

abbrev content : Stamp → String
content stamp = if stamp.changed == 1 then "kernel" else "rootfs"

pub stat-content :
    (found : Option Entry) (size changed : ℕ)
    → stat_text found ≡ some (size, changed)
    → found ≡ some (file (if changed == 1 then "kernel" else "rootfs"))
stat-content none size changed e = cc
stat-content (some directory) size changed e = cc
stat-content (some (file text)) size changed e =
    ground (arith, eq_iff text "kernel", eq_iff text "rootfs", e)

abbrev cpuinfo_text : String
cpuinfo_text = "physical id\t: 0\ncore id\t\t: 0\n\nphysical id\t: 0\ncore id\t\t: 0\n"

pub digest_is_hex : is_hex "0123456789abcdef" ≡ true
unfolding is_hex
digest_is_hex = refl

abbrev pub host : Host
host = record {
  machine = "X86_64";
  kvm_usable = true;
  affinity = some 2;
  cpu_count = some 4;
  cpuinfo = some cpuinfo_text;
  qemu_bin = "qemu-system-x86_64";
  vm_kernel = "bzImage";
  vm_rootfs = "rootfs.img";
  connect_timeout = 3;
  on_path = λ binary. true;
  locate = artifact;
  show_path = shown;
  denied = λ path. false;
  sha256 = λ text. "0123456789abcdef";
  stat = λ path l. stat_text (l.disk path);
  content_of = content;
  elapse = λ ticks l. record l { clock = l.clock + ticks };
  command = λ argv timeout l. (some (record { returncode = 0; stdout = "1\n"; stderr = "" }), l);
  probe = λ pid l. alive;
  kill = λ signal pid l. (true, λ p. none);
  popen = λ argv l. some (8, λ p. if p == 8 then some (cmdline_of argv) else l.processes p);
  create_image = λ base overlay d. (true, some (file "empty image"));
  list_images = λ image. none;
  banner = λ monitor l. some ("QEMU\n(qemu) " ∷ []);
  order = λ monitor line l. (some ("(qemu) " ∷ []), l);
  stat-content = λ path l. stat-content (l.disk path);
  sha256-hex = λ text. digest_is_hex;
  sha256-given = λ text. refl;
  elapse-clock = λ ticks l. omega arith;
  command-clock = λ argv timeout l. omega arith;
}

abbrev phone : VmDeviceBackend
phone = record {
  name = "phone";
  root = root;
  cfg = record (default_config ephemeral) {
    binder = vm_binder;
    vm = record default_vm { boot_cache = true };
  };
  index = pos 0;
}

abbrev idle : Sys
idle = record {
  live = record { disk = disk; processes = λ pid. none; clock = 0 };
  hashes = [];
  events = [];
}

found_kernel : resolve_artifact host none "bzImage" disk ≡ ok (artifact "bzImage")
unfolding resolve_artifact exists
found_kernel = refl

found_rootfs : resolve_artifact host none "rootfs.img" disk ≡ ok (artifact "rootfs.img")
unfolding resolve_artifact exists
found_rootfs = refl

up_cached-Orderly_example :
    Orderly host phone
      (base_of host phone kvm_accel (artifact "bzImage") (artifact "rootfs.img"))
      (up_cached host phone kvm_accel idle).1
up_cached-Orderly_example =
    up_cached-Orderly host phone kvm_accel (artifact "bzImage") (artifact "rootfs.img") idle
      found_kernel found_rootfs refl refl (tt, tt)

abbrev started_count : Sys → ℕ
started_count s = length s.events

-- The first start boots once, cold, and returns.
first_start :
    ((up_cached host phone kvm_accel idle).0 ≡ ok tt)
    × (started_count (up_cached host phone kvm_accel idle).1 ≡ 1)
unfolding up_cached resolve_from allot
first_start = (refl, refl)

abbrev seven : QemuProcess
seven = record { instance_dir = root; host_adb_port = some 5555 }

abbrev running : Sys
running = record {
  live = record {
    disk = disk;
    processes =
        λ pid. if pid == 7 then some "qemu-system-x86_64\0hostfwd=tcp:127.0.0.1:5555-\0" else none;
    clock = 0;
  };
  hashes = [];
  events = [];
}

terminate_lem_example :
    Ends
      (λ sent t.
        All (IsOwn seven) t.events
        × ((is_file_entry (t.live.disk (pidfile seven)) ≡ false)
            ⊎ (host.denied (pidfile seven) ≡ true)))
      (λ e t. ⊥)
      (terminate host seven running)
terminate_lem_example = terminate_lem host seven running tt

-- The running process is signalled.
signals : (terminate host seven running).0 ≡ ok true
unfolding terminate
signals = refl

wait_for_adb_connect_lem_example :
    let deadline = 0 + adb_connect_deadline_seconds host tcg_accel * 10 in
    Ends
      (λ _ t. (host.on_path "adb" ≡ true) × Connected host (adb_address 5555) t)
      (λ e t. ((e ≡ not_installed) × (host.on_path "adb" ≡ false)) ⊎ GaveUp host seven deadline e t)
      (wait_for_adb_connect host tcg_accel 5555 seven running)
wait_for_adb_connect_lem_example = wait_for_adb_connect_lem host tcg_accel 5555 seven running

detect_accel_lem_example :
    ((detect_accel host auto_accel ≡ ok kvm_accel) ↔ ((has_kvm host ≡ true) × (auto_accel ≢ tcg)))
    × ((detect_accel host auto_accel ≡ ok tcg_accel)
        ↔ ((auto_accel ≡ tcg) ⊎ ((auto_accel ≡ auto_accel) × (has_kvm host ≡ false))))
    × ((detect_accel host auto_accel ≡ err launch_failed)
        ↔ ((auto_accel ≡ kvm) × (has_kvm host ≡ false)))
detect_accel_lem_example = detect_accel_lem host auto_accel

chooses_kvm : detect_accel host auto_accel ≡ ok kvm_accel
unfolding detect_accel
chooses_kvm = refl

one_core : host_physical_cores host ≡ 1
unfolding host_physical_cores
one_core = refl

abbrev invocation : Invocation
invocation = record {
  accel = kvm_accel;
  kernel = artifact "bzImage";
  rootfs = artifact "rootfs.img";
  smp = 1;
  memory_mib = 8192;
  host_adb_port = 5555;
  disk_format = raw;
  disk_cache = none;
  monitor_socket = none;
  loadvm = none;
}

abbrev started_one : Processes
started_one pid = if pid == 8 then some (cmdline_of (build_qemu_argv host invocation)) else none

names_itself : occurs "qemu-system" "qemu-system-x86_64" ≡ true
unfolding occurs
names_itself = refl

pid_is_qemu-build_qemu_argv_example : pid_is_qemu seven 8 started_one ≡ true
pid_is_qemu-build_qemu_argv_example =
    pid_is_qemu-build_qemu_argv host invocation seven 8 started_one names_itself refl refl
