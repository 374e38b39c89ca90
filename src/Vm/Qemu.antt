-- ===== src/Vm/Qemu.antt =====
-- The acceleration and the command line of a micro-VM (`detect_accel` and `build_qemu_argv` of
-- src/beetroot/vm/qemu.py).
use beetroot.Prelude.{
  ℕ, String, Bool, Option, none, some, List, [], ◌∷◌, ◌++◌, string_eq, contains, Result, ok, err,
  launch_failed, if◌then◌else◌,
}
use beetroot.Prelude.Text.{◌+++◌, decimal}
use beetroot.Prelude.Words.{lowered}
use beetroot.Config.Schema.{Accel, auto_accel, kvm, tcg}
use beetroot.Disk.{FilePath}
use beetroot.Vm.{Host}

pub data ResolvedAccel : Type 0 where
  kvm_accel tcg_accel : ResolvedAccel

abbrev pub accel_text : ResolvedAccel → String
accel_text kvm_accel = "kvm"
accel_text tcg_accel = "tcg"

abbrev pub guest_arch_machines : List String
guest_arch_machines = "x86_64" ∷ "amd64" ∷ []

unfoldable pub host_is_guest_arch : Host → Bool
unfolding lowered
host_is_guest_arch h = contains (lowered h.machine) guest_arch_machines

unfoldable pub detect_accel : Host → Accel → Result ResolvedAccel
unfolding host_is_guest_arch
detect_accel h tcg = ok tcg_accel
detect_accel h kvm =
    if host_is_guest_arch h
    then if h.kvm_usable then ok kvm_accel else err launch_failed
    else err launch_failed
detect_accel h auto_accel =
    if host_is_guest_arch h
    then ok (if h.kvm_usable then kvm_accel else tcg_accel)
    else ok tcg_accel

pub data DiskFormat : Type 0 where
  raw qcow2 : DiskFormat

abbrev format_text : DiskFormat → String
format_text raw = "raw"
format_text qcow2 = "qcow2"

abbrev accel_args : ResolvedAccel → List String
accel_args kvm_accel = "-accel" ∷ "kvm" ∷ "-cpu" ∷ "host" ∷ []
accel_args tcg_accel = "-accel" ∷ "tcg,thread=multi,tb-size=1024" ∷ "-cpu" ∷ "max" ∷ []

-- The arguments of build_qemu_argv, except the binary.
pub record Invocation : Type 0 where
  pub accel : ResolvedAccel
  pub kernel : FilePath
  pub rootfs : FilePath
  pub smp : ℕ
  pub memory_mib : ℕ
  pub host_adb_port : ℕ
  pub disk_format : DiskFormat
  pub disk_cache : Option String
  pub monitor_socket : Option FilePath
  pub loadvm : Option String

abbrev pub host_forward : ℕ → String
host_forward port = "hostfwd=tcp:127.0.0.1:" +++ decimal port +++ "-"

abbrev pub hostfwd : ℕ → String
hostfwd port = host_forward port +++ ":5555"

abbrev cache_text : Option String → String
cache_text none = ""
cache_text (some cache) = ",cache=" +++ cache

abbrev drive : Host → Invocation → String
drive h i =
    "file="
    +++ h.show_path i.rootfs
    +++ ",format="
    +++ format_text i.disk_format
    +++ ",if=virtio"
    +++ cache_text i.disk_cache

abbrev monitor_args : Host → Option FilePath → List String
monitor_args h none = []
monitor_args h (some socket) =
    "-monitor" ∷ ("unix:" +++ h.show_path socket +++ ",server,nowait") ∷ []

abbrev pub loadvm_args : Option String → List String
loadvm_args none = []
loadvm_args (some tag) = "-loadvm" ∷ tag ∷ []

-- the arguments before and after the forwarding of the ADB port
abbrev pub argv_before : Host → Invocation → List String
argv_before h i =
    (h.qemu_bin ∷ "-M" ∷ "q35" ∷ [])
    ++ (accel_args i.accel
        ++ ("-smp"
            ∷ decimal i.smp
            ∷ "-m"
            ∷ decimal i.memory_mib
            ∷ "-nographic"
            ∷ "-display"
            ∷ "none"
            ∷ "-no-reboot"
            ∷ "-kernel"
            ∷ h.show_path i.kernel
            ∷ "-drive"
            ∷ drive h i
            ∷ "-netdev"
            ∷ []))

abbrev pub argv_after : Host → Invocation → List String
argv_after h i =
    ("-device" ∷ "virtio-net-pci,netdev=net0" ∷ [])
    ++ (monitor_args h i.monitor_socket
        ++ (loadvm_args i.loadvm
            ++ ("-append" ∷ "console=ttyS0 root=/dev/vda rw init=/init panic=1 mitigations=off"
                ∷ [])))

unfoldable pub build_qemu_argv : Host → Invocation → List String
unfolding decimal
build_qemu_argv h i =
    argv_before h i ++ ("user,id=net0," +++ hostfwd i.host_adb_port) ∷ argv_after h i
