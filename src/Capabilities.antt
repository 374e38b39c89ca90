-- ===== src/Capabilities.antt =====
-- Which ways of running an instance a host supports (src/beetroot/capabilities.py): the fold of the
-- probes into the support matrix. The probes, and the machine's name, are
-- arguments; Survey makes them.
mod Tests
pub mod Matrix
pub mod Survey
use Prim.Native.String.{String, ◌++◌}
use beetroot.Prelude.{Bool, true, false, not, List, [], ◌∷◌, if◌then◌else◌}
use beetroot.Hostcheck.{BinderStatus, ready, loadable, unsupported, unknown}

abbrev pub mode_redroid_host : String
mode_redroid_host = "redroid (binder: host / auto)"

abbrev pub mode_vm_kvm : String
mode_vm_kvm = "redroid (binder: vm, KVM accel)"

abbrev pub mode_vm_tcg : String
mode_vm_tcg = "redroid (binder: vm, TCG accel)"

abbrev pub mode_adb : String
mode_adb = "adb backend (adopt remote device)"

abbrev qemu_install : String
qemu_install =
    "install QEMU (e.g. `apt-get install qemu-system-x86`), then `beetroot build --vm-kernel`"

abbrev build_hint : String
build_hint = "build artifacts with `beetroot build --vm-kernel`"

abbrev adb_needs_device : String
adb_needs_device = "needs an external rooted device/emulator to adopt"

pub record ModeSupport : Type 0 where
  pub mode : String
  pub status : String
  pub reason : String
  pub remedy : String

-- the verdict on an x86_64 host
abbrev on_x86_64 : BinderStatus → Bool → Bool → ModeSupport
on_x86_64 binder docker docker_daemon = elim binder.state [
  | ready ↦
      if not docker
      then record {
        mode = mode_redroid_host;
        status = "needs-setup";
        reason = "host binder is ready, but the Docker CLI was not found";
        remedy = "install Docker and ensure the daemon is running";
      }
      else if not docker_daemon
      then record {
        mode = mode_redroid_host;
        status = "needs-setup";
        reason =
            "host binder is ready and the Docker CLI is present, but the Docker daemon is not responding";
        remedy = "start the Docker daemon";
      }
      else record {
        mode = mode_redroid_host;
        status = "supported";
        reason = binder.reason;
        remedy = "";
      }
  | loadable ↦ record {
    mode = mode_redroid_host;
    status = "needs-setup";
    reason = binder.reason;
    remedy = binder.remedy;
  }
  | unsupported ↦ record {
    mode = mode_redroid_host;
    status = "unsupported";
    reason = binder.reason;
    remedy = binder.remedy;
  }
  | unknown ↦ record {
    mode = mode_redroid_host;
    status = "unknown";
    reason = binder.reason;
    remedy = binder.remedy;
  }
]

module _ (machine : String) where
  -- _redroid_host
  unfoldable pub redroid_host : BinderStatus → Bool → Bool → Bool → ModeSupport
  redroid_host binder docker docker_daemon host_is_x86_64 =
      if not host_is_x86_64
      then record {
        mode = mode_redroid_host;
        status = "unsupported";
        reason =
            "host is " ++ machine
            ++ "; Beetroot's redroid image is x86_64 and runs natively against the host kernel (no emulation), so it can't boot here";
        remedy = "use `binder: vm` (TCG cross-arch emulation), or run on an x86_64 host";
      }
      else on_x86_64 binder docker docker_daemon

  -- _vm_kvm
  unfoldable pub vm_kvm : Bool → Bool → Bool → ModeSupport
  vm_kvm kvm qemu_present host_is_x86_64 =
      if not host_is_x86_64
      then record {
        mode = mode_vm_kvm;
        status = "unsupported";
        reason =
            "host is " ++ machine
            ++ "; KVM cannot accelerate the x86_64 guest (KVM only virtualizes the host's native arch) — use the TCG path";
        remedy = "use the `binder: vm` TCG path (cross-arch software emulation), no KVM needed";
      }
      else if not kvm
      then record {
        mode = mode_vm_kvm;
        status = "unsupported";
        reason = "no usable /dev/kvm — hardware acceleration is unavailable here";
        remedy = "use the TCG path (slower, no KVM needed), or a host/runner exposing /dev/kvm";
      }
      else if not qemu_present
      then record {
        mode = mode_vm_kvm;
        status = "needs-setup";
        reason = "/dev/kvm is usable but the QEMU system emulator was not found";
        remedy = qemu_install;
      }
      else record {
        mode = mode_vm_kvm;
        status = "supported";
        reason = "KVM available and QEMU installed (near-native); " ++ build_hint;
        remedy = "";
      }

  abbrev speed : Bool → String
  speed host_is_x86_64 =
      if not host_is_x86_64
      then "cross-arch x86_64 emulation on " ++ machine ++ " — even slower than native-arch TCG"
      else "software emulation (~5-20x slower, no KVM needed)"

  -- _vm_tcg
  unfoldable pub vm_tcg : Bool → Bool → ModeSupport
  vm_tcg qemu_present host_is_x86_64 =
      if not qemu_present
      then record {
        mode = mode_vm_tcg;
        status = "needs-setup";
        reason = "the QEMU system emulator was not found (" ++ speed host_is_x86_64 ++ ")";
        remedy = qemu_install;
      }
      else record {
        mode = mode_vm_tcg;
        status = "supported";
        reason = "QEMU installed; " ++ speed host_is_x86_64 ++ " — " ++ build_hint;
        remedy = "";
      }

-- _adb_adopt
unfoldable pub adb_adopt : Bool → ModeSupport
adb_adopt adb_present =
    if not adb_present
    then record {
      mode = mode_adb;
      status = "needs-setup";
      reason = "the adb client was not found";
      remedy =
          "install platform-tools (e.g. `apt-get install android-tools-adb`); " ++ adb_needs_device;
    }
    else record {
      mode = mode_adb;
      status = "supported";
      reason = "drives an external rooted device over adb; needs no host kernel/binder/Docker";
      remedy = adb_needs_device ++ " — point it at one: `beetroot adopt <serial|host:port>`";
    }

-- What the host's probes find.
pub record Probes : Type 0 where
  pub binder : BinderStatus
  pub kvm : Bool
  pub qemu_present : Bool
  pub docker : Bool
  pub docker_daemon : Bool
  pub adb_present : Bool
  pub host_is_x86_64 : Bool

unfoldable pub classify_modes : String → Probes → List ModeSupport
unfolding redroid_host vm_kvm vm_tcg adb_adopt
classify_modes machine p =
    redroid_host machine p.binder p.docker p.docker_daemon p.host_is_x86_64
    ∷ vm_kvm machine p.kvm p.qemu_present p.host_is_x86_64
    ∷ vm_tcg machine p.qemu_present p.host_is_x86_64
    ∷ adb_adopt p.adb_present
    ∷ []
