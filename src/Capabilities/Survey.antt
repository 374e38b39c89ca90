-- ===== src/Capabilities/Survey.antt =====
-- `survey` of src/beetroot/capabilities.py: the matrix of a host, from the live probes of
-- src/beetroot/hostcheck.py and src/beetroot/vm/qemu.py and from the programs that are there.
use Prim.Native.String.{String}
use beetroot.Prelude.{
  ◌≡◌, refl, sym, ap, ◌∙◌, Bool, true, false, ◌&&◌, ◌||◌, Option, none, some, List, [], ◌∷◌, map, ℕ,
  nat_beq, All, Result, ok, err, arith, string_eq, if◌then◌else◌,
}
use beetroot.Config.Schema.{auto_accel}
use beetroot.Vm.{Host}
use beetroot.Vm.Qemu.{ResolvedAccel, kvm_accel, tcg_accel, host_is_guest_arch, detect_accel}
use beetroot.Vm.Accel.{has_kvm}
use beetroot.Hostcheck.{KernelBinderConfig, BinderStatus, classify}
use beetroot.Hostcheck.Probes.{
  HostFiles, binder_status, dev_binder_present, binderfs_supported, kernel_config_binder,
}
use beetroot.Hostcheck.Found.{has_binder}
use beetroot.Capabilities.{
  ModeSupport, Probes, redroid_host, vm_kvm, vm_tcg, adb_adopt, classify_modes,
}
use beetroot.Capabilities.Matrix.{
  is_supported, IsActionable, redroid_host-supported, classify_modes_lem,
}

-- The names of programs in `Settings`.
pub record BinSettings : Type 0 where
  pub docker_bin : String
  pub qemu_bin : String

-- `which name` is whether `shutil.which` finds the name; `run_info docker_bin` is the exit code of
-- `docker_bin info`, none where the call raises an OSError or passes its timeout. `settings` is the
-- object that the package makes once, and `fresh_settings` what `Settings()` gives.
pub record Programs : Type 0 where
  pub which : String → Bool
  pub run_info : String → Option ℕ
  pub settings : BinSettings
  pub fresh_settings : BinSettings

abbrev pub exits_zero : Option ℕ → Bool
exits_zero none = false
exits_zero (some returncode) = nat_beq returncode 0

abbrev pub docker_daemon_responsive : Programs → Bool
docker_daemon_responsive programs = exits_zero (programs.run_info programs.settings.docker_bin)

-- settings if settings is not None else Settings()
abbrev pub chosen_settings : Programs → Option BinSettings → BinSettings
chosen_settings programs none = programs.fresh_settings
chosen_settings programs (some injected) = injected

abbrev is_kvm : ResolvedAccel → Bool
is_kvm kvm_accel = true
is_kvm tcg_accel = false

abbrev probes_of : Host → HostFiles → Programs → BinSettings → ResolvedAccel → Probes
probes_of h host programs cfg accel =
    let docker_present = programs.which cfg.docker_bin in
    record {
      binder = binder_status host;
      kvm = is_kvm accel;
      qemu_present = programs.which cfg.qemu_bin;
      docker = docker_present;
      docker_daemon = docker_present && docker_daemon_responsive programs;
      adb_present = programs.which "adb";
      host_is_x86_64 = host_is_guest_arch h;
    }

abbrev surveyed :
    Host → HostFiles → Programs → BinSettings → Result ResolvedAccel → Result (List ModeSupport)
surveyed h host programs cfg (ok accel) =
    ok (classify_modes h.machine (probes_of h host programs cfg accel))
surveyed h host programs cfg (err e) = err e

abbrev pub survey : Host → HostFiles → Programs → Option BinSettings → Result (List ModeSupport)
survey h host programs injected =
    surveyed h host programs (chosen_settings programs injected) (detect_accel h auto_accel)

vm_kvm-supported :
    (machine : String) (kvm qemu x86 : Bool)
    → is_supported (vm_kvm machine kvm qemu x86) ≡ (x86 && kvm && qemu)
unfolding vm_kvm
vm_kvm-supported machine kvm qemu false = refl
vm_kvm-supported machine false qemu true = refl
vm_kvm-supported machine true false true = refl
vm_kvm-supported machine true true true = refl

vm_tcg-supported :
    (machine : String) (qemu x86 : Bool) → is_supported (vm_tcg machine qemu x86) ≡ qemu
unfolding vm_tcg
vm_tcg-supported machine false x86 = refl
vm_tcg-supported machine true x86 = refl

adb_adopt-supported : (adb : Bool) → is_supported (adb_adopt adb) ≡ adb
unfolding adb_adopt
adb_adopt-supported false = refl
adb_adopt-supported true = refl

redroid_host-mode :
    (machine : String) (binder : BinderStatus) (docker daemon x86 : Bool)
    → (redroid_host machine binder docker daemon x86).mode ≡ "redroid (binder: host / auto)"
unfolding redroid_host
redroid_host-mode machine binder docker daemon false = refl
redroid_host-mode machine binder docker daemon true = ground arith

vm_kvm-mode :
    (machine : String) (kvm qemu x86 : Bool)
    → (vm_kvm machine kvm qemu x86).mode ≡ "redroid (binder: vm, KVM accel)"
unfolding vm_kvm
vm_kvm-mode machine kvm qemu false = refl
vm_kvm-mode machine false qemu true = refl
vm_kvm-mode machine true false true = refl
vm_kvm-mode machine true true true = refl

vm_tcg-mode :
    (machine : String) (qemu x86 : Bool)
    → (vm_tcg machine qemu x86).mode ≡ "redroid (binder: vm, TCG accel)"
unfolding vm_tcg
vm_tcg-mode machine false x86 = refl
vm_tcg-mode machine true x86 = refl

adb_adopt-mode : (adb : Bool) → (adb_adopt adb).mode ≡ "adb backend (adopt remote device)"
unfolding adb_adopt
adb_adopt-mode false = refl
adb_adopt-mode true = refl

detect_accel-auto :
    (h : Host) → detect_accel h auto_accel ≡ ok (if has_kvm h then kvm_accel else tcg_accel)
unfolding detect_accel
detect_accel-auto h = ground arith

once : (a b c d : Bool) → (a && b && c && (c && d)) ≡ (a && b && c && d)
once a b c d = ground arith

four :
    {A : Type 0} {a b c d w x y z : A}
    → a ≡ w
    → b ≡ x
    → c ≡ y
    → d ≡ z
    → ◌≡◌ {A = List A} (a ∷ b ∷ c ∷ d ∷ []) (w ∷ x ∷ y ∷ z ∷ [])
four p q r s = cc (p, q, r, s)

host_entry :
    (machine : String) (dev fs : Bool) (config : Option KernelBinderConfig)
    (docker daemon x86 : Bool)
    → is_supported (redroid_host machine (classify dev fs config) docker (docker && daemon) x86)
      ≡ (x86 && (dev || fs) && docker && daemon)
host_entry machine dev fs config docker daemon x86 =
    redroid_host-supported machine dev fs config docker (docker && daemon) x86
    ∙ once x86 (dev || fs) docker daemon

abbrev auto : Host → ResolvedAccel
auto h = if has_kvm h then kvm_accel else tcg_accel

vm_entry :
    (h : Host) (qemu : Bool)
    → is_supported (vm_kvm h.machine (is_kvm (auto h)) qemu (host_is_guest_arch h))
      ≡ (has_kvm h && qemu)
vm_entry h qemu =
    vm_kvm-supported h.machine (is_kvm (auto h)) qemu (host_is_guest_arch h) ∙ ground arith

-- The survey, where the name of docker in the settings it is given is that of the package's
-- settings, raises nothing, and each entry of its matrix is supported or has a remedy. The entries
-- are, in this order, the host path, supported exactly if the host has the guest's architecture and
-- binder and a docker on PATH whose daemon answers; the virtual machine with KVM, if KVM can run the
-- guest and QEMU is on PATH; the one with software emulation, if QEMU is; and the adb backend, if adb
-- is.
pub survey_lem :
    (h : Host) (host : HostFiles) (programs : Programs) (injected : Option BinSettings)
    → (chosen_settings programs injected).docker_bin ≡ programs.settings.docker_bin
    → let cfg = chosen_settings programs injected in
      (matrix : List ModeSupport) × (survey h host programs injected ≡ ok matrix)
      × All IsActionable matrix
      × (map (λ s. s.mode) matrix
          ≡ "redroid (binder: host / auto)" ∷ "redroid (binder: vm, KVM accel)"
            ∷ "redroid (binder: vm, TCG accel)" ∷ "adb backend (adopt remote device)" ∷ [])
      × (map is_supported matrix
          ≡ (host_is_guest_arch h
              && has_binder host
              && programs.which cfg.docker_bin
              && exits_zero (programs.run_info cfg.docker_bin))
            ∷ (has_kvm h && programs.which cfg.qemu_bin)
            ∷ programs.which cfg.qemu_bin
            ∷ programs.which "adb"
            ∷ [])
unfolding classify_modes
survey_lem h host programs injected same =
    let cfg = chosen_settings programs injected in
    let probes = probes_of h host programs cfg (auto h) in
    let dev = dev_binder_present host in
    let fs = binderfs_supported host in
    let config = kernel_config_binder host in
    let daemon = docker_daemon_responsive programs in
    let x86 = host_is_guest_arch h in
    let asked : daemon ≡ exits_zero (programs.run_info cfg.docker_bin) =
      ap (λ bin. exits_zero (programs.run_info bin)) (sym same) in
    (
      classify_modes h.machine probes,
      ap (surveyed h host programs cfg) (detect_accel-auto h),
      (classify_modes_lem h.machine dev fs config (is_kvm (auto h)) probes.qemu_present
          probes.docker probes.docker_daemon probes.adb_present x86).0,
      four (redroid_host-mode h.machine (binder_status host) probes.docker probes.docker_daemon x86)
          (vm_kvm-mode h.machine (is_kvm (auto h)) probes.qemu_present x86)
          (vm_tcg-mode h.machine probes.qemu_present x86) (adb_adopt-mode probes.adb_present),
      four
          (host_entry h.machine dev fs config probes.docker daemon x86
            ∙ ap (λ answers. x86 && (dev || fs) && probes.docker && answers) asked)
          (vm_entry h probes.qemu_present) (vm_tcg-supported h.machine probes.qemu_present x86)
          (adb_adopt-supported probes.adb_present),
    )
