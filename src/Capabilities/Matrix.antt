-- ===== src/Capabilities/Matrix.antt =====
-- The support matrix of src/beetroot/capabilities.py, by what the probes of a host find.
use Prim.Native.String.{String}
use beetroot.Prelude.{
  ◌≡◌, refl, ap, sym, ◌∙◌, Bool, true, false, ◌&&◌, ◌||◌, not, Option, none, some, [], ◌∷◌, All,
  arith, ◌==◌, string_eq, contains,
}
use beetroot.Hostcheck.{
  KernelBinderConfig, built_in, as_module, not_set, classify, BinderMode, plan_binder_runtime,
}
use beetroot.Hostcheck.Plan.{action_for, plan_binder_runtime_lem}
use beetroot.Capabilities.{ModeSupport, redroid_host, vm_kvm, vm_tcg, adb_adopt, classify_modes}

abbrev pub is_supported : ModeSupport → Bool
is_supported s = s.status == "supported"

-- The host path is supported exactly on an x86_64 host that has binder loaded and a Docker CLI and
-- daemon.
pub redroid_host-supported :
    (machine : String) (dev_present binderfs : Bool) (kconfig : Option KernelBinderConfig)
    (docker docker_daemon host_is_x86_64 : Bool)
    → is_supported (
        redroid_host machine
          (classify dev_present binderfs kconfig)
          docker
          docker_daemon
          host_is_x86_64)
      ≡ (host_is_x86_64 && (dev_present || binderfs) && docker && docker_daemon)
unfolding redroid_host classify
redroid_host-supported machine dev binderfs kconfig docker daemon false = refl
redroid_host-supported machine true binderfs kconfig false daemon true = refl
redroid_host-supported machine true binderfs kconfig true false true = refl
redroid_host-supported machine true binderfs kconfig true true true = refl
redroid_host-supported machine false true kconfig false daemon true = refl
redroid_host-supported machine false true kconfig true false true = refl
redroid_host-supported machine false true kconfig true true true = refl
redroid_host-supported machine false false (some built_in) docker daemon true = refl
redroid_host-supported machine false false (some as_module) docker daemon true = refl
redroid_host-supported machine false false (some not_set) docker daemon true = refl
redroid_host-supported machine false false none docker daemon true = refl

-- Where the matrix says that the host path is supported, `up` in every mode does what it does with
-- binder loaded: it neither warns nor blocks.
pub redroid_host-plan_binder_runtime :
    (machine : String) (mode : BinderMode) (dev_present binderfs : Bool)
    (kconfig : Option KernelBinderConfig) (docker docker_daemon host_is_x86_64 : Bool)
    → is_supported (
        redroid_host machine
          (classify dev_present binderfs kconfig)
          docker
          docker_daemon
          host_is_x86_64)
      ≡ true
    → (plan_binder_runtime mode (classify dev_present binderfs kconfig)).action
      ≡ action_for mode true
redroid_host-plan_binder_runtime machine mode dev binderfs kconfig docker daemon x86 h =
    let all = sym (redroid_host-supported machine dev binderfs kconfig docker daemon x86) ∙ h in
    let loaded : (dev || binderfs) ≡ true = ground arith in
    (plan_binder_runtime_lem mode dev binderfs kconfig).0 ∙ ap (action_for mode) loaded

-- An entry that is not supported says what to do.
abbrev pub IsActionable : ModeSupport → Type 0
IsActionable s = (is_supported s || not (s.remedy == "")) ≡ true

redroid_host-IsActionable :
    (machine : String) (dev binderfs : Bool) (kconfig : Option KernelBinderConfig)
    (docker daemon x86 : Bool)
    → IsActionable (redroid_host machine (classify dev binderfs kconfig) docker daemon x86)
unfolding redroid_host classify
redroid_host-IsActionable machine dev binderfs kconfig docker daemon false = refl
redroid_host-IsActionable machine true binderfs kconfig false daemon true = refl
redroid_host-IsActionable machine true binderfs kconfig true false true = refl
redroid_host-IsActionable machine true binderfs kconfig true true true = refl
redroid_host-IsActionable machine false true kconfig false daemon true = refl
redroid_host-IsActionable machine false true kconfig true false true = refl
redroid_host-IsActionable machine false true kconfig true true true = refl
redroid_host-IsActionable machine false false (some built_in) docker daemon true = refl
redroid_host-IsActionable machine false false (some as_module) docker daemon true = refl
redroid_host-IsActionable machine false false (some not_set) docker daemon true = refl
redroid_host-IsActionable machine false false none docker daemon true = refl

vm_kvm-IsActionable :
    (machine : String) (kvm qemu x86 : Bool) → IsActionable (vm_kvm machine kvm qemu x86)
unfolding vm_kvm
vm_kvm-IsActionable machine kvm qemu false = refl
vm_kvm-IsActionable machine false qemu true = refl
vm_kvm-IsActionable machine true false true = refl
vm_kvm-IsActionable machine true true true = refl

-- Whether the status is one of those of a mode that works or can be made to work.
abbrev pub is_reachable : ModeSupport → Bool
is_reachable s = contains s.status ("supported" ∷ "needs-setup" ∷ [])

vm_tcg_works :
    (machine : String) (qemu x86 : Bool)
    → IsActionable (vm_tcg machine qemu x86) × (is_reachable (vm_tcg machine qemu x86) ≡ true)
unfolding vm_tcg
vm_tcg_works machine false x86 = (refl, refl)
vm_tcg_works machine true x86 = (refl, refl)

adb_adopt_works :
    (adb : Bool) → IsActionable (adb_adopt adb) × (is_reachable (adb_adopt adb) ≡ true)
unfolding adb_adopt
adb_adopt_works false = (refl, refl)
adb_adopt_works true = (refl, refl)

vm_kvm-vm_tcg :
    (machine : String) (kvm qemu x86 : Bool)
    → (not (is_supported (vm_kvm machine kvm qemu x86)) || is_supported (vm_tcg machine qemu x86))
      ≡ true
unfolding vm_kvm vm_tcg
vm_kvm-vm_tcg machine kvm qemu false = refl
vm_kvm-vm_tcg machine false qemu true = refl
vm_kvm-vm_tcg machine true false true = refl
vm_kvm-vm_tcg machine true true true = refl

-- On every host: each entry of the matrix is supported or has a remedy, the software-emulated
-- virtual machine and the adb backend are never unsupported or unknown, and where the accelerated
-- virtual machine is supported the emulated one is too.
pub classify_modes_lem :
    (machine : String) (dev_present binderfs : Bool) (kconfig : Option KernelBinderConfig)
    (kvm qemu_present docker docker_daemon adb_present host_is_x86_64 : Bool)
    → All IsActionable (
        classify_modes machine (record {
          binder = classify dev_present binderfs kconfig;
          kvm = kvm;
          qemu_present = qemu_present;
          docker = docker;
          docker_daemon = docker_daemon;
          adb_present = adb_present;
          host_is_x86_64 = host_is_x86_64;
        }))
      × (is_reachable (vm_tcg machine qemu_present host_is_x86_64) ≡ true)
      × (is_reachable (adb_adopt adb_present) ≡ true)
      × ((not (is_supported (vm_kvm machine kvm qemu_present host_is_x86_64))
            || is_supported (vm_tcg machine qemu_present host_is_x86_64))
          ≡ true)
unfolding classify_modes
classify_modes_lem machine dev binderfs kconfig kvm qemu docker daemon adb x86 = (
  (
    redroid_host-IsActionable machine dev binderfs kconfig docker daemon x86,
    (
      vm_kvm-IsActionable machine kvm qemu x86,
      ((vm_tcg_works machine qemu x86).0, ((adb_adopt_works adb).0, tt)),
    ),
  ),
  (vm_tcg_works machine qemu x86).1,
  (adb_adopt_works adb).1,
  vm_kvm-vm_tcg machine kvm qemu x86,
)
