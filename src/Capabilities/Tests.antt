-- ===== src/Capabilities/Tests.antt =====
-- The support matrix, on concrete probes.
use beetroot.Prelude.{
  ◌≡◌, refl, true, false, ◌&&◌, ◌||◌, some, none, List, [], ◌∷◌, map, All, ok, ◌==◌, string_eq,
}
use beetroot.Vm.Qemu.{host_is_guest_arch}
use beetroot.Vm.Accel.{has_kvm}
use beetroot.Vm.Tests.{host as small_host}
use beetroot.Hostcheck.{classify, host, plan_binder_runtime}
use beetroot.Hostcheck.Probes.{HostFiles}
use beetroot.Hostcheck.Found.{has_binder}
use beetroot.Hostcheck.Plan.{action_for}
use beetroot.Capabilities.{ModeSupport, redroid_host}
use beetroot.Capabilities.Matrix.{is_supported, IsActionable, redroid_host-plan_binder_runtime}
use beetroot.Capabilities.Survey.{BinSettings, Programs, survey, exits_zero, survey_lem}

ready_host : is_supported (redroid_host "x86_64" (classify true false none) true true true) ≡ true
unfolding redroid_host classify
ready_host = refl

redroid_host-plan_binder_runtime_example :
    (plan_binder_runtime host (classify true false none)).action ≡ action_for host true
redroid_host-plan_binder_runtime_example =
    redroid_host-plan_binder_runtime "x86_64" host true false none true true true ready_host

-- a machine whose kernel has binder, but not its daemon
abbrev files : HostFiles
files = record {
  node_exists = λ _. false;
  proc_filesystems = some "nodev\tsysfs\nnodev\tbinder\n";
  proc_config_gz = none;
  release = "6.1.0";
  read_text = λ path. none;
}

abbrev bin_settings : BinSettings
bin_settings = record { docker_bin = "docker"; qemu_bin = "qemu-system-x86_64" }

abbrev programs : Programs
programs = record {
  which = λ name. name == "docker" || name == "qemu-system-x86_64";
  run_info = λ docker_bin. some 1;
  settings = bin_settings;
  fresh_settings = bin_settings;
}

survey_lem_example :
    (matrix : List ModeSupport) × (survey small_host files programs none ≡ ok matrix)
    × All IsActionable matrix
    × (map (λ s. s.mode) matrix
        ≡ "redroid (binder: host / auto)" ∷ "redroid (binder: vm, KVM accel)"
          ∷ "redroid (binder: vm, TCG accel)" ∷ "adb backend (adopt remote device)" ∷ [])
    × (map is_supported matrix
        ≡ (host_is_guest_arch small_host
            && has_binder files
            && programs.which "docker"
            && exits_zero (programs.run_info "docker"))
          ∷ (has_kvm small_host && programs.which "qemu-system-x86_64")
          ∷ programs.which "qemu-system-x86_64"
          ∷ programs.which "adb"
          ∷ [])
survey_lem_example = survey_lem small_host files programs none refl
