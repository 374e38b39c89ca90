-- ===== src/Hostcheck/Tests.antt =====
-- The probes of a host and the plan for it, on concrete files.
use Prim.Native.String.{String}
use beetroot.Prelude.{
  ◌≡◌, ◌↔◌, refl, true, false, some, none, ◌==◌, string_eq, if◌then◌else◌, [], ◌∷◌,
}
use beetroot.Prelude.Words.{split_lines, split_words, strip, strip_quotes, after_equals}
use beetroot.Hostcheck.{
  classify, auto, warn, built_in, not_set, plan_binder_runtime, ready, loadable, unsupported,
}
use beetroot.Hostcheck.Probes.{
  HostFiles, kernel_config_lines, scan_config, kernel_config_binder, binderfs_supported,
  binder_status,
}
use beetroot.Hostcheck.Found.{Enables, Disables, First, has_binder, binder_status_lem}

unloaded : (plan_binder_runtime auto (classify false false (some built_in))).action ≡ warn
unfolding plan_binder_runtime classify
unloaded = refl

abbrev filesystems : String
filesystems = "nodev\tsysfs\nnodev\tbinder\n\text4\n"

abbrev config : String
config =
    "CONFIG_64BIT=y\n # CONFIG_ANDROID_BINDER_IPC is not set\nCONFIG_ANDROID_BINDER_IPC=\"m\"\n"

-- a host without nodes, whose config is under /boot
abbrev host : HostFiles
host = record {
  node_exists = λ _. false;
  proc_filesystems = some "nodev\tsysfs\n\text4\n";
  proc_config_gz = none;
  release = "6.1.0";
  read_text = λ path. if path == "/boot/config-6.1.0" then some config else none;
}

not_set_first : kernel_config_binder host ≡ some not_set
unfolding scan_config split_lines strip
not_set_first = refl

quoted :
    scan_config ("CONFIG_ANDROID_BINDER_IPC=n" ∷ "CONFIG_ANDROID_BINDER_IPC=\"y\"" ∷ [])
    ≡ some built_in
unfolding scan_config strip strip_quotes after_equals
quoted = refl

listed : binderfs_supported (record host { proc_filesystems = some filesystems }) ≡ true
unfolding split_lines split_words
listed = refl

binder_status_lem_example :
    let found = (binder_status host).state in
    let lines = kernel_config_lines host in
    ((found ≡ ready) ↔ (has_binder host ≡ true))
    × ((found ≡ loadable) ↔ ((has_binder host ≡ false) × First Enables lines))
    × ((found ≡ unsupported) ↔ ((has_binder host ≡ false) × First Disables lines))
binder_status_lem_example = binder_status_lem host
