-- ===== src/Hostcheck/Probes.antt =====
-- The probes of the host in src/beetroot/hostcheck.py, as functions of the files it reads, down to
-- `binder_status`.
use Prim.Native.String.{String, ◌++◌}
use text.Mathlib.Text.{starts_with}
use beetroot.Prelude.{
  Bool, false, Option, none, some, List, [], ◌∷◌, ◌==◌, string_eq, any, if◌then◌else◌,
}
use beetroot.Prelude.Maybe.{or_else}
use beetroot.Prelude.Words.{strip, split_lines, split_words, strip_quotes, after_equals}
use beetroot.Hostcheck.{
  KernelBinderConfig, built_in, as_module, not_set, BinderStatus, kernel_config_key, classify,
}

-- What the machine answers: `node_exists` is `Path.exists`; the others are the text of a file, none
-- where the read raises an OSError. `proc_config_gz` is the text after `gzip.decompress`.
pub record HostFiles : Type 0 where
  pub node_exists : String → Bool
  pub proc_filesystems : Option String
  pub proc_config_gz : Option String
  pub release : String
  pub read_text : String → Option String

abbrev pub binder_device_nodes : List String
binder_device_nodes = "/dev/binder" ∷ "/dev/hwbinder" ∷ "/dev/vndbinder" ∷ []

abbrev pub dev_binder_present : HostFiles → Bool
dev_binder_present host = any host.node_exists binder_device_nodes

-- fields and fields[-1] == "binder"
abbrev ends_in_binder : List String → Bool
ends_in_binder [] = false
ends_in_binder (field ∷ []) = field == "binder"
ends_in_binder (field ∷ next ∷ fields) = ends_in_binder (next ∷ fields)

abbrev lists_binder : Option String → Bool
lists_binder none = false
lists_binder (some text) = any (λ line. ends_in_binder (split_words line)) (split_lines text)

abbrev pub binderfs_supported : HostFiles → Bool
binderfs_supported host = lists_binder host.proc_filesystems

abbrev boot_config_path : HostFiles → String
boot_config_path host = "/boot/config-" ++ host.release

abbrev lines_of : Option String → List String
lines_of none = []
lines_of (some text) = split_lines text

abbrev pub kernel_config_lines : HostFiles → List String
kernel_config_lines host =
    lines_of (or_else host.proc_config_gz (host.read_text (boot_config_path host)))

-- The value that a stripped line gives the key.
abbrev pub value_of : String → String
value_of line = strip_quotes (strip (after_equals line))

abbrev pub key_equals : String
key_equals = kernel_config_key ++ "="

abbrev pub not_set_comment : String
not_set_comment = "# " ++ kernel_config_key ++ " is not set"

-- if value in ("y", "m")
abbrev config_value : String → Option KernelBinderConfig
config_value value =
    if value == "y" then some built_in else if value == "m" then some as_module else none

-- What one line of the config, stripped, returns.
abbrev pub line_config : String → Option KernelBinderConfig
line_config line =
    if starts_with line key_equals
    then config_value (value_of line)
    else if line == not_set_comment
    then some not_set
    else none

-- for raw in _kernel_config_lines()
unfoldable pub scan_config : List String → Option KernelBinderConfig
scan_config [] = none
scan_config (raw ∷ lines) = or_else (line_config (strip raw)) (scan_config lines)

abbrev pub kernel_config_binder : HostFiles → Option KernelBinderConfig
kernel_config_binder host = scan_config (kernel_config_lines host)

abbrev pub binder_status : HostFiles → BinderStatus
binder_status host =
    classify (dev_binder_present host) (binderfs_supported host) (kernel_config_binder host)
