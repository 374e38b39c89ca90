-- ===== src/Hostcheck.antt =====
-- The binder driver of the host (src/beetroot/hostcheck.py): the fold of the probes into a status,
-- and what `beetroot up` does with it. The probes themselves are in Probes.
mod Tests
pub mod Probes
pub mod Found
pub mod Plan
use Prim.Native.String.{String, ◌++◌}
use beetroot.Prelude.{Bool, true, false, ◌||◌, Option, none, some, ◌==◌, string_eq, if◌then◌else◌}

-- CONFIG_ANDROID_BINDER_IPC, where it is known
pub data KernelBinderConfig : Type 0 where
  built_in as_module not_set : KernelBinderConfig

pub data BinderState : Type 0 where
  ready loadable unsupported unknown : BinderState

pub record BinderStatus : Type 0 where
  pub state : BinderState
  pub reason : String
  pub remedy : String

-- status.available
abbrev pub available : BinderStatus → Bool
available status = elim status.state [
  | ready ↦ true
  | loadable ↦ false
  | unsupported ↦ false
  | unknown ↦ false
]

abbrev pub kernel_config_key : String
kernel_config_key = "CONFIG_ANDROID_BINDER_IPC"

abbrev loadable_at : String → BinderStatus
loadable_at kconfig = record {
  state = loadable;
  reason =
      "the kernel supports binder (" ++ kernel_config_key ++ "=" ++ kconfig
      ++ ") but it is not loaded — no /dev/binder, no binderfs";
  remedy =
      "load it on the host with `sudo modprobe binder_linux devices=binder,hwbinder,vndbinder` (works on GitHub-hosted CI runners), then retry";
}

abbrev pub by_config : Option KernelBinderConfig → BinderStatus
by_config (some built_in) = loadable_at "y"
by_config (some as_module) = loadable_at "m"
by_config (some not_set) = record {
  state = unsupported;
  reason =
      "this kernel has binder compiled out (" ++ kernel_config_key
      ++ " is not set) — redroid cannot boot here regardless of Docker privileges";
  remedy =
      "use a host whose kernel provides binder, or adopt a remote rooted device with `beetroot adopt <serial>` (no kernel access needed)";
}
by_config none = record {
  state = unknown;
  reason =
      "binder is not present and the kernel config could not be read, so binder support can't be determined";
  remedy =
      "if redroid fails to boot, ensure the host kernel provides binder, or adopt a remote rooted device with `beetroot adopt <serial>`";
}

-- _classify
unfoldable pub classify : Bool → Bool → Option KernelBinderConfig → BinderStatus
classify dev_present binderfs kconfig =
    if dev_present || binderfs
    then record {
      state = ready;
      reason = "binder is available (device nodes or binderfs present)";
      remedy = "";
    }
    else by_config kconfig

pub data BinderMode : Type 0 where
  auto host vm : BinderMode

pub data BinderAction : Type 0 where
  proceed warn block engage_vm : BinderAction

pub record BinderPlan : Type 0 where
  pub action : BinderAction
  pub reason : String
  pub remedy : String

abbrev pub vm_hint : String
vm_hint =
    "Or set `binder: vm` in beetroot.yaml to run redroid inside an emulated micro-VM that ships its own binder kernel (slower; no host binder required)"

abbrev pub vm_engaged : String
vm_engaged =
    "binder: vm — booting redroid inside an emulated QEMU micro-VM that ships its own binder kernel (no host binder required); see docs/design/binderless-hosts-qemu-tcg.md"

abbrev hinted : BinderStatus → String
hinted status = if status.remedy == "" then vm_hint else status.remedy ++ ". " ++ vm_hint

abbrev on_host : BinderAction → BinderStatus → BinderPlan
on_host otherwise status =
    if available status
    then record { action = proceed; reason = status.reason; remedy = "" }
    else record { action = otherwise; reason = status.reason; remedy = hinted status }

unfoldable pub plan_binder_runtime : BinderMode → BinderStatus → BinderPlan
plan_binder_runtime vm status = record { action = engage_vm; reason = vm_engaged; remedy = "" }
plan_binder_runtime host status = on_host block status
plan_binder_runtime auto status = on_host warn status
