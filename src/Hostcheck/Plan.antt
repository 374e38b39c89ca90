-- ===== src/Hostcheck/Plan.antt =====
-- `plan_binder_runtime` of src/beetroot/hostcheck.py, by what the probes of a host find.
use beetroot.Prelude.{
  ◌≡◌, refl, Bool, true, false, ◌||◌, not, Option, none, some, ◌==◌, string_eq, if◌then◌else◌,
}
use beetroot.Hostcheck.{
  KernelBinderConfig, built_in, as_module, not_set, classify, BinderMode, auto, host, vm,
  BinderAction, proceed, warn, block, engage_vm, plan_binder_runtime,
}

-- The action of a mode on a host that has binder loaded or not.
abbrev pub action_for : BinderMode → Bool → BinderAction
action_for vm loaded = engage_vm
action_for host loaded = if loaded then proceed else block
action_for auto loaded = if loaded then proceed else warn

-- Whether the action asks the user for something.
abbrev advises : BinderAction → Bool
advises warn = true
advises block = true
advises proceed = false
advises engage_vm = false

-- The action depends on the mode and on whether a device node or binderfs is there, and on nothing
-- else: `vm` always engages the virtual machine, which no other mode does, and a mode that lacks
-- binder blocks if it is strict and warns if not. A plan has a remedy exactly if it warns or
-- blocks.
pub plan_binder_runtime_lem :
    (mode : BinderMode) (dev_present binderfs : Bool) (kconfig : Option KernelBinderConfig)
    → let plan = plan_binder_runtime mode (classify dev_present binderfs kconfig) in
      (plan.action ≡ action_for mode (dev_present || binderfs))
      × (not (plan.remedy == "") ≡ advises plan.action)
unfolding plan_binder_runtime classify
plan_binder_runtime_lem vm dev_present binderfs kconfig = (refl, refl)
plan_binder_runtime_lem auto true binderfs kconfig = (refl, refl)
plan_binder_runtime_lem auto false true kconfig = (refl, refl)
plan_binder_runtime_lem auto false false (some built_in) = (refl, refl)
plan_binder_runtime_lem auto false false (some as_module) = (refl, refl)
plan_binder_runtime_lem auto false false (some not_set) = (refl, refl)
plan_binder_runtime_lem auto false false none = (refl, refl)
plan_binder_runtime_lem host true binderfs kconfig = (refl, refl)
plan_binder_runtime_lem host false true kconfig = (refl, refl)
plan_binder_runtime_lem host false false (some built_in) = (refl, refl)
plan_binder_runtime_lem host false false (some as_module) = (refl, refl)
plan_binder_runtime_lem host false false (some not_set) = (refl, refl)
plan_binder_runtime_lem host false false none = (refl, refl)
