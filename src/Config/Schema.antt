-- ===== src/Config/Schema.antt =====
-- The model of `beetroot.yaml` in src/beetroot/config.py: the sections of a loaded config, with the
-- values of the schema's literals as constructors, and the checks between fields.
use beetroot.Prelude.Maybe.{is_some}
use beetroot.Prelude.{
  ℕ, String, Bool, true, false, Option, none, some, List, [], ◌∷◌, ◌==◌, string_eq, nat_eq, not,
  ◌&&◌, contains, any, Result, ok, raise_if, ◌>>◌, bad_android_version, vendor_without_gapps,
  module_source_missing, module_source_twice, module_scheme, sha256_of_moving_version,
}
use text.Mathlib.Text.{starts_with}
use beetroot.Ports.{PortMapping}
use beetroot.Config.{default_port_mappings}

pub data Gapps : Type 0 where
  no_gapps minimal full : Gapps

pub data GappsVendor : Type 0 where
  litegapps opengapps mindthegapps : GappsVendor

pub data Rendering : Type 0 where
  gpu software auto_rendering : Rendering

pub data Binder : Type 0 where
  auto_binder host_binder vm_binder : Binder

pub data Lifecycle : Type 0 where
  ephemeral durable : Lifecycle

pub data Accel : Type 0 where
  auto_accel kvm tcg : Accel

pub record Android : Type 0 where
  pub version : ℕ
  pub gapps : Gapps
  pub gapps_vendor : Option GappsVendor

pub record Display : Type 0 where
  pub width : ℕ
  pub height : ℕ
  pub fps : ℕ
  pub rendering : Rendering

-- `cpus` is the text that Python prints for the float.
pub record Resources : Type 0 where
  pub mem : String
  pub cpus : String
  pub shared_mem : String
  pub mem_reservation : Option String
  pub memswap_limit : Option String
  pub pids_limit : ℕ

pub record Frida : Type 0 where
  pub version : String
  pub sha256 : Option String

pub record Module : Type 0 where
  pub url : Option String
  pub path : Option String
  pub sha256 : Option String

-- `smp` is `none` for "auto".
pub record Vm : Type 0 where
  pub kernel : Option String
  pub rootfs : Option String
  pub accel : Accel
  pub smp : Option ℕ
  pub memory_mib : ℕ
  pub boot_cache : Bool

-- Of the section `magisk`, only its `denylist`; `api_version` is 8 in every loaded config.
pub record InstanceConfig : Type 0 where
  pub lifecycle : Lifecycle
  pub android : Android
  pub display : Display
  pub resources : Resources
  pub frida : Option Frida
  pub modules : List Module
  pub denylist : List String
  pub ports : List PortMapping
  pub binder : Binder
  pub vm : Vm

abbrev pub default_android_version : ℕ
default_android_version = 14

abbrev pub default_android : Android
default_android = record { version = default_android_version; gapps = minimal; gapps_vendor = none }

abbrev pub default_display : Display
default_display = record { width = 540; height = 960; fps = 3; rendering = auto_rendering }

abbrev pub default_resources : Resources
default_resources = record {
  mem = "3g";
  cpus = "2.0";
  shared_mem = "256m";
  mem_reservation = none;
  memswap_limit = none;
  pids_limit = 4096;
}

abbrev pub default_denylist : List String
default_denylist =
    "com.google.android.gms" ∷ "com.google.android.gms/com.google.android.gms.unstable" ∷ []

abbrev pub default_vm : Vm
default_vm = record {
  kernel = none;
  rootfs = none;
  accel = auto_accel;
  smp = none;
  memory_mib = 8192;
  boot_cache = false;
}

-- InstanceConfig(lifecycle=lifecycle)
abbrev pub default_config : Lifecycle → InstanceConfig
default_config lifecycle = record {
  lifecycle = lifecycle;
  android = default_android;
  display = default_display;
  resources = default_resources;
  frida = none;
  modules = [];
  denylist = default_denylist;
  ports = default_port_mappings;
  binder = auto_binder;
  vm = default_vm;
}

abbrev pub binder_text : Binder → String
binder_text auto_binder = "auto"
binder_text host_binder = "host"
binder_text vm_binder = "vm"

abbrev pub lifecycle_text : Lifecycle → String
lifecycle_text ephemeral = "ephemeral"
lifecycle_text durable = "durable"

unfoldable pub validate_android_version : ℕ → Result ℕ
validate_android_version v = do
  raise_if (not (contains v (11 ∷ 12 ∷ 13 ∷ 14 ∷ []))) bad_android_version
  ok v

abbrev pub asks_none : Gapps → Bool
asks_none no_gapps = true
asks_none _ = false

-- _reject_vendor_with_none
unfoldable pub reject_vendor_with_none : Android → Result (Unit {0})
reject_vendor_with_none android =
    raise_if (asks_none android.gapps && is_some android.gapps_vendor) vendor_without_gapps

-- `bool(text)` of a text that may not be there
abbrev pub given_text : Option String → Bool
given_text none = false
given_text (some s) = not (s == "")

abbrev bad_scheme : Option String → Bool
bad_scheme none = false
bad_scheme (some url) = not (url == "") && not (any (starts_with url) ("http://" ∷ "https://" ∷ []))

-- Module.model_post_init
unfoldable pub check_module : Module → Result (Unit {0})
check_module m = do
  raise_if (not (given_text m.url) && not (given_text m.path)) module_source_missing
  raise_if (given_text m.url && given_text m.path) module_source_twice
  raise_if (bad_scheme m.url) module_scheme

-- _reject_sha256_with_symbolic_version
unfoldable pub check_frida_digest : Frida → Result (Unit {0})
check_frida_digest f = elim f.sha256 [
  | none ↦ ok tt
  | some digest ↦ raise_if (contains f.version ("auto" ∷ "latest" ∷ [])) sha256_of_moving_version
]
