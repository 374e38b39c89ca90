-- ===== src/Prelude/Errors.antt =====
-- Fallible code: the exceptions that the modelled functions raise, one constructor to a `raise`.
use Prim.Native.Nat.{ℕ}
use Prim.Native.String.{String}
use mathlib.Core.Path.{◌≡◌, refl}
use mathlib.Core.Logic.{◌⊎◌, inl, inr}
use mathlib.Core.Bool.{Bool, true, false}

pub data Error : Type 0 where
  negative_index index_too_large too_many_extra_ports host_ports_collide : Error
  no_kind_default kind_taken : Error
  already_registered no_backend unknown_instance not_redroid no_directory invalid_config : Error
  guest_out_of_range host_out_of_range duplicate_services duplicate_guests : Error
  duplicate_hosts legacy_ports_keys fixed_guest adb_missing frida_missing : Error
  frida_control_missing : Error
  bad_android_version vendor_without_gapps module_source_missing module_source_twice : Error
  module_scheme sha256_of_moving_version : Error
  bad_name lifecycle_with_config config_exists directory_overlap no_config : Error
  not_confirmed no_instance not_installed os_error network_failed compose_failed : Error
  bad_manifest no_manifest bad_archive too_large occupied_target file_target vm_snapshot : Error
  launch_failed capability_missing service_missing out_of_fuel : Error
  port_collision : ℕ → String → String → Error

-- A value that is returned, or the exception that is raised.
pub data Result {ℓ} (V : Type ℓ) : Type ℓ where
  err : Error → Result V
  ok : V → Result V

infixl 5 ◌>>=◌ ◌>>◌
abbrev pub ◌>>=◌ {ℓ κ} : {V : Type ℓ} {W : Type κ} → Result V → (V → Result W) → Result W
err raised >>= next = err raised
ok v >>= next = next v

abbrev pub ◌>>◌ {ℓ} : {W : Type ℓ} → Result (Unit {0}) → Result W → Result W
err raised >> next = err raised
ok done >> next = next

-- `if test: raise e`
abbrev pub raise_if : Bool → Error → Result (Unit {0})
raise_if true e = err e
raise_if false e = ok tt

pub >>=-eq-ok {ℓ κ} :
    {V : Type ℓ} {W : Type κ} (r : Result V) (next : V → Result W) {w : W}
    → (r >>= next) ≡ ok w
    → (v : V) × (r ≡ ok v) × (next v ≡ ok w)
>>=-eq-ok (err raised) next h = cc
>>=-eq-ok (ok v) next h = (v, refl, h)

pub Result-cases {ℓ} :
    {A : Type ℓ} (r : Result A) → ((e : Error) × (r ≡ err e)) ⊎ ((a : A) × (r ≡ ok a))
Result-cases (err e) = inl (e, refl)
Result-cases (ok a) = inr (a, refl)

pub ok_injective {ℓ} : {A : Type ℓ} (a b : A) → ◌≡◌ {A = Result A} (ok a) (ok b) → a ≡ b
ok_injective a b h = cc

pub err-ne-ok {ℓ} : {A : Type ℓ} (e : Error) {a : A} → ◌≡◌ {A = Result A} (err e) (ok a) → ⊥
err-ne-ok e h = cc
