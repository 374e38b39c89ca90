-- ===== src/Registry/Tests/Checks.antt =====
-- Runs of the collision check on concrete inputs.
use beetroot.Prelude.{
  eq_iff, ℕ, ◌≡◌, refl, String, false, none, some, List, [], ◌∷◌, pos, ok, err, port_collision,
  ◌==◌, if◌then◌else◌, arith, contains, nat_eq, int_eq, string_eq,
}
use beetroot.Dict.{Dict, lookup, insert}
use beetroot.Json.{field_get, dict_of, strings_of}
use beetroot.Ports.{PortMapping, ResolvedPort, resolve_ports, resolve_from, allot, ports_for_index}
use beetroot.Ports.Bands.{pins}
use beetroot.Registry.Backend.{
  parse_backend_config, validate, validate_redroid, validate_adb, validate_vm, opaque_backend,
  kind_of,
}
use beetroot.Registry.Rows.{read_rows, parse_row, validate_meta}
use beetroot.Registry.Storage.{parse_registry, read, write, initialise, transact}
use beetroot.Registry.Collisions.{
  Loaded, loaded, missing, assert_no_port_collision, assert_body, resolved_host_ports_from,
  row_host_ports, host_set, find_port_collision, owner_of, without,
}
use beetroot.Registry.Siblings.{assert_no_port_collision_protects}
use beetroot.Registry.Tests.Sample.{sample}
use beetroot.Registry.Tests.Document.{classes, web, files, listed-web}

abbrev web_ports : List PortMapping
web_ports =
    record { service = some "adb"; guest = 5555; host = none }
    ∷ record { service = none; guest = 80; host = some 8080 }
    ∷ []

abbrev config : String → Loaded
config path = if path == "/srv/web" then loaded (web_ports) else missing

abbrev new_ports : List ResolvedPort
new_ports =
    record { service = some "adb"; guest = 5555; host = 5565 }
    ∷ record { service = none; guest = 80; host = 8081 }
    ∷ []

check_passes : (assert_no_port_collision sample classes config "new" new_ports files).0 ≡ ok tt
unfolding assert_no_port_collision assert_body resolved_host_ports_from row_host_ports host_set
    resolve_ports resolve_from allot ports_for_index find_port_collision owner_of without transact
    initialise read write parse_registry read_rows parse_row validate_meta parse_backend_config
    validate validate_redroid validate_adb validate_vm opaque_backend kind_of field_get dict_of
    strings_of lookup insert
check_passes = refl

-- One port of `web` is taken.
check_refuses :
    (assert_no_port_collision sample classes config "new"
      (record { service = none; guest = 80; host = 8080 } ∷ [])
      files).0
    ≡ err (port_collision 8080 "web" "None")
unfolding assert_no_port_collision assert_body resolved_host_ports_from row_host_ports host_set
    resolve_ports resolve_from allot ports_for_index find_port_collision owner_of without transact
    initialise read write parse_registry read_rows parse_row validate_meta parse_backend_config
    validate validate_redroid validate_adb validate_vm opaque_backend kind_of field_get dict_of
    strings_of lookup insert
check_refuses = refl

assert_no_port_collision_protects_example :
    (set : List ℕ) × (host_set (pos 0) web_ports ≡ ok set)
    × (contains 8081 set ≡ false)
    × (contains 8081 (pins web_ports) ≡ false)
assert_no_port_collision_protects_example =
    assert_no_port_collision_protects sample classes config "new" new_ports files "web" web 0
      "/srv/web" web_ports 8081 check_passes (ground (arith, eq_iff "web" "new")) listed-web refl
      refl refl refl

abbrev others : Dict (List ℕ)
others = ("web", 5555 ∷ 8080 ∷ []) ∷ ("box", 5575 ∷ []) ∷ []

clash : find_port_collision new_ports (("vm", 8081 ∷ []) ∷ others) ≡ some (8081, "vm", "None")
unfolding find_port_collision owner_of
clash = refl
