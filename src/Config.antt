-- ===== src/Config.antt =====
-- The ports of a config (src/beetroot/config.py): the range checks of a mapping, the validators of
-- the list, the migration of the old mapping form, and the order in which a load applies them.
mod Tests
pub mod Load
pub mod Accepted
pub mod Legacy
pub mod Schema
pub mod Render
pub mod Variables
pub mod Addresses
use mathlib.Core.Option
use beetroot.Prelude.{
  ℕ, String, Bool, true, false, Option, none, some, List, [], ◌∷◌, ◌&&◌, not, any, leb, ◌==◌,
  nat_eq, string_eq, ℤ, pos, negsuc, to_nat, has_duplicate, contains, if◌then◌else◌, Result, ok,
  err, ◌>>=◌, ◌>>◌, raise_if, guest_out_of_range, host_out_of_range, duplicate_services,
  duplicate_guests, duplicate_hosts, legacy_ports_keys, fixed_guest, adb_missing, frida_missing,
  frida_control_missing,
}
use beetroot.Dict.{Dict, keys, lookup, member}
use beetroot.Ports.{PortMapping, max_port, well_known_services}
use beetroot.Ports.Bands.{pins}
use beetroot.Ports.Auto.{labels}

abbrev pub min_port : ℕ
min_port = 1

-- An entry of the list as the YAML file gives it.
pub record RawPort : Type 0 where
  pub service : Option String
  pub guest : ℤ
  pub host : Option ℤ

-- The `ports` key: not there, the old form with the host port of each service, or a list.
pub data RawPorts : Type 0 where
  absent : RawPorts
  mapping : Dict (Option ℤ) → RawPorts
  listing : List RawPort → RawPorts

abbrev pub in_range : ℤ → Bool
in_range (pos n) = leb min_port n && leb n max_port
in_range (negsuc n) = false

unfoldable pub check_guest_range : ℤ → Result ℕ
check_guest_range v = if in_range v then ok (to_nat v) else err guest_out_of_range

unfoldable pub check_host_range : Option ℤ → Result (Option ℕ)
check_host_range none = ok none
check_host_range (some v) = if in_range v then ok (some (to_nat v)) else err host_out_of_range

unfoldable pub validate_port : RawPort → Result PortMapping
unfolding check_guest_range check_host_range
validate_port raw = do
  guest ← check_guest_range raw.guest
  host ← check_host_range raw.host
  ok (record { service = raw.service; guest = guest; host = host })

unfoldable pub validate_ports : List RawPort → Result (List PortMapping)
unfolding validate_port
validate_ports [] = ok []
validate_ports (raw ∷ raws) = do m ← validate_port raw; ms ← validate_ports raws; ok (m ∷ ms)

-- [PortMapping(service=service, guest=guest) for service, guest in ...]
abbrev pub seeded : Dict ℕ → List PortMapping
seeded [] = []
seeded ((service, guest) ∷ d) =
    record { service = some service; guest = guest; host = none } ∷ seeded d

abbrev pub default_port_mappings : List PortMapping
default_port_mappings = seeded well_known_services

-- raw_ports.get(service)
unfoldable pub legacy_host : String → Dict (Option ℤ) → Option ℤ
unfolding lookup
legacy_host service raw = elim (lookup service raw) [ none ↦ none | some host ↦ host ]

abbrev pub migrated : Dict (Option ℤ) → Dict ℕ → List RawPort
migrated raw [] = []
migrated raw ((service, guest) ∷ d) =
    record { service = some service; guest = pos guest; host = legacy_host service raw }
    ∷ migrated raw d

-- _migrate_legacy_ports_mapping
unfoldable pub migrate_legacy_ports_mapping : RawPorts → Result RawPorts
unfolding legacy_host
migrate_legacy_ports_mapping (mapping []) = ok absent
migrate_legacy_ports_mapping (mapping (entry ∷ raw)) = do
  raise_if (any (λ k. not (member k well_known_services)) (keys (entry ∷ raw))) legacy_ports_keys
  ok (listing (migrated (entry ∷ raw) well_known_services))
migrate_legacy_ports_mapping absent = ok absent
migrate_legacy_ports_mapping (listing raws) = ok (listing raws)

abbrev pub guests : List PortMapping → List ℕ
guests [] = []
guests (m ∷ ms) = m.guest ∷ guests ms

-- _check_ports_distinct
unfoldable pub check_ports_distinct : List PortMapping → Result (Unit {0})
unfolding labels pins
check_ports_distinct ports = do
  raise_if (has_duplicate (labels ports)) duplicate_services
  raise_if (has_duplicate (guests ports)) duplicate_guests
  raise_if (has_duplicate (pins ports)) duplicate_hosts
  ok tt

-- m.service in WELL_KNOWN_SERVICES and m.guest != WELL_KNOWN_SERVICES[m.service]
unfoldable pub wrong_guest : PortMapping → Bool
unfolding lookup
wrong_guest m = elim m.service [
  | none ↦ false
  | some service ↦ elim (lookup service well_known_services) [
    | none ↦ false
    | some guest ↦ not (m.guest == guest)
  ]
]

-- _check_required_addressing_services, by whether the config has a `frida` block
unfoldable pub check_required_services : Bool → List PortMapping → Result (Unit {0})
unfolding labels wrong_guest
check_required_services frida ports = do
  raise_if (any wrong_guest ports) fixed_guest
  raise_if (not (contains "adb" (labels ports))) adb_missing
  raise_if (frida && not (contains "frida" (labels ports))) frida_missing
  raise_if (frida && not (contains "frida_control" (labels ports))) frida_control_missing
  ok tt

abbrev pub ports_of : RawPorts → Result (List PortMapping)
ports_of absent = ok default_port_mappings
ports_of (listing raws) = validate_ports raws
ports_of (mapping raw) = err legacy_ports_keys

-- `InstanceConfig.model_validate`, as far as it concerns `ports`
unfoldable pub load_ports : Bool → RawPorts → Result (List PortMapping)
unfolding migrate_legacy_ports_mapping check_ports_distinct check_required_services
load_ports frida raw = do
  new_form ← migrate_legacy_ports_mapping raw
  ports ← ports_of new_form
  check_ports_distinct ports
  check_required_services frida ports
  ok ports
