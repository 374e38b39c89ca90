-- ===== src/Ports.antt =====
-- Port allocation (src/beetroot/ports.py): the constants, the index check, and the operations.
mod Tests
pub mod Free
pub mod Spec
pub mod Resolve
pub mod Bands
pub mod Auto
pub mod Views
use beetroot.Prelude.{
  ℕ, zero, suc, ◌+◌, ◌-◌, ◌*◌, ◌/◌, min, max, String, Bool, true, false, Option, none, some, List,
  [], ◌∷◌, ◌&&◌, not, ltb, leb, if◌then◌else◌, ℤ, pos, negsuc, to_nat, contains, has_duplicate,
  ◌==◌, int_eq, filter, any, nat_eq, string_eq, length, map, Result, ok, err, Error, negative_index,
  index_too_large, too_many_extra_ports, host_ports_collide, ◌>>=◌, ◌>>◌, raise_if,
}
use mathlib.Core.List.{foldr}
use beetroot.Dict.{Dict, values, lookup, insert, member}

abbrev pub adb_base : ℕ
adb_base = 5555

abbrev pub frida_base : ℕ
frida_base = 27042

abbrev pub frida_control_base : ℕ
frida_control_base = 27043

abbrev pub stride : ℕ
stride = 10

abbrev pub max_port : ℕ
max_port = 65535

abbrev pub privileged_port_ceiling : ℕ
privileged_port_ceiling = 1024

abbrev pub well_known_base : Dict ℕ
well_known_base =
    ("adb", adb_base) ∷ ("frida", frida_base) ∷ ("frida_control", frida_control_base) ∷ []

abbrev pub extra_pool_base : ℕ
extra_pool_base = 40000

-- max(_WELL_KNOWN_BASE.values())
abbrev highest : ℕ
highest = foldr max 0 (values well_known_base)

abbrev pub max_port_index : ℕ
max_port_index =
    min ((extra_pool_base - 1 - highest) / stride) ((max_port - extra_pool_base - stride) / stride)

-- `PortMapping` of config.py, as the fields that a validated config holds.
pub record PortMapping : Type 0 where
  pub service : Option String
  pub guest : ℕ
  pub host : Option ℕ

pub record ResolvedPort : Type 0 where
  pub service : Option String
  pub guest : ℕ
  pub host : ℕ

unfoldable pub check_index : ℤ → Result (Unit {0})
check_index (negsuc n) = err negative_index
check_index (pos n) = if ltb max_port_index n then err index_too_large else ok tt

abbrev shift : ℕ → Dict ℕ → Dict ℕ
shift offset [] = []
shift offset ((service, base) ∷ d) = (service, base + offset) ∷ shift offset d

unfoldable pub ports_for_index : ℤ → Result (Dict ℕ)
unfolding check_index
ports_for_index index = do check_index index; ok (shift (to_nat index * stride) well_known_base)

-- `_WELL_KNOWN_BASE[mapping.service]`, where the service is one of its keys
unfoldable pub base_of : Option String → Option ℕ
unfolding lookup
base_of none = none
base_of (some service) = lookup service well_known_base

-- One round of the loop: the host port of a mapping, and the next free extra slot.
unfoldable pub allot : ℕ → ℕ → PortMapping → Result (ℕ × ℕ)
unfolding base_of
allot index slot mapping = elim mapping.host [
  | some host ↦ ok (host, slot)
  | none ↦ elim (base_of mapping.service) [
    | some base ↦ ok (base + index * stride, slot)
    | none ↦
        if leb stride slot
        then err too_many_extra_ports
        else ok (extra_pool_base + index * stride + slot, slot + 1)
  ]
]

unfoldable pub resolve_from : ℕ → ℕ → List PortMapping → Result (List ResolvedPort)
resolve_from index slot [] = ok []
resolve_from index slot (mapping ∷ rest) = do
  (host, slot') ← allot index slot mapping
  resolved ← resolve_from index slot' rest
  ok (record { service = mapping.service; guest = mapping.guest; host = host } ∷ resolved)

abbrev pub hosts : List ResolvedPort → List ℕ
hosts [] = []
hosts (rp ∷ rps) = rp.host ∷ hosts rps

-- `sorted({...})` of the privileged host ports
unfoldable pub insert_sorted : ℕ → List ℕ → List ℕ
insert_sorted a [] = a ∷ []
insert_sorted a (x ∷ xs) =
    if a == x then x ∷ xs else if ltb a x then a ∷ x ∷ xs else x ∷ insert_sorted a xs

unfoldable pub sorted_set : List ℕ → List ℕ
sorted_set [] = []
sorted_set (x ∷ xs) = insert_sorted x (sorted_set xs)

-- The advisory on the console, as the ports that it names.
unfoldable pub privileged_advisory : Bool → List ResolvedPort → Option (List ℕ)
unfolding sorted_set insert_sorted
privileged_advisory quiet resolved =
    let privileged = sorted_set (filter (λ h. ltb h privileged_port_ceiling) (hosts resolved)) in
    elim privileged [ [] ↦ none | p ∷ ps ↦ if quiet then none else some (p ∷ ps) ]

pub record Resolution : Type 0 where
  pub ports : List ResolvedPort
  pub advisory : Option (List ℕ)

unfoldable pub resolve_ports : ℤ → List PortMapping → Bool → Result Resolution
unfolding check_index
resolve_ports index mappings quiet = do
  check_index index
  resolved ← resolve_from (to_nat index) 0 mappings
  raise_if (has_duplicate (hosts resolved)) host_ports_collide
  ok (record { ports = resolved; advisory = privileged_advisory quiet resolved })

-- `WELL_KNOWN_SERVICES` of config.py: the guest port of each service.
abbrev pub well_known_services : Dict ℕ
well_known_services = ("adb", 5555) ∷ ("frida", 27042) ∷ ("frida_control", 27043) ∷ []

abbrev pub is_well_known : Option String → Bool
is_well_known none = false
is_well_known (some service) = member service well_known_services

-- One round of the dict comprehension.
unfoldable pub collect_port : Dict ℕ → ResolvedPort → Dict ℕ
unfolding insert
collect_port acc rp = elim rp.service [
  | none ↦ acc
  | some service ↦ if is_well_known (some service) then insert service rp.host acc else acc
]

unfoldable pub well_known_from : Dict ℕ → List ResolvedPort → Dict ℕ
unfolding collect_port
well_known_from acc [] = acc
well_known_from acc (rp ∷ rps) = well_known_from (collect_port acc rp) rps

unfoldable pub well_known : List ResolvedPort → Dict ℕ
unfolding well_known_from
well_known resolved = well_known_from [] resolved

-- The `while` loop, on fuel for as many rounds as `used` has members, and one more.
unfoldable pub free_from : ℕ → ℕ → List ℤ → ℕ
free_from zero i used = i
free_from (suc fuel) i used =
    let next = free_from fuel (i + 1) used in if contains (pos i) used then next else i

unfoldable pub lowest_free_index : List ℤ → ℕ
unfolding free_from
lowest_free_index used = free_from (length used + 1) 0 used
