-- ===== src/Config/Load.antt =====
-- The ports of a config that src/beetroot/config.py has accepted.
use mathlib.Core.Option
use beetroot.Prelude.{
  ℕ, ◌≤◌, ◌≡◌, sym, ap, ◌∙◌, Bool, true, false, Option, none, some, List, [], ◌∷◌, arith, ℤ, pos,
  negsuc, to_nat, contains, any, not, ◌&&◌, has_duplicate-false_iff, Distinct, All, nat_eq,
  string_eq, ok, Result-cases, Bool-cases, inl, inr, ok_injective,
}
use beetroot.Ports.{PortMapping, Resolution, resolve_ports, max_port, max_port_index, stride}
use beetroot.Ports.Bands.{pins}
use beetroot.Ports.Auto.{labels, IsAuto, resolve_ports_auto}
use beetroot.Ports.Spec.{auto_count}
use beetroot.Config.{
  RawPort, RawPorts, mapping, listing, absent, min_port, in_range, check_guest_range,
  check_host_range, validate_port, validate_ports, migrate_legacy_ports_mapping, guests,
  check_ports_distinct, wrong_guest, check_required_services, ports_of, load_ports,
}

-- The mapping that a raw entry stands for.
abbrev pub as_mapping : RawPort → PortMapping
as_mapping raw = record {
  service = raw.service;
  guest = to_nat raw.guest;
  host = Option.map to_nat raw.host;
}

abbrev pub as_mappings : List RawPort → List PortMapping
as_mappings [] = []
as_mappings (raw ∷ raws) = as_mapping raw ∷ as_mappings raws

-- A port that TCP has.
abbrev pub IsPort : ℕ → Type 0
IsPort n = (min_port ≤ n) × (n ≤ max_port)

abbrev pub IsHost : Option ℕ → Type 0
IsHost none = Unit
IsHost (some n) = IsPort n

in_range-IsPort : (v : ℤ) → in_range v ≡ true → IsPort (to_nat v)
in_range-IsPort (pos n) h = ground arith
in_range-IsPort (negsuc n) h = cc

check_guest_range-eq-ok : (v : ℤ) {n : ℕ} → check_guest_range v ≡ ok n → (n ≡ to_nat v) × IsPort n
unfolding check_guest_range
check_guest_range-eq-ok v h = elim (Bool-cases (in_range v)) [
  | inl e ↦ ground (arith, in_range-IsPort v e)
  | inr e ↦ absurd (ground arith)
]

check_host_range-eq-ok :
    (v : Option ℤ) {n : Option ℕ}
    → check_host_range v ≡ ok n
    → (n ≡ Option.map to_nat v) × IsHost (Option.map to_nat v)
unfolding check_host_range
check_host_range-eq-ok none h = (sym (ok_injective none _ h), tt)
check_host_range-eq-ok (some v) h = elim (Bool-cases (in_range v)) [
  | inl e ↦ (ground arith, in_range-IsPort v e)
  | inr e ↦ absurd (ground arith)
]

-- A mapping with ports that TCP has.
abbrev pub InPorts : PortMapping → Type 0
InPorts m = IsPort m.guest × IsHost m.host

validate_port-eq-ok :
    (raw : RawPort) {m : PortMapping}
    → validate_port raw ≡ ok m
    → (m ≡ as_mapping raw) × InPorts (as_mapping raw)
unfolding validate_port
validate_port-eq-ok raw h = elim (Result-cases (check_guest_range raw.guest)) [
  | inl (x, f) ↦ absurd (ground arith)
  | inr (g, f) ↦ elim (Result-cases (check_host_range raw.host)) [
    | inl (y, k) ↦ absurd (ground arith)
    | inr (p, k) ↦
        let (eg, hg) = check_guest_range-eq-ok raw.guest f in
        let (ep, hp) = check_host_range-eq-ok raw.host k in (ground arith, (rw (sym eg) hg, hp))
  ]
]

pub validate_ports-eq-ok :
    (raws : List RawPort) {ms : List PortMapping}
    → validate_ports raws ≡ ok ms
    → (ms ≡ as_mappings raws) × All InPorts (as_mappings raws)
unfolding validate_ports
validate_ports-eq-ok [] h = (sym (ok_injective [] _ h), tt)
validate_ports-eq-ok (raw ∷ raws) h = elim (Result-cases (validate_port raw)) [
  | inl (x, f) ↦ absurd (ground arith)
  | inr (m, f) ↦ elim (Result-cases (validate_ports raws)) [
    | inl (y, k) ↦ absurd (ground arith)
    | inr (ms, k) ↦
        let (e, v) = validate_port-eq-ok raw f in
        let (es, vs) = validate_ports-eq-ok raws k in (ground arith, (v, vs))
  ]
]

pub check_ports_distinct-eq-ok :
    (ms : List PortMapping)
    → check_ports_distinct ms ≡ ok tt
    → Distinct (labels ms) × Distinct (guests ms) × Distinct (pins ms)
unfolding check_ports_distinct
check_ports_distinct-eq-ok ms h = ground (
  arith,
  has_duplicate-false_iff (labels ms),
  has_duplicate-false_iff (guests ms),
  has_duplicate-false_iff (pins ms),
)

pub check_required_services-eq-ok :
    (frida : Bool) (ms : List PortMapping)
    → check_required_services frida ms ≡ ok tt
    → (any wrong_guest ms ≡ false)
      × (contains "adb" (labels ms) ≡ true)
      × ((frida && not (contains "frida" (labels ms))) ≡ false)
      × ((frida && not (contains "frida_control" (labels ms))) ≡ false)
unfolding check_required_services
check_required_services-eq-ok frida ms h = ground arith

pub load_ports-eq-ok :
    (frida : Bool) (raw : RawPorts) {ms : List PortMapping}
    → load_ports frida raw ≡ ok ms
    → (form : RawPorts) × (migrate_legacy_ports_mapping raw ≡ ok form)
      × (ports_of form ≡ ok ms)
      × (check_ports_distinct ms ≡ ok tt)
      × (check_required_services frida ms ≡ ok tt)
unfolding load_ports
load_ports-eq-ok frida raw {ms} h = elim (Result-cases (migrate_legacy_ports_mapping raw)) [
  | inl (x, f) ↦ absurd (ground arith)
  | inr (form, f) ↦ elim (Result-cases (ports_of form)) [
    | inl (y, k) ↦ absurd (ground arith)
    | inr (ports, k) ↦ elim (Result-cases (check_ports_distinct ports)) [
      | inl (z, d) ↦ absurd (ground arith)
      | inr (u, d) ↦ elim (Result-cases (check_required_services frida ports)) [
        | inl (w, r) ↦ absurd (ground arith)
        | inr (v, r) ↦
            let same : ports ≡ ms = ground arith in
            (form, f, k ∙ ap ok same, rw (sym same) d, rw (sym same) r)
      ]
    ]
  ]
]

ports_of-InPorts :
    (form : RawPorts) {ms : List PortMapping} → ports_of form ≡ ok ms → All InPorts ms
ports_of-InPorts absent h = rw (sym (ok_injective _ _ h)) (ground arith)
ports_of-InPorts (listing raws) h = let (e, v) = validate_ports-eq-ok raws h in rw e v
ports_of-InPorts (mapping raw) h = absurd (ground arith)

-- The ports of a config that loads: every port is one that TCP has, no service label, guest port
-- or pinned host port occurs twice, the three well-known services are on their own guest ports,
-- `adb` is among the services, and `frida` and `frida_control` are if there is a `frida` block.
pub load_ports_sound :
    (frida : Bool) (raw : RawPorts) (ms : List PortMapping)
    → load_ports frida raw ≡ ok ms
    → All InPorts ms
      × Distinct (labels ms)
      × Distinct (guests ms)
      × Distinct (pins ms)
      × (any wrong_guest ms ≡ false)
      × (contains "adb" (labels ms) ≡ true)
      × ((frida && not (contains "frida" (labels ms))) ≡ false)
      × ((frida && not (contains "frida_control" (labels ms))) ≡ false)
load_ports_sound frida raw ms h =
    let (form, _, parsed, distinct, required) = load_ports-eq-ok frida raw h in
    let (ls, gs, ps) = check_ports_distinct-eq-ok ms distinct in
    let (fixed, adb, frida_in, control_in) = check_required_services-eq-ok frida ms required in
    (ports_of-InPorts form parsed, ls, gs, ps, fixed, adb, frida_in, control_in)

-- A config that loads, pins no host port and has at most `stride` automatic extra entries is
-- resolved at every index within the cap.
pub load_ports_resolves :
    (frida : Bool) (raw : RawPorts) (ms : List PortMapping) (i : ℕ) (quiet : Bool)
    → load_ports frida raw ≡ ok ms
    → i ≤ max_port_index
    → IsAuto ms
    → auto_count ms ≤ stride
    → (r : Resolution) × (resolve_ports (pos i) ms quiet ≡ ok r)
load_ports_resolves frida raw ms i quiet h served auto fits =
    resolve_ports_auto i ms quiet served auto (load_ports_sound frida raw ms h).1 fits
