-- ===== src/Config/Accepted.antt =====
-- Which `ports` of a config src/beetroot/config.py accepts, and what it makes of them.
use mathlib.Core.Option
use beetroot.Prelude.{
  String, ◌≤◌, ◌≡◌, ◌↔◌, refl, sym, ap, ◌∙◌, Bool, true, false, Option, none, some, List, [], ◌∷◌,
  arith, ℤ, pos, negsuc, to_nat, contains, any, eq_iff, has_duplicate-false_iff, Distinct, All,
  nat_eq, string_eq, ok, err, Result, subst, >>=-eq-ok, ◌>>◌, Option-cases, inl, inr,
}
use beetroot.Dict.{lookup}
use beetroot.Ports.{PortMapping}
use beetroot.Ports.Bands.{pins}
use beetroot.Ports.Auto.{labels}
use beetroot.Config.{
  RawPort, listing, in_range, check_guest_range, check_host_range, validate_port, validate_ports,
  migrate_legacy_ports_mapping, guests, check_ports_distinct, wrong_guest, check_required_services,
  load_ports,
}
use beetroot.Config.Load.{as_mapping, as_mappings, validate_ports-eq-ok}

-- a port number of TCP
abbrev pub IsPortNumber : ℤ → Type 0
IsPortNumber (pos n) = (1 ≤ n) × (n ≤ 65535)
IsPortNumber (negsuc n) = ⊥

abbrev pub IsPin : Option ℤ → Type 0
IsPin none = Unit
IsPin (some v) = IsPortNumber v

-- A well-known service is on the guest port that its daemon listens on.
abbrev pub OnOwnGuest : PortMapping → Type 0
OnOwnGuest m =
    (m.service ≡ some "adb" → m.guest ≡ 5555)
    × (m.service ≡ some "frida" → m.guest ≡ 27042)
    × (m.service ≡ some "frida_control" → m.guest ≡ 27043)

in_range_iff : (v : ℤ) → (in_range v ≡ true) ↔ IsPortNumber v
in_range_iff (pos n) = ground arith
in_range_iff (negsuc n) = (λ e. cc (e), λ h. absurd h)

-- the three names are different
pub adb-ne-frida : ◌≡◌ {A = String} "adb" "frida" → ⊥
adb-ne-frida e = cc ((eq_iff "adb" "frida").1 e)

pub adb-ne-control : ◌≡◌ {A = String} "adb" "frida_control" → ⊥
adb-ne-control e = cc ((eq_iff "adb" "frida_control").1 e)

pub frida-ne-control : ◌≡◌ {A = String} "frida" "frida_control" → ⊥
frida-ne-control e = cc ((eq_iff "frida" "frida_control").1 e)

wrong_guest_iff : (m : PortMapping) → (wrong_guest m ≡ false) ↔ OnOwnGuest m
unfolding wrong_guest lookup
wrong_guest_iff m = elim (Option-cases m.service) [
  | inl e ↦ ground (arith, e)
  | inr (s, e) ↦ ground (
    arith,
    e,
    eq_iff s "adb",
    eq_iff s "frida",
    eq_iff s "frida_control",
    adb-ne-frida,
    adb-ne-control,
    frida-ne-control,
  )
]

any-wrong_guest_iff : (ms : List PortMapping) → (any wrong_guest ms ≡ false) ↔ All OnOwnGuest ms
any-wrong_guest_iff [] = (λ _. tt, λ _. refl)
any-wrong_guest_iff (m ∷ ms) = ground (arith, wrong_guest_iff m, any-wrong_guest_iff ms)

>>-eq-ok :
    {W : Type 0} (r : Result (Unit {0})) (next : Result W) {w : W}
    → (r >> next) ≡ ok w
    → (r ≡ ok tt) × (next ≡ ok w)
>>-eq-ok (err e) next h = absurd (cc (h))
>>-eq-ok (ok done) next h = (refl, h)

abbrev pub InRange : RawPort → Type 0
InRange raw = IsPortNumber raw.guest × IsPin raw.host

check_host_range_iff : (v : Option ℤ) → (check_host_range v ≡ ok (Option.map to_nat v)) ↔ IsPin v
unfolding check_host_range
check_host_range_iff none = (λ _. tt, λ _. refl)
check_host_range_iff (some v) = ground (arith, in_range_iff v)

check_guest_range_iff : (v : ℤ) → (check_guest_range v ≡ ok (to_nat v)) ↔ IsPortNumber v
unfolding check_guest_range
check_guest_range_iff v = ground (arith, in_range_iff v)

validate_port_iff : (raw : RawPort) → (validate_port raw ≡ ok (as_mapping raw)) ↔ InRange raw
unfolding validate_port
validate_port_iff raw = (
  λ h.
      let (g, guest, later) = >>=-eq-ok (check_guest_range raw.guest) _ h in
      let (p, host, made) = >>=-eq-ok (check_host_range raw.host) _ later in
      let same_guest : g ≡ to_nat raw.guest = cc (made) in
      let same_host : p ≡ Option.map to_nat raw.host = cc (made) in
      (
        (check_guest_range_iff raw.guest).0 (guest ∙ ap ok same_guest),
        (check_host_range_iff raw.host).0 (host ∙ ap ok same_host),
      ),
  λ (guest, host).
      rw ((check_guest_range_iff raw.guest).1 guest)
        (rw ((check_host_range_iff raw.host).1 host) refl),
)

validate_ports_iff :
    (raws : List RawPort) → (validate_ports raws ≡ ok (as_mappings raws)) ↔ All InRange raws
unfolding validate_ports
validate_ports_iff [] = (λ _. tt, λ _. refl)
validate_ports_iff (raw ∷ raws) = (
  λ h.
      let (m, first, later) = >>=-eq-ok (validate_port raw) _ h in
      let (ms, rest, made) = >>=-eq-ok (validate_ports raws) _ later in
      let same : m ≡ as_mapping raw = cc (made) in
      let same_rest : ms ≡ as_mappings raws = cc (made) in
      (
        (validate_port_iff raw).0 (first ∙ ap ok same),
        (validate_ports_iff raws).0 (rest ∙ ap ok same_rest),
      ),
  λ (first, rest).
      rw ((validate_port_iff raw).1 first) (rw ((validate_ports_iff raws).1 rest) refl),
)

check_ports_distinct_iff :
    (ms : List PortMapping)
    → (check_ports_distinct ms ≡ ok tt)
      ↔ (Distinct (labels ms) × Distinct (guests ms) × Distinct (pins ms))
unfolding check_ports_distinct
check_ports_distinct_iff ms = ground (
  arith,
  has_duplicate-false_iff (labels ms),
  has_duplicate-false_iff (guests ms),
  has_duplicate-false_iff (pins ms),
)

check_required_services_iff :
    (frida : Bool) (ms : List PortMapping)
    → (check_required_services frida ms ≡ ok tt) ↔ (
        All OnOwnGuest ms
        × (contains "adb" (labels ms) ≡ true)
        × (frida ≡ true
            → (contains "frida" (labels ms) ≡ true)
              × (contains "frida_control" (labels ms) ≡ true)))
unfolding check_required_services
check_required_services_iff frida ms = ground (arith, any-wrong_guest_iff ms)

-- What the list form must be.
abbrev pub Accepts : Bool → List RawPort → List PortMapping → Type 0
Accepts frida raws ms =
    (ms ≡ as_mappings raws)
    × All InRange raws
    × Distinct (labels ms)
    × Distinct (guests ms)
    × Distinct (pins ms)
    × All OnOwnGuest ms
    × (contains "adb" (labels ms) ≡ true)
    × (frida ≡ true
        → (contains "frida" (labels ms) ≡ true) × (contains "frida_control" (labels ms) ≡ true))

-- The list form of `ports` loads exactly if every port is from 1 to 65535, no service label, guest
-- port or pinned host port occurs twice, `adb`, `frida` and `frida_control` are on the guest ports
-- 5555, 27042 and 27043 where they occur, `adb` occurs, and the other two do if there is a `frida`
-- block. It then gives the entries as they stand.
pub load_ports-listing_iff :
    (frida : Bool) (raws : List RawPort) (ms : List PortMapping)
    → (load_ports frida (listing raws) ≡ ok ms) ↔ Accepts frida raws ms
unfolding load_ports migrate_legacy_ports_mapping
load_ports-listing_iff frida raws ms = (
  λ h.
      let (ports, valid, later) = >>=-eq-ok (validate_ports raws) _ h in
      let (distinct, last) = >>-eq-ok (check_ports_distinct ports) _ later in
      let (required, made) = >>-eq-ok (check_required_services frida ports) _ last in
      let same : ports ≡ ms = cc (made) in
      let entries = (validate_ports-eq-ok raws valid).0 in
      let (ls, gs, ps) =
        (check_ports_distinct_iff ms).0
          (subst (λ x. check_ports_distinct x ≡ ok tt) same distinct) in
      let (own, adb, others) =
        (check_required_services_iff frida ms).0
          (subst (λ x. check_required_services frida x ≡ ok tt) same required) in
      (
        sym same ∙ entries,
        (validate_ports_iff raws).0 (valid ∙ ap ok entries),
        ls,
        gs,
        ps,
        own,
        adb,
        others,
      ),
  λ (entries, ranges, ls, gs, ps, own, adb, others).
      rw ((validate_ports_iff raws).1 ranges ∙ ap ok (sym entries)) (
        rw ((check_ports_distinct_iff ms).1 (ls, gs, ps))
          (rw ((check_required_services_iff frida ms).1 (own, adb, others)) refl)),
)
