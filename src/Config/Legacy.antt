-- ===== src/Config/Legacy.antt =====
-- What src/beetroot/config.py makes of the old mapping form of `ports`.
use mathlib.Core.Option
use beetroot.Prelude.{
  ℕ, String, ◌≡◌, ◌↔◌, ◌⊎◌, refl, sym, ap, ◌∙◌, subst, Bool, true, false, Option, none, some, List,
  [], ◌∷◌, arith, ℤ, to_nat, any, not, eq_iff, Distinct, All, nat_eq, string_eq, Result, ◌>>=◌,
  ◌>>◌, ok, err, legacy_ports_keys, Option-cases, Bool-cases, inl, inr,
}
use beetroot.Dict.{Dict, keys, lookup, member}
use beetroot.Ports.{PortMapping, well_known_services}
use beetroot.Ports.Bands.{pins}
use beetroot.Ports.Auto.{labels}
use beetroot.Config.{
  RawPort, RawPorts, ports_of, check_ports_distinct, check_required_services, mapping, listing,
  legacy_host, migrated, migrate_legacy_ports_mapping, guests, validate_ports, validate_port,
  check_guest_range, check_host_range, load_ports,
}
use beetroot.Config.Load.{as_mappings}
use beetroot.Config.Accepted.{
  IsPortNumber, IsPin, OnOwnGuest, InRange, Accepts, load_ports-listing_iff, adb-ne-frida,
  adb-ne-control, frida-ne-control,
}

abbrev pub IsService : String → Type 0
IsService k = (k ≡ "adb") ⊎ ((k ≡ "frida") ⊎ (k ≡ "frida_control"))

-- The host port of a service is the number that the mapping has for it, which is one of TCP; without
-- a number there is none.
abbrev pub HostOf : Dict (Option ℤ) → String → Option ℕ → Type 0
HostOf raw service host =
    ((v : ℤ) → lookup service raw ≡ some (some v) → IsPortNumber v × (host ≡ some (to_nat v)))
    × (((v : ℤ) → lookup service raw ≡ some (some v) → ⊥) → host ≡ none)

abbrev pub three : Option ℕ → Option ℕ → Option ℕ → List PortMapping
three adb frida control =
    record { service = some "adb"; guest = 5555; host = adb }
    ∷ record { service = some "frida"; guest = 27042; host = frida }
    ∷ record { service = some "frida_control"; guest = 27043; host = control }
    ∷ []

abbrev pub FromMapping : Dict (Option ℤ) → List PortMapping → Type 0
FromMapping raw ms =
    All (λ e. IsService e.0) raw
    × (adb : Option ℕ) × (frida : Option ℕ) × (control : Option ℕ) × (ms ≡ three adb frida control)
    × HostOf raw "adb" adb
    × HostOf raw "frida" frida
    × HostOf raw "frida_control" control
    × Distinct (pins ms)

abbrev unknown : Dict (Option ℤ) → Bool
unknown raw = any (λ k. not (member k well_known_services)) (keys raw)

known_key_iff : (k : String) → (not (member k well_known_services) ≡ false) ↔ IsService k
known_key_iff k = ground (arith, eq_iff k "adb", eq_iff k "frida", eq_iff k "frida_control")

known_iff : (raw : Dict (Option ℤ)) → (unknown raw ≡ false) ↔ All (λ e. IsService e.0) raw
known_iff [] = (λ _. tt, λ _. refl)
known_iff ((k, v) ∷ raw) = ground (arith, known_key_iff k, known_iff raw)

migrate-known :
    (raw : Dict (Option ℤ)) (entry : String × Option ℤ)
    → unknown (entry ∷ raw) ≡ false
    → migrate_legacy_ports_mapping (mapping (entry ∷ raw))
      ≡ ok (listing (migrated (entry ∷ raw) well_known_services))
unfolding migrate_legacy_ports_mapping
migrate-known raw entry h = rw h refl

migrate-unknown :
    (raw : Dict (Option ℤ)) (entry : String × Option ℤ)
    → unknown (entry ∷ raw) ≡ true
    → migrate_legacy_ports_mapping (mapping (entry ∷ raw)) ≡ err legacy_ports_keys
unfolding migrate_legacy_ports_mapping
migrate-unknown raw entry h = rw h refl

migrate-listing :
    (raws : List RawPort) → migrate_legacy_ports_mapping (listing raws) ≡ ok (listing raws)
unfolding migrate_legacy_ports_mapping
migrate-listing raws = refl

load_ports-nil :
    (frida : Bool)
    → load_ports frida (mapping []) ≡ load_ports frida (listing (migrated [] well_known_services))
unfolding load_ports migrate_legacy_ports_mapping validate_ports validate_port check_guest_range
    check_host_range legacy_host lookup
load_ports-nil frida = refl

-- what a load does with the form that the migration gives
abbrev load_form : Bool → Result RawPorts → Result (List PortMapping)
load_form frida migration = do
  new_form ← migration
  ports ← ports_of new_form
  check_ports_distinct ports
  check_required_services frida ports
  ok ports

load_ports-known :
    (frida : Bool) (raw : Dict (Option ℤ))
    → unknown raw ≡ false
    → load_ports frida (mapping raw) ≡ load_ports frida (listing (migrated raw well_known_services))
unfolding load_ports
load_ports-known frida [] h = load_ports-nil frida
load_ports-known frida (entry ∷ raw) h =
    let raws = migrated (entry ∷ raw) well_known_services in
    ap (λ form. load_form frida form) (migrate-known raw entry h ∙ sym (migrate-listing raws))

load_ports-unknown :
    (frida : Bool) (raw : Dict (Option ℤ)) {ms : List PortMapping}
    → load_ports frida (mapping raw) ≡ ok ms
    → unknown raw ≡ false
unfolding load_ports
load_ports-unknown frida [] h = refl
load_ports-unknown frida (entry ∷ raw) h = elim (Bool-cases (unknown (entry ∷ raw))) [
  | inl e ↦ absurd (cc (rw (migrate-unknown raw entry e) at h))
  | inr e ↦ e
]

-- the host port in the mapping, or none
found-cases :
    (service : String) (raw : Dict (Option ℤ))
    → ((v : ℤ) × (lookup service raw ≡ some (some v)) × (legacy_host service raw ≡ some v))
      ⊎ (((v : ℤ) → lookup service raw ≡ some (some v) → ⊥) × (legacy_host service raw ≡ none))
unfolding legacy_host
found-cases service raw = elim (Option-cases (lookup service raw)) [
  | inl e ↦ inr (λ v h. cc (sym e ∙ h), rw (e, legacy_host) refl)
  | inr (none, e) ↦ inr (λ v h. cc (sym e ∙ h), rw (e, legacy_host) refl)
  | inr (some v, e) ↦ inl (v, e, rw (e, legacy_host) refl)
]

legacy_host-HostOf :
    (service : String) (raw : Dict (Option ℤ))
    → IsPin (legacy_host service raw)
    → HostOf raw service (Option.map to_nat (legacy_host service raw))
legacy_host-HostOf service raw h = elim (found-cases service raw) [
  | inl (v, found, is) ↦ (
    λ x e.
        let same : v ≡ x = cc (sym found ∙ e) in
        (
          subst IsPortNumber same (subst IsPin is h),
          ap (Option.map to_nat) is ∙ ap (λ y. some (to_nat y)) same,
        ),
    λ missing. absurd (missing v found),
  )
  | inr (missing, is) ↦ (λ x e. absurd (missing x e), λ _. ap (Option.map to_nat) is)
]

HostOf-legacy_host :
    (service : String) (raw : Dict (Option ℤ)) (host : Option ℕ)
    → HostOf raw service host
    → (host ≡ Option.map to_nat (legacy_host service raw)) × IsPin (legacy_host service raw)
HostOf-legacy_host service raw host h = elim (found-cases service raw) [
  | inl (v, found, is) ↦
      let (range, same) = h.0 v found in
      (same ∙ sym (ap (Option.map to_nat) is), subst IsPin (sym is) range)
  | inr (missing, is) ↦ (h.1 missing ∙ sym (ap (Option.map to_nat) is), subst IsPin (sym is) tt)
]

three-Fixed :
    (a f c : Option ℕ)
    → Distinct (labels (three a f c))
      × Distinct (guests (three a f c))
      × All OnOwnGuest (three a f c)
unfolding labels
three-Fixed a f c = (
  (refl, (refl, (refl, tt))),
  (refl, (refl, (refl, tt))),
  (
    (λ _. refl, λ e. absurd (adb-ne-frida (cc (e))), λ e. absurd (adb-ne-control (cc (e)))),
    (
      (λ e. absurd (adb-ne-frida (cc (e))), λ _. refl, λ e. absurd (frida-ne-control (cc (e)))),
      (
        (λ e. absurd (adb-ne-control (cc (e))), λ e. absurd (frida-ne-control (cc (e))), λ _. refl),
        tt,
      ),
    ),
  ),
)

three-Accepts :
    (frida : Bool) (raws : List RawPort) (ms : List PortMapping) (a f c : Option ℕ)
    → ms ≡ three a f c
    → ms ≡ as_mappings raws
    → All InRange raws
    → Distinct (pins ms)
    → Accepts frida raws ms
unfolding labels
three-Accepts frida raws ms a f c same entries ranges ps =
    let (ls, gs, own) = three-Fixed a f c in
    (
      entries,
      ranges,
      rw same ls,
      rw same gs,
      ps,
      rw same own,
      rw same refl,
      λ _. (rw same refl, rw same refl),
    )

-- The old mapping form loads exactly if its keys are among the three well-known services, the host
-- ports that it has are from 1 to 65535 and none of them occurs twice. It then gives the three
-- services and nothing else, each on its own guest port and on the host port that the mapping has for
-- it, if it has one.
pub load_ports-mapping_iff :
    (frida : Bool) (raw : Dict (Option ℤ)) (ms : List PortMapping)
    → (load_ports frida (mapping raw) ≡ ok ms) ↔ FromMapping raw ms
load_ports-mapping_iff frida raw ms =
    let raws = migrated raw well_known_services in
    (
      λ h.
          let known = load_ports-unknown frida raw h in
          let (entries, ranges, _, _, ps, _, _, _) =
            (load_ports-listing_iff frida raws ms).0 (sym (load_ports-known frida raw known) ∙ h) in
          (
            (known_iff raw).0 known,
            Option.map to_nat (legacy_host "adb" raw),
            Option.map to_nat (legacy_host "frida" raw),
            Option.map to_nat (legacy_host "frida_control" raw),
            entries,
            legacy_host-HostOf "adb" raw ranges.0.1,
            legacy_host-HostOf "frida" raw ranges.1.0.1,
            legacy_host-HostOf "frida_control" raw ranges.1.1.0.1,
            ps,
          ),
      λ (services, a, f, c, same, adb, frida_host, control, ps).
          let known = (known_iff raw).1 services in
          let (is_a, pin_a) = HostOf-legacy_host "adb" raw a adb in
          let (is_f, pin_f) = HostOf-legacy_host "frida" raw f frida_host in
          let (is_c, pin_c) = HostOf-legacy_host "frida_control" raw c control in
          load_ports-known frida raw known
          ∙ (load_ports-listing_iff frida raws ms).1 (
              three-Accepts frida raws ms a f c same (same ∙ (rw is_a (rw is_f (rw is_c refl))))
                (
                  ((omega arith, omega arith), pin_a),
                  (((omega arith, omega arith), pin_f), (((omega arith, omega arith), pin_c), tt)),
                )
                ps),
    )
