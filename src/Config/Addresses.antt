-- ===== src/Config/Addresses.antt =====
-- The addresses that the backends derive from a loaded config and its resolution.
use beetroot.Prelude.{
  ℕ, ◌+◌, ◌≡◌, ◌⊎◌, refl, sym, subst, ◌∙◌, String, Bool, true, false, none, some, List, [], ◌∷◌,
  arith, pos, contains, ◌==◌, nat_eq, string_eq, eq_iff, option_beq, inl, inr, Bool-cases,
  Option-cases, ok,
}
use beetroot.Dict.{lookup, member}
use beetroot.Ports.{
  PortMapping, ResolvedPort, Resolution, resolve_ports, hosts, well_known, well_known_services,
}
use beetroot.Ports.Spec.{expected, auto_slots, host_at}
use beetroot.Ports.Resolve.{resolve_ports-eq-ok}
use beetroot.Ports.Auto.{labels}
use beetroot.Ports.Views.{last_host, lookup-well_known}
use beetroot.Config.{RawPorts, load_ports}
use beetroot.Config.Load.{load_ports_sound}

last_host_kept :
    (s : String) (rps : List ResolvedPort) (x : ℕ)
    → (h : ℕ) × (last_host s rps (some x) ≡ some h) × ((h ≡ x) ⊎ (contains h (hosts rps) ≡ true))
last_host_kept s [] x = (x, refl, inl refl)
last_host_kept s (rp ∷ rps) x = elim (Bool-cases (option_beq rp.service (some s))) [
  | inl same ↦ let (h, e, c) = last_host_kept s rps rp.host in (h, rw same e, ground arith)
  | inr differ ↦ let (h, e, c) = last_host_kept s rps x in (h, rw differ e, ground arith)
]

last_host-expected :
    (s : String) (i k : ℕ) (ms : List PortMapping)
    → contains s (labels ms) ≡ true
    → (h : ℕ) × (last_host s (expected i k ms) none ≡ some h)
      × (contains h (hosts (expected i k ms)) ≡ true)
unfolding expected labels
last_host-expected s i k [] c = absurd (ground arith)
last_host-expected s i k (m ∷ ms) c = elim (Bool-cases (option_beq m.service (some s))) [
  | inl same ↦
      let (h, e, d) = last_host_kept s (expected i (k + auto_slots m) ms) (host_at i k m) in
      (h, rw (same, last_host) e, ground arith)
  | inr differ ↦
      let later : contains s (labels ms) ≡ true = elim (Option-cases m.service) [
        | inl f ↦ ground arith
        | inr (t, f) ↦ ground (arith, eq_iff s t, eq_iff t s)
      ] in
      let (h, e, d) = last_host-expected s i (k + auto_slots m) ms later in
      (h, rw (differ, last_host) e, ground arith)
]

-- The services that a config must have, by whether it has a `frida` block.
abbrev pub required_services : Bool → List String
required_services true = "adb" ∷ "frida" ∷ "frida_control" ∷ []
required_services false = "adb" ∷ []

contains_same :
    (s t : String) (xs : List String)
    → (s == t) ≡ true
    → contains t xs ≡ true
    → contains s xs ≡ true
contains_same s t xs e c = subst (λ x. contains x xs ≡ true) (sym ((eq_iff s t).0 e)) c

required-labels :
    (frida : Bool) (raw : RawPorts) (ms : List PortMapping) (s : String)
    → load_ports frida raw ≡ ok ms
    → contains s (required_services frida) ≡ true
    → contains s (labels ms) ≡ true
required-labels true raw ms s h c =
    let (_, _, _, _, _, adb, frida_in, control_in) = load_ports_sound true raw ms h in
    ground (
      arith,
      contains_same s "adb" (labels ms),
      contains_same s "frida" (labels ms),
      contains_same s "frida_control" (labels ms),
    )
required-labels false raw ms s h c =
    let (_, _, _, _, _, adb, _, _) = load_ports_sound false raw ms h in
    ground (arith, contains_same s "adb" (labels ms))

required-known :
    (frida : Bool) (s : String)
    → contains s (required_services frida) ≡ true
    → member s well_known_services ≡ true
required-known true s c = ground arith
required-known false s c = ground arith

-- Of a config that loads and whose ports resolve, every service that the config must have has a
-- host port by its name, and that port is one of the resolved ones: an instance always has an adb
-- address, and the two frida addresses if it has a `frida` block.
pub lookup-well_known-load_ports :
    (frida : Bool) (raw : RawPorts) (ms : List PortMapping) (i : ℕ) (quiet : Bool) (r : Resolution)
    (s : String)
    → load_ports frida raw ≡ ok ms
    → resolve_ports (pos i) ms quiet ≡ ok r
    → contains s (required_services frida) ≡ true
    → (h : ℕ) × (lookup s (well_known r.ports) ≡ some h) × (contains h (hosts r.ports) ≡ true)
lookup-well_known-load_ports frida raw ms i quiet r s h e c =
    let (_, ports, _, _) = resolve_ports-eq-ok i ms quiet r e in
    let (host, found, there) = last_host-expected s i 0 ms (required-labels frida raw ms s h c) in
    (
      host,
      lookup-well_known s r.ports ∙ rw (required-known frida s c) (rw ports found),
      rw ports there,
    )
