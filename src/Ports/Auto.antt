-- ===== src/Ports/Auto.antt =====
-- `resolve_ports` of src/beetroot/ports.py on a config that pins no host port.
use beetroot.Prelude.{
  ℕ, ◌+◌, ◌*◌, ◌≤◌, ◌<◌, ◌≡◌, ◌≢◌, refl, String, Bool, false, none, some, List, [], ◌∷◌, arith,
  le→leb, ok, inl, inr, Option-cases, pos, contains, Distinct, has_duplicate-false_iff, nat_eq,
  string_eq, eq_iff, All,
}
use beetroot.Ports.{
  PortMapping, Resolution, stride, max_port_index, extra_pool_base, base_of, resolve_ports, hosts,
}
use beetroot.Ports.Spec.{auto_slots, auto_count, host_at, expected}
use beetroot.Ports.Resolve.{resolve_ports_cases}
use beetroot.Ports.Bands.{base_of_cases}

-- The service labels of a config, `None` left out.
unfoldable pub labels : List PortMapping → List String
labels [] = []
labels (m ∷ ms) = elim m.service [ none ↦ labels ms | some s ↦ s ∷ labels ms ]

-- No mapping pins a host port.
abbrev pub IsAuto : List PortMapping → Type 0
IsAuto = All (λ m. m.host ≡ none)

base_of_injective :
    (s t : String) {b : ℕ} → base_of (some s) ≡ some b → base_of (some t) ≡ some b → s ≡ t
unfolding base_of
base_of_injective s t p q = ground (
  arith,
  eq_iff s "adb",
  eq_iff s "frida",
  eq_iff s "frida_control",
  eq_iff t "adb",
  eq_iff t "frida",
  eq_iff t "frida_control",
)

base_of-none : {b : ℕ} → base_of none ≡ some b → ⊥
unfolding base_of
base_of-none h = cc

labels_fresh :
    (s : String) (m : PortMapping) (ms : List PortMapping)
    → contains s (labels (m ∷ ms)) ≡ false
    → (m.service ≢ some s) × (contains s (labels ms) ≡ false)
unfolding labels
labels_fresh s m ms h = elim (Option-cases m.service) [
  | inl e ↦ ground arith
  | inr (t, e) ↦ ground (arith, eq_iff s t)
]

labels-Distinct :
    (m : PortMapping) (ms : List PortMapping) {s : String}
    → Distinct (labels (m ∷ ms))
    → m.service ≡ some s
    → contains s (labels ms) ≡ false
unfolding labels
labels-Distinct m ms d e = ground arith

labels_rest :
    (m : PortMapping) (ms : List PortMapping) → Distinct (labels (m ∷ ms)) → Distinct (labels ms)
unfolding labels
labels_rest m ms d = ground arith

module _ (i : ℕ) (cap : i ≤ max_port_index) where
  extra_entry :
      (k : ℕ) (m : PortMapping)
      → m.host ≡ none
      → base_of m.service ≡ none
      → (auto_slots m ≡ 1) × (host_at i k m ≡ extra_pool_base + i * stride + k)
  unfolding auto_slots host_at
  extra_entry k m h e = ground arith

  service_entry :
      (k : ℕ) (m : PortMapping) (b : ℕ)
      → m.host ≡ none
      → base_of m.service ≡ some b
      → host_at i k m ≡ b + i * stride
  unfolding host_at
  service_entry k m b h e = ground arith

  -- an extra-pool port below the next slot is handed out no more
  extra_fresh :
      (k h : ℕ) (ms : List PortMapping)
      → IsAuto ms
      → extra_pool_base + i * stride ≤ h
      → h < extra_pool_base + i * stride + k
      → contains h (hosts (expected i k ms)) ≡ false
  unfolding expected host_at auto_slots
  extra_fresh k h [] auto lo hi = refl
  extra_fresh k h (m ∷ ms) auto lo hi = elim (Option-cases (base_of m.service)) [
    | inl e ↦ ground (arith, extra_fresh (k + auto_slots m) h ms auto.1 lo)
    | inr (b, e) ↦
        ground
          (arith, extra_fresh (k + auto_slots m) h ms auto.1 lo, base_of_cases m.service {b = b} e)
  ]

  service_ne :
      (k : ℕ) (s : String) (b : ℕ) (m : PortMapping)
      → base_of (some s) ≡ some b
      → m.host ≡ none
      → m.service ≢ some s
      → host_at i k m ≢ b + i * stride
  unfolding host_at
  service_ne k s b m e auto ne = elim (Option-cases (base_of m.service)) [
    | inl f ↦ ground (arith, base_of_cases (some s) {b = b} e)
    | inr (b', f) ↦ elim (Option-cases m.service) [
      | inl g ↦ absurd (base_of-none (rw g at f))
      | inr (t, g) ↦ λ same. ne (ground (arith, base_of_injective s t {b = b} e))
    ]
  ]

  -- nor is the port of a service that no later mapping has
  service_fresh :
      (k : ℕ) (s : String) (b : ℕ) (ms : List PortMapping)
      → base_of (some s) ≡ some b
      → IsAuto ms
      → contains s (labels ms) ≡ false
      → contains (b + i * stride) (hosts (expected i k ms)) ≡ false
  unfolding expected host_at auto_slots labels
  service_fresh k s b [] e auto fresh = refl
  service_fresh k s b (m ∷ ms) e auto fresh =
      let (ne, fresh') = labels_fresh s m ms fresh in
      ground (
        arith,
        service_ne k s b m e auto.0 ne,
        service_fresh (k + auto_slots m) s b ms e auto.1 fresh',
      )

  head_fresh :
      (k : ℕ) (m : PortMapping) (ms : List PortMapping)
      → IsAuto (m ∷ ms)
      → Distinct (labels (m ∷ ms))
      → contains (host_at i k m) (hosts (expected i (k + auto_slots m) ms)) ≡ false
  head_fresh k m ms auto d = elim (Option-cases (base_of m.service)) [
    | inl f ↦
        let (slots, at) = extra_entry k m auto.0 f in
        extra_fresh (k + auto_slots m) (host_at i k m) ms auto.1 (omega arith) (omega arith)
    | inr (b, f) ↦ elim (Option-cases m.service) [
      | inl g ↦ absurd (base_of-none (rw g at f))
      | inr (s, g) ↦
          rw (service_entry k m b auto.0 f)
            (service_fresh (k + auto_slots m) s b ms (rw g at f) auto.1 (labels-Distinct m ms d g))
    ]
  ]

  expected-Distinct :
      (k : ℕ) (ms : List PortMapping)
      → IsAuto ms
      → Distinct (labels ms)
      → Distinct (hosts (expected i k ms))
  unfolding expected
  expected-Distinct k [] auto d = tt
  expected-Distinct k (m ∷ ms) auto d = (
    head_fresh k m ms auto d,
    expected-Distinct (k + auto_slots m) ms auto.1 (labels_rest m ms d),
  )

-- A config that pins no host port, has no service label twice and has at most `stride` automatic
-- extra entries is resolved at every index within the cap: it never collides with itself.
pub resolve_ports_auto :
    (i : ℕ) (ms : List PortMapping) (quiet : Bool)
    → i ≤ max_port_index
    → IsAuto ms
    → Distinct (labels ms)
    → auto_count ms ≤ stride
    → (r : Resolution) × (resolve_ports (pos i) ms quiet ≡ ok r)
resolve_ports_auto i ms quiet cap auto d fits = rw (resolve_ports_cases i ms quiet cap) (
    rw (le→leb _ _ fits)
      (rw ((has_duplicate-false_iff _).1 (expected-Distinct i cap 0 ms auto d)) (_, refl)))
