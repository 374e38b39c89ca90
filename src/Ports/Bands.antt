-- ===== src/Ports/Bands.antt =====
-- The bands of host ports that the stride of src/beetroot/ports.py keeps for each index.
use beetroot.Prelude.{
  ℕ, ◌+◌, ◌*◌, ◌≤◌, ◌<◌, ◌≡◌, ◌≢◌, String, Bool, true, false, Option, none, some, List, [], ◌∷◌,
  arith, ok, inl, inr, ◌⊎◌, Option-cases, pos, contains, nat_eq, string_eq,
}
use beetroot.Ports.{
  PortMapping, Resolution, stride, max_port_index, extra_pool_base, max_port, adb_base, base_of,
  resolve_ports, hosts,
}
use beetroot.Ports.Spec.{auto_slots, auto_count, host_at, expected}
use beetroot.Ports.Resolve.{resolve_ports-eq-ok}

-- The ports of an index: three well-known ones and a window of the extra pool.
abbrev pub InBand : ℕ → ℕ → Type 0
InBand i h =
    (h ≡ 5555 + i * stride)
    ⊎ ((h ≡ 27042 + i * stride)
        ⊎ ((h ≡ 27043 + i * stride)
            ⊎ ((extra_pool_base + i * stride ≤ h) × (h < extra_pool_base + (i + 1) * stride))))

-- The host ports that the config pins.
unfoldable pub pins : List PortMapping → List ℕ
pins [] = []
pins (m ∷ ms) = elim m.host [ none ↦ pins ms | some h ↦ h ∷ pins ms ]

pub base_of_cases :
    (s : Option String) {b : ℕ} → base_of s ≡ some b → (b ≡ 5555) ⊎ ((b ≡ 27042) ⊎ (b ≡ 27043))
unfolding base_of
base_of_cases none h = cc
base_of_cases (some s) h = ground arith

host_at-InBand :
    (i k : ℕ) (m : PortMapping)
    → m.host ≡ none
    → k + auto_slots m ≤ stride
    → InBand i (host_at i k m)
unfolding host_at auto_slots
host_at-InBand i k m h fits = elim (Option-cases (base_of m.service)) [
  | inl e ↦ ground arith
  | inr (b, e) ↦ ground (arith, base_of_cases m.service {b = b} e)
]

host_at_pinned : (i k : ℕ) (m : PortMapping) {p : ℕ} → m.host ≡ some p → host_at i k m ≡ p
unfolding host_at
host_at_pinned i k m h = ground arith

-- A port of a resolution is one that the config pins, or lies in the band of the index.
expected-InBand :
    (i k : ℕ) (ms : List PortMapping) (h : ℕ)
    → k + auto_count ms ≤ stride
    → contains h (hosts (expected i k ms)) ≡ true
    → (contains h (pins ms) ≡ true) ⊎ InBand i h
unfolding expected auto_count pins
expected-InBand i k [] h fits c = cc
expected-InBand i k (m ∷ ms) h fits c = elim (Option-cases m.host) [
  | inl e ↦ ground (arith, host_at-InBand i k m, expected-InBand i (k + auto_slots m) ms h)
  | inr (p, e) ↦ ground (arith, host_at_pinned i k m e, expected-InBand i (k + auto_slots m) ms h)
]

InBand-disjoint :
    (i j h : ℕ) → i ≤ max_port_index → j ≤ max_port_index → i ≢ j → InBand i h → InBand j h → ⊥
InBand-disjoint i j h ci cj ne a b = ground arith

-- Two instances of different indices, each resolved, share a host port only if the config of one
-- of them pins it: what the allocator hands out never collides across instances.
pub resolve_ports_disjoint :
    (i j : ℕ) (ms ns : List PortMapping) (q q' : Bool) (r s : Resolution) (h : ℕ)
    → i ≢ j
    → resolve_ports (pos i) ms q ≡ ok r
    → resolve_ports (pos j) ns q' ≡ ok s
    → contains h (hosts r.ports) ≡ true
    → contains h (hosts s.ports) ≡ true
    → (contains h (pins ms) ≡ true) ⊎ (contains h (pins ns) ≡ true)
resolve_ports_disjoint i j ms ns q q' r s h ne er es hr hs =
    let (ci, pr, fr, _) = resolve_ports-eq-ok i ms q r er in
    let (cj, ps, fs, _) = resolve_ports-eq-ok j ns q' s es in
    elim (expected-InBand i 0 ms h (omega arith) (rw pr at hr)) [
      | inl p ↦ inl p
      | inr a ↦ elim (expected-InBand j 0 ns h (omega arith) (rw ps at hs)) [
        | inl p ↦ inr p
        | inr b ↦ absurd (InBand-disjoint i j h ci cj ne a b)
      ]
    ]

-- Every host port of a resolution that the config does not pin is a TCP port, above the
-- privileged range and below the end of the extra pool's window of the index.
pub resolve_ports_bounds :
    (i : ℕ) (ms : List PortMapping) (q : Bool) (r : Resolution) (h : ℕ)
    → resolve_ports (pos i) ms q ≡ ok r
    → contains h (hosts r.ports) ≡ true
    → contains h (pins ms) ≡ false
    → (adb_base ≤ h) × (h < extra_pool_base + (i + 1) * stride) × (h ≤ max_port)
resolve_ports_bounds i ms q r h er hr np =
    let (ci, pr, fr, _) = resolve_ports-eq-ok i ms q r er in
    elim (expected-InBand i 0 ms h (omega arith) (rw pr at hr)) [
      | inl p ↦ cc
      | inr a ↦ ground arith
    ]
