-- ===== src/Ports/Spec.antt =====
-- A description, without errors, of the host ports that `resolve_ports` of src/beetroot/ports.py
-- hands out.
use beetroot.Prelude.{
  ℕ, ◌+◌, ◌*◌, ◌≤◌, ◌≡◌, none, some, List, [], ◌∷◌, arith, leb, if◌then◌else◌, ok, err,
  too_many_extra_ports, inl, inr, Bool-cases,
}
use beetroot.Ports.{
  PortMapping, ResolvedPort, stride, extra_pool_base, base_of, allot, resolve_from,
}

-- 1 for a mapping that takes an extra-pool slot.
unfoldable pub auto_slots : PortMapping → ℕ
auto_slots m = elim m.host [
  | some _ ↦ 0
  | none ↦ elim (base_of m.service) [ some _ ↦ 0 | none ↦ 1 ]
]

unfoldable pub auto_count : List PortMapping → ℕ
auto_count [] = 0
auto_count (m ∷ ms) = auto_slots m + auto_count ms

-- The host port of a mapping with `slot` automatic extra entries before it.
unfoldable pub host_at : ℕ → ℕ → PortMapping → ℕ
host_at index slot m = elim m.host [
  | some host ↦ host
  | none ↦ elim (base_of m.service) [
    | some base ↦ base + index * stride
    | none ↦ extra_pool_base + index * stride + slot
  ]
]

abbrev pub resolved_at : ℕ → ℕ → PortMapping → ResolvedPort
resolved_at index slot m = record {
  service = m.service;
  guest = m.guest;
  host = host_at index slot m;
}

unfoldable pub expected : ℕ → ℕ → List PortMapping → List ResolvedPort
expected index slot [] = []
expected index slot (m ∷ ms) = resolved_at index slot m ∷ expected index (slot + auto_slots m) ms

allot_lem :
    (index slot : ℕ) (m : PortMapping)
    → slot ≤ stride
    → allot index slot m ≡ (
        if leb (slot + auto_slots m) stride
        then ok (host_at index slot m, slot + auto_slots m)
        else err too_many_extra_ports)
unfolding allot host_at auto_slots
allot_lem index slot m h = ground arith

-- The loop gives the described ports if the extra entries fit the window, and raises if not.
pub resolve_from_lem :
    (index slot : ℕ) (ms : List PortMapping)
    → slot ≤ stride
    → resolve_from index slot ms ≡ (
        if leb (slot + auto_count ms) stride
        then ok (expected index slot ms)
        else err too_many_extra_ports)
unfolding resolve_from expected auto_count
resolve_from_lem index slot [] h = ground arith
resolve_from_lem index slot (m ∷ ms) h =
    rw (allot_lem index slot m h) (elim (Bool-cases (leb (slot + auto_slots m) stride)) [
      | inl fits ↦
          rw fits
            (rw (resolve_from_lem index (slot + auto_slots m) ms (ground arith)) (ground arith))
      | inr full ↦ rw full (ground arith)
    ])
