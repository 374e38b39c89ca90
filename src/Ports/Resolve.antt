-- ===== src/Ports/Resolve.antt =====
-- The return value and the errors of `resolve_ports` (src/beetroot/ports.py).
use beetroot.Prelude.{
  ℕ, suc, ◌+◌, ◌≤◌, ◌≡◌, refl, ap, ◌∙◌, Bool, some, List, [], ◌∷◌, ◌++◌, arith, leb, if◌then◌else◌,
  ok, err, too_many_extra_ports, host_ports_collide, pos, has_duplicate, Distinct,
  has_duplicate-false_iff, nat_eq, length, get_elem?,
}
use beetroot.Ports.{
  PortMapping, Resolution, stride, max_port_index, resolve_ports, hosts, privileged_advisory,
}
use beetroot.Ports.Spec.{auto_slots, auto_count, resolved_at, expected, resolve_from_lem}

-- A resolution succeeds only on an index within the cap, and gives the described ports.
pub resolve_ports-eq-ok :
    (i : ℕ) (ms : List PortMapping) (quiet : Bool) (r : Resolution)
    → resolve_ports (pos i) ms quiet ≡ ok r
    → (i ≤ max_port_index)
      × (r.ports ≡ expected i 0 ms)
      × (auto_count ms ≤ stride)
      × Distinct (hosts r.ports)
unfolding resolve_ports
resolve_ports-eq-ok i ms quiet r h =
    ground (arith, resolve_from_lem i 0 ms, has_duplicate-false_iff (hosts (expected i 0 ms)))

-- On an index within the cap the call raises for too many extra entries, else for a collision.
pub resolve_ports_cases :
    (i : ℕ) (ms : List PortMapping) (quiet : Bool)
    → i ≤ max_port_index
    → resolve_ports (pos i) ms quiet ≡ (
        if leb (auto_count ms) stride
        then (if has_duplicate (hosts (expected i 0 ms))
            then err host_ports_collide
            else ok (record {
              ports = expected i 0 ms;
              advisory = privileged_advisory quiet (expected i 0 ms);
            }))
        else err too_many_extra_ports)
unfolding resolve_ports
resolve_ports_cases i ms quiet h = ground (arith, resolve_from_lem i 0 ms)

length-expected : (i k : ℕ) (ms : List PortMapping) → length (expected i k ms) ≡ length ms
unfolding expected
length-expected i k [] = refl
length-expected i k (m ∷ ms) = ap suc (length-expected i (k + auto_slots m) ms)

get_elem?-expected :
    (i k : ℕ) (before : List PortMapping) (m : PortMapping) (after : List PortMapping)
    → get_elem? (expected i k (before ++ m ∷ after)) (length before)
      ≡ some (resolved_at i (k + auto_count before) m)
unfolding expected auto_count
get_elem?-expected i k [] m after = ap (λ s. some (resolved_at i s m)) (omega arith)
get_elem?-expected i k (b ∷ before) m after =
    get_elem?-expected i (k + auto_slots b) before m after
    ∙ ap (λ s. some (resolved_at i s m)) (omega arith)

-- Of a successful resolution: the index is within the cap, there is one port to a mapping and no
-- host port twice, and the port of each mapping stands at its place with its service and guest,
-- on the host port that `host_at` describes from the number of automatic extra entries before it.
pub resolve_ports_sound :
    (i : ℕ) (before : List PortMapping) (m : PortMapping) (after : List PortMapping) (quiet : Bool)
    (r : Resolution)
    → resolve_ports (pos i) (before ++ m ∷ after) quiet ≡ ok r
    → (i ≤ max_port_index)
      × (length r.ports ≡ length (before ++ m ∷ after))
      × Distinct (hosts r.ports)
      × (get_elem? r.ports (length before) ≡ some (resolved_at i (auto_count before) m))
resolve_ports_sound i before m after quiet r h =
    let (cap, e, _, distinct) = resolve_ports-eq-ok i (before ++ m ∷ after) quiet r h in
    (
      cap,
      ap length e ∙ length-expected i 0 (before ++ m ∷ after),
      distinct,
      ap (λ ps. get_elem? ps (length before)) e
          ∙ get_elem?-expected i 0 before m after
          ∙ ap (λ s. some (resolved_at i s m)) (omega arith),
    )
