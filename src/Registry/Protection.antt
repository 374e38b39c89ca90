-- ===== src/Registry/Protection.antt =====
-- `find_port_collision` of src/beetroot/registry.py, and the sets of host ports that it searches.
use beetroot.Prelude.{
  ℕ, ◌+◌, ◌≡◌, ◌≢◌, ◌↔◌, refl, String, Bool, true, false, none, some, List, [], ◌∷◌, ◌++◌, any,
  ◌&&◌, arith, pos, ok, ◌==◌, string_eq, nat_eq, eq_iff, contains, contains-append, inl, inr,
  Option-cases, Result-cases, All,
}
use beetroot.Dict.{Dict, values, lookup}
use beetroot.Ports.{PortMapping, ResolvedPort, hosts, ports_for_index, resolve_ports}
use beetroot.Ports.Spec.{expected, host_at, auto_slots}
use beetroot.Ports.Resolve.{resolve_ports-eq-ok}
use beetroot.Ports.Bands.{pins}
use beetroot.Registry.Collisions.{host_set, owner_of, find_port_collision, without, shown}

-- every pinned port is among the ports of a resolution
pins-expected :
    (i k : ℕ) (ms : List PortMapping) (h : ℕ)
    → contains h (pins ms) ≡ true
    → contains h (hosts (expected i k ms)) ≡ true
unfolding pins expected host_at
pins-expected i k [] h c = cc
pins-expected i k (m ∷ ms) h c = elim (Option-cases m.host) [
  | inl e ↦ ground (arith, pins-expected i (k + auto_slots m) ms h)
  | inr (p, e) ↦ ground (arith, pins-expected i (k + auto_slots m) ms h)
]

-- The protected set of an instance holds every host port that its config pins, whether or not its
-- ports resolve.
pub host_set-pins :
    (i : ℕ) (ms : List PortMapping) (set : List ℕ) (h : ℕ)
    → host_set (pos i) ms ≡ ok set
    → contains h (pins ms) ≡ true
    → contains h set ≡ true
unfolding host_set
host_set-pins i ms set h e c = elim (Result-cases (resolve_ports (pos i) ms true)) [
  | inl (x, f) ↦ elim (Result-cases (ports_for_index (pos i))) [
    | inl (y, g) ↦ absurd (ground arith)
    | inr (defaults, g) ↦
        let same : set ≡ pins ms ++ values defaults = ground arith in
        rw same (rw (contains-append h (pins ms) (values defaults)) (rw c))
  ]
  | inr (r, f) ↦
      let same : set ≡ hosts r.ports = ground arith in
      let (_, ports, _, _) = resolve_ports-eq-ok i ms true r f in
      rw same (rw ports (pins-expected i 0 ms h c))
]

owner_of-none_iff :
    (h : ℕ) (others : Dict (List ℕ))
    → (owner_of h others ≡ none) ↔ All (λ e. contains h e.1 ≡ false) others
unfolding owner_of
owner_of-none_iff h [] = (λ _. tt, λ _. refl)
owner_of-none_iff h ((n, ps) ∷ others) = ground (arith, owner_of-none_iff h others)

module _ (rp : ResolvedPort) (new_ports : List ResolvedPort) (others : Dict (List ℕ)) where
  find-free :
      owner_of rp.host others ≡ none
      → find_port_collision (rp ∷ new_ports) others ≡ find_port_collision new_ports others
  unfolding find_port_collision
  find-free e = rw (e, find_port_collision)

  find-owned :
      {n : String}
      → owner_of rp.host others ≡ some n
      → find_port_collision (rp ∷ new_ports) others ≡ some (rp.host, n, shown rp.service)
  unfolding find_port_collision
  find-owned e = rw (e, find_port_collision)

-- No collision is reported exactly when no new host port is in any of the other instances' sets.
pub find_port_collision-none_iff :
    (new_ports : List ResolvedPort) (others : Dict (List ℕ))
    → (find_port_collision new_ports others ≡ none)
      ↔ All (λ rp. All (λ e. contains rp.host e.1 ≡ false) others) new_ports
unfolding find_port_collision
find_port_collision-none_iff [] others = (λ _. tt, λ _. refl)
find_port_collision-none_iff (rp ∷ new_ports) others =
    elim (Option-cases (owner_of rp.host others)) [
      | inl e ↦ rw (find-free rp new_ports others e) (
          ground (
            arith,
            owner_of-none_iff rp.host others,
            find_port_collision-none_iff new_ports others,
          ))
      | inr (n, e) ↦
          rw (find-owned rp new_ports others e) (ground (arith, owner_of-none_iff rp.host others))
    ]

-- Some entry of that name holds the port.
abbrev pub owns : String → ℕ → Dict (List ℕ) → Bool
owns name host = any (λ e. e.0 == name && contains host e.1)

owner_of-owns :
    (h : ℕ) (others : Dict (List ℕ)) {n : String}
    → owner_of h others ≡ some n
    → owns n h others ≡ true
unfolding owner_of
owner_of-owns h [] e = absurd (ground arith)
owner_of-owns h ((m, ps) ∷ others) {n} e =
    ground (arith, eq_iff m n, owner_of-owns h others {n = n})

pub lookup-without :
    {V : Type 0} (name other : String) (d : Dict V)
    → other ≢ name
    → lookup other (without name d) ≡ lookup other d
unfolding lookup without
lookup-without name other [] ne = refl
lookup-without name other ((n, v) ∷ d) ne =
    ground (arith, eq_iff n name, eq_iff other n, lookup-without name other d ne)
