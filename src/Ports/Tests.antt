-- ===== src/Ports/Tests.antt =====
-- Runs of ports.py on concrete inputs.
use beetroot.Prelude.{
  ◌≡◌, ◌≤◌, ◌<◌, ◌+◌, ◌*◌, ◌⊎◌, refl, true, false, none, some, List, [], ◌∷◌, ◌++◌, ℤ, pos, negsuc,
  ok, err, index_too_large, arith, contains, length, get_elem?, Distinct, nat_eq, int_eq, string_eq,
}
use beetroot.Ports.{
  PortMapping, Resolution, max_port_index, max_port, adb_base, extra_pool_base, stride, hosts,
  ports_for_index, resolve_ports, resolve_from, allot, base_of, privileged_advisory,
  lowest_free_index,
}
use beetroot.Ports.Free.{lowest_free_index_lem}
use beetroot.Ports.Spec.{auto_count, auto_slots, resolved_at}
use beetroot.Ports.Resolve.{resolve_ports_sound}
use beetroot.Ports.Bands.{pins, resolve_ports_disjoint, resolve_ports_bounds}
use beetroot.Ports.Auto.{labels, resolve_ports_auto}

abbrev mapping : List PortMapping
mapping =
    record { service = some "adb"; guest = 5555; host = none }
    ∷ record { service = none; guest = 8080; host = none }
    ∷ record { service = some "web"; guest = 80; host = some 80 }
    ∷ []

cap : max_port_index ≡ 1295
cap = refl

third_index :
    ports_for_index (pos 3) ≡ ok (("adb", 5585) ∷ ("frida", 27072) ∷ ("frida_control", 27073) ∷ [])
unfolding ports_for_index
third_index = refl

over_cap : ports_for_index (pos 1296) ≡ err index_too_large
unfolding ports_for_index
over_cap = refl

resolved :
    resolve_ports (pos 3) mapping false
    ≡ ok (record {
      ports =
          record { service = some "adb"; guest = 5555; host = 5585 }
          ∷ record { service = none; guest = 8080; host = 40030 }
          ∷ record { service = some "web"; guest = 80; host = 80 }
          ∷ [];
      advisory = some (80 ∷ []);
    })
unfolding resolve_ports resolve_from allot privileged_advisory
resolved = refl

gap : lowest_free_index (pos 0 ∷ negsuc 4 ∷ pos 2 ∷ pos 1 ∷ pos 4 ∷ []) ≡ 3
unfolding lowest_free_index
gap = refl

abbrev adb_port : PortMapping
adb_port = record { service = some "adb"; guest = 5555; host = none }

abbrev web_port : PortMapping
web_port = record { service = none; guest = 8080; host = none }

abbrev pinned_port : PortMapping
pinned_port = record { service = some "web"; guest = 80; host = some 5565 }

abbrev at_zero : Resolution
at_zero = record {
  ports =
      record { service = some "web"; guest = 80; host = 5565 }
      ∷ record { service = none; guest = 8080; host = 40000 }
      ∷ [];
  advisory = none;
}

abbrev at_one : Resolution
at_one = record {
  ports =
      record { service = some "adb"; guest = 5555; host = 5565 }
      ∷ record { service = none; guest = 8080; host = 40010 }
      ∷ [];
  advisory = none;
}

resolved_zero : resolve_ports (pos 0) (pinned_port ∷ web_port ∷ []) false ≡ ok at_zero
unfolding resolve_ports resolve_from allot privileged_advisory
resolved_zero = refl

resolved_one : resolve_ports (pos 1) (adb_port ∷ web_port ∷ []) false ≡ ok at_one
unfolding resolve_ports resolve_from allot privileged_advisory
resolved_one = refl

unpinned : contains 5565 (pins (adb_port ∷ web_port ∷ [])) ≡ false
unfolding pins
unpinned = refl

resolve_ports_disjoint_example :
    (contains 5565 (pins (pinned_port ∷ web_port ∷ [])) ≡ true)
    ⊎ (contains 5565 (pins (adb_port ∷ web_port ∷ [])) ≡ true)
resolve_ports_disjoint_example =
    resolve_ports_disjoint 0 1 (pinned_port ∷ web_port ∷ []) (adb_port ∷ web_port ∷ []) false false
      at_zero at_one 5565 (ground arith) resolved_zero resolved_one refl refl

resolve_ports_bounds_example :
    (adb_base ≤ 5565) × (5565 < extra_pool_base + (1 + 1) * stride) × (5565 ≤ max_port)
resolve_ports_bounds_example =
    resolve_ports_bounds 1 (adb_port ∷ web_port ∷ []) false at_one 5565 resolved_one refl unpinned

resolve_ports_sound_example :
    (1 ≤ max_port_index)
    × (length at_one.ports ≡ length ((adb_port ∷ []) ++ web_port ∷ []))
    × Distinct (hosts at_one.ports)
    × (get_elem? at_one.ports (length (adb_port ∷ []))
        ≡ some (resolved_at 1 (auto_count (adb_port ∷ [])) web_port))
resolve_ports_sound_example =
    resolve_ports_sound 1 (adb_port ∷ []) web_port [] false at_one resolved_one

two_labels : Distinct (labels (adb_port ∷ web_port ∷ []))
unfolding labels
two_labels = (refl, tt)

one_slot : auto_count (adb_port ∷ web_port ∷ []) ≤ stride
unfolding auto_count auto_slots base_of
one_slot = ground arith

resolve_ports_auto_example :
    (r : Resolution) × (resolve_ports (pos 1295) (adb_port ∷ web_port ∷ []) true ≡ ok r)
resolve_ports_auto_example =
    resolve_ports_auto 1295 (adb_port ∷ web_port ∷ []) true (ground arith) (refl, (refl, tt))
      two_labels one_slot

abbrev taken : List ℤ
taken = pos 0 ∷ pos 1 ∷ negsuc 0 ∷ pos 3 ∷ []

lowest_free_index_lem_example :
    (contains (pos (lowest_free_index taken)) taken ≡ false)
    × (lowest_free_index taken ≤ 5)
    × (lowest_free_index taken ≤ length taken)
lowest_free_index_lem_example = lowest_free_index_lem taken 5 refl
