-- ===== src/Ports/Views.antt =====
-- What callers read off a resolution: the privileged-port advisory and the well-known services.
use beetroot.Prelude.{
  ℕ, ◌<◌, ◌≡◌, ◌≢◌, ◌∙◌, ap, ◌↔◌, refl, String, Bool, true, false, ◌||◌, Option, none, some, List,
  [], ◌∷◌, arith, ltb, inl, inr, Option-cases, Bool-cases, contains, nat_eq, string_eq, eq_iff,
  option_eq, option_beq, All, if◌then◌else◌, filter, ◌==◌,
}
use beetroot.Dict.{Dict, lookup, member, lookup-insert, lookup-nil}
use beetroot.Ports.{
  ResolvedPort, hosts, insert_sorted, sorted_set, privileged_advisory, privileged_port_ceiling,
  well_known, well_known_from, collect_port, well_known_services,
}

-- Strictly ascending, so without repetition.
abbrev pub IsAscending : List ℕ → Type 0
IsAscending [] = Unit
IsAscending (x ∷ xs) = All (λ y. x < y) xs × IsAscending xs

contains-insert_sorted :
    (h a : ℕ) (xs : List ℕ) → contains h (insert_sorted a xs) ≡ (h == a || contains h xs)
unfolding insert_sorted
contains-insert_sorted h a [] = refl
contains-insert_sorted h a (x ∷ xs) = ground (arith, contains-insert_sorted h a xs)

contains-sorted_set : (h : ℕ) (xs : List ℕ) → contains h (sorted_set xs) ≡ contains h xs
unfolding sorted_set
contains-sorted_set h [] = refl
contains-sorted_set h (x ∷ xs) = rw contains-insert_sorted (rw (contains-sorted_set h xs))

contains-filter :
    (test : ℕ → Bool) (h : ℕ) (xs : List ℕ)
    → (contains h (filter test xs) ≡ true) ↔ ((contains h xs ≡ true) × (test h ≡ true))
contains-filter test h [] = ground arith
contains-filter test h (x ∷ xs) = elim (Bool-cases (test x)) [
  | inl p ↦ rw p (ground (arith, contains-filter test h xs))
  | inr p ↦ rw p (ground (arith, contains-filter test h xs))
]

All-lt-insert_sorted :
    (y a : ℕ) (xs : List ℕ) → y < a → All (λ z. y < z) xs → All (λ z. y < z) (insert_sorted a xs)
unfolding insert_sorted
All-lt-insert_sorted y a [] h hs = (h, tt)
All-lt-insert_sorted y a (x ∷ xs) h hs = ground (arith, All-lt-insert_sorted y a xs h hs.1)

All-lt_trans : (y a : ℕ) (xs : List ℕ) → y < a → All (λ z. a < z) xs → All (λ z. y < z) xs
All-lt_trans y a [] h hs = tt
All-lt_trans y a (x ∷ xs) h hs = (omega arith, All-lt_trans y a xs h hs.1)

insert_sorted-IsAscending :
    (a : ℕ) (xs : List ℕ) → IsAscending xs → IsAscending (insert_sorted a xs)
unfolding insert_sorted
insert_sorted-IsAscending a [] h = (tt, tt)
insert_sorted-IsAscending a (x ∷ xs) h =
    ground
      (arith, insert_sorted-IsAscending a xs h.1, All-lt-insert_sorted x a xs, All-lt_trans a x xs)

sorted_set-IsAscending : (xs : List ℕ) → IsAscending (sorted_set xs)
unfolding sorted_set
sorted_set-IsAscending [] = tt
sorted_set-IsAscending (x ∷ xs) =
    insert_sorted-IsAscending x (sorted_set xs) (sorted_set-IsAscending xs)

privileged : List ResolvedPort → List ℕ
privileged rps = sorted_set (filter (λ h. ltb h privileged_port_ceiling) (hosts rps))

privileged_iff :
    (rps : List ResolvedPort) (h : ℕ)
    → (contains h (privileged rps) ≡ true)
      ↔ ((contains h (hosts rps) ≡ true) × (h < privileged_port_ceiling))
unfolding privileged
privileged_iff rps h =
    rw contains-sorted_set
      (ground (arith, contains-filter (λ x. ltb x privileged_port_ceiling) h (hosts rps)))

-- What the advisory names, with none read as the empty list.
abbrev pub named : Option (List ℕ) → List ℕ
named none = []
named (some l) = l

advisory_parts :
    (rps : List ResolvedPort)
    → (privileged_advisory true rps ≡ none)
      × (named (privileged_advisory false rps) ≡ privileged rps)
      × (privileged_advisory false rps ≢ some [])
unfolding privileged_advisory privileged
advisory_parts rps = ground arith

-- A quiet resolution gives no advisory. Otherwise the advisory names, in ascending order and each
-- once, exactly the resolved host ports below the privileged ceiling, and is left out if there is
-- none.
pub privileged_advisory_lem :
    (rps : List ResolvedPort) (h : ℕ)
    → (privileged_advisory true rps ≡ none)
      × IsAscending (named (privileged_advisory false rps))
      × ((contains h (named (privileged_advisory false rps)) ≡ true)
          ↔ ((contains h (hosts rps) ≡ true) × (h < privileged_port_ceiling)))
      × (privileged_advisory false rps ≢ some [])
privileged_advisory_lem rps h =
    let (quiet, loud, present) = advisory_parts rps in
    (
      quiet,
      rw loud (unfold privileged in sorted_set-IsAscending _),
      rw loud (privileged_iff rps h),
      present,
    )

-- The last entry of a service, with a default.
abbrev pub last_host : String → List ResolvedPort → Option ℕ → Option ℕ
last_host s [] found = found
last_host s (rp ∷ rps) found =
    last_host s rps (if option_beq rp.service (some s) then some rp.host else found)

lookup-collect_port :
    (s : String) (acc : Dict ℕ) (rp : ResolvedPort)
    → member s well_known_services ≡ true
    → lookup s (collect_port acc rp)
      ≡ (if option_beq rp.service (some s) then some rp.host else lookup s acc)
unfolding collect_port
lookup-collect_port s acc rp h = elim (Option-cases rp.service) [
  | inl e ↦ ground arith
  | inr (t, e) ↦ ground (arith, eq_iff t s, eq_iff s t, lookup-insert s t rp.host acc)
]

lookup-well_known_from :
    (s : String) (acc : Dict ℕ) (rps : List ResolvedPort)
    → member s well_known_services ≡ true
    → lookup s (well_known_from acc rps) ≡ last_host s rps (lookup s acc)
unfolding well_known_from
lookup-well_known_from s acc [] h = refl
lookup-well_known_from s acc (rp ∷ rps) h =
    lookup-well_known_from s (collect_port acc rp) rps h
    ∙ ap (last_host s rps) (lookup-collect_port s acc rp h)

other-collect_port :
    (s : String) (acc : Dict ℕ) (rp : ResolvedPort)
    → member s well_known_services ≡ false
    → lookup s (collect_port acc rp) ≡ lookup s acc
unfolding collect_port
other-collect_port s acc rp h = elim (Option-cases rp.service) [
  | inl e ↦ ground arith
  | inr (t, e) ↦ ground (arith, eq_iff s t, lookup-insert s t rp.host acc)
]

other-well_known_from :
    (s : String) (acc : Dict ℕ) (rps : List ResolvedPort)
    → member s well_known_services ≡ false
    → lookup s (well_known_from acc rps) ≡ lookup s acc
unfolding well_known_from
other-well_known_from s acc [] h = refl
other-well_known_from s acc (rp ∷ rps) h =
    other-well_known_from s (collect_port acc rp) rps h ∙ other-collect_port s acc rp h

-- `well_known` maps each of the three well-known services to the host port of its last entry, and
-- has no other key.
pub lookup-well_known :
    (s : String) (rps : List ResolvedPort)
    → lookup s (well_known rps)
      ≡ (if member s well_known_services then last_host s rps none else none)
unfolding well_known
lookup-well_known s rps = elim (Bool-cases (member s well_known_services)) [
  | inl h ↦ rw h (rw (lookup-well_known_from s [] rps h) (ap (last_host s rps) (lookup-nil s)))
  | inr h ↦ rw h (rw (other-well_known_from s [] rps h) (lookup-nil s))
]
