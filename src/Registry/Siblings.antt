-- ===== src/Registry/Siblings.antt =====
-- What a passed collision check says of the instances that are listed.
use mathlib.Core.Option.{some-injective}
use beetroot.Prelude.{
  ℕ, ◌≡◌, ◌≢◌, refl, sym, ◌∙◌, subst, String, true, false, Option, none, some, List, [], ◌∷◌, arith,
  pos, ok, err, Error, port_collision, ◌==◌, string_eq, nat_eq, nat_beq_iff, contains, inl, inr,
  ◌⊎◌, Option-cases, Bool-cases, Result-cases, ok_injective, err-ne-ok, All, All-map,
}
use beetroot.Dict.{Dict, lookup}
use beetroot.Ports.{PortMapping, ResolvedPort, hosts}
use beetroot.Ports.Bands.{pins}
use beetroot.Registry.Rows.{InstanceMeta}
use beetroot.Registry.{Platform}
use beetroot.Registry.Backend.{ConfigClass}
use beetroot.Registry.Storage.{Files}
use beetroot.Registry.Operations.{directory}
use beetroot.Registry.Transactions.{listed, transact_raised, transact_kept}
use beetroot.Registry.Protection.{host_set-pins, find_port_collision-none_iff, lookup-without}
use beetroot.Registry.Collisions.{
  assert_body, assert_no_port_collision, enter, row_host_ports, resolved_host_ports_from, Loaded,
  loaded, host_set, find_port_collision, without,
}

lookup-enter :
    (other n : String) (first : Option (List ℕ)) (rest : Dict (List ℕ))
    → (other == n) ≡ false
    → lookup other (enter n first rest) ≡ lookup other rest
unfolding lookup
lookup-enter other n none rest h = refl
lookup-enter other n (some set) rest h = rw h

All-lookup :
    {V : Type 0} (P : String × V → Type 0) (k : String) (d : Dict V) {v : V}
    → ((j : String) → P (j, v) → P (k, v))
    → All P d
    → lookup k d ≡ some v
    → P (k, v)
unfolding lookup
All-lookup P k [] move all e = absurd (ground arith)
All-lookup P k ((j, w) ∷ d) move all e = elim (Bool-cases (k == j)) [
  | inl same ↦
      let e' = some-injective _ _ (rw (same, lookup) at e) in
      move j (subst (λ x. P (j, x)) e' all.0)
  | inr other ↦ All-lookup P k d move all.1 (rw (other, lookup) at e)
]

module _ {T : Type 0} (load : String → Loaded) where
  resolved-eq-ok :
      (n : String) (m : InstanceMeta T) (rows : Dict (InstanceMeta T)) {out : Dict (List ℕ)}
      → resolved_host_ports_from load ((n, m) ∷ rows) ≡ ok out
      → (set : Option (List ℕ)) × (rest : Dict (List ℕ)) × (row_host_ports load m ≡ ok set)
        × (resolved_host_ports_from load rows ≡ ok rest)
        × (out ≡ enter n set rest)
  unfolding resolved_host_ports_from
  resolved-eq-ok n m rows h = elim (Result-cases (row_host_ports load m)) [
    | inl (x, f) ↦ absurd (ground arith)
    | inr (set, f) ↦ elim (Result-cases (resolved_host_ports_from load rows)) [
      | inl (y, g) ↦ absurd (ground arith)
      | inr (rest, g) ↦ (set, rest, f, g, ground arith)
    ]
  ]

  -- an entry of the rows is an entry of the dict, unless it is skipped
  lookup-resolved_host_ports_from :
      (rows : Dict (InstanceMeta T)) (other : String) {out : Dict (List ℕ)} {meta : InstanceMeta T}
      {set : List ℕ}
      → resolved_host_ports_from load rows ≡ ok out
      → lookup other rows ≡ some meta
      → row_host_ports load meta ≡ ok (some set)
      → lookup other out ≡ some set
  unfolding resolved_host_ports_from lookup
  lookup-resolved_host_ports_from [] other h e f = absurd (ground arith)
  lookup-resolved_host_ports_from ((n, m) ∷ rows) other {out} {meta} {set} h e f =
      let (first, rest, fm, fr, shape) = resolved-eq-ok n m rows h in
      elim (Bool-cases (other == n)) [
        | inl same ↦
            let here = some-injective _ _ (rw (same, lookup) at e) in
            let set_here : first ≡ some set = ok_injective first (some set) (sym fm ∙ rw here f) in
            rw shape (rw set_here (rw (same, lookup)))
        | inr differ ↦
            let later =
              lookup-resolved_host_ports_from rows other {out = rest} {meta = meta} {set = set} fr
                (rw (differ, lookup) at e) f in
            rw shape (lookup-enter other n first rest differ ∙ later)
      ]

  row_resolves :
      (rows : Dict (InstanceMeta T)) (other : String) {out : Dict (List ℕ)} {meta : InstanceMeta T}
      → resolved_host_ports_from load rows ≡ ok out
      → lookup other rows ≡ some meta
      → (set : Option (List ℕ)) × (row_host_ports load meta ≡ ok set)
  unfolding lookup
  row_resolves [] other h e = absurd (ground arith)
  row_resolves ((n, m) ∷ rows) other h e =
      let (first, rest, fm, fr, _) = resolved-eq-ok n m rows h in
      elim (Bool-cases (other == n)) [
        | inl same ↦
            let here = some-injective _ _ (rw (same, lookup) at e) in (first, rw here at fm)
        | inr differ ↦ row_resolves rows other fr (rw (differ, lookup) at e)
      ]

  row_host_set :
      (meta : InstanceMeta T) (i : ℕ) (path : String) (ms : List PortMapping)
      → meta.index ≡ pos i
      → directory meta.backend ≡ some path
      → load path ≡ loaded ms
      → (set : Option (List ℕ)) × (row_host_ports load meta ≡ ok set)
      → (set : List ℕ) × (host_set (pos i) ms ≡ ok set) × (row_host_ports load meta ≡ ok (some set))
  unfolding row_host_ports
  row_host_set meta i path ms at dir ld (s, e) = elim (Result-cases (host_set (pos i) ms)) [
    | inl (x, f) ↦ absurd (ground arith)
    | inr (set, f) ↦ (set, f, ground arith)
  ]

All-hosts :
    (Q : ℕ → Type 0) (h : ℕ) (rps : List ResolvedPort)
    → All (λ rp. Q rp.host) rps
    → contains h (hosts rps) ≡ true
    → Q h
All-hosts Q h [] all c = absurd (ground arith)
All-hosts Q h (rp ∷ rps) all c = elim (Bool-cases (h == rp.host)) [
  | inl same ↦ subst Q (sym ((nat_beq_iff h rp.host).0 same)) all.0
  | inr differ ↦ All-hosts Q h rps all.1 (rw differ at c)
]

module _ {T Text : Type 0} (p : Platform T Text) (classes : Dict ConfigClass)
    (load : String → Loaded) where
  assert_body-eq-ok :
      (name : String) (new_ports : List ResolvedPort) (rows : Dict (InstanceMeta T))
      {out : Option (Dict (InstanceMeta T))}
      → assert_body p classes load name new_ports rows ≡ ok (tt, out)
      → (siblings : Dict (List ℕ)) × (resolved_host_ports_from load rows ≡ ok siblings)
        × (find_port_collision new_ports (without name siblings) ≡ none)
  unfolding assert_body
  assert_body-eq-ok name new_ports rows h =
      elim (Result-cases (resolved_host_ports_from load rows)) [
        | inl (x, f) ↦ absurd (ground arith)
        | inr (siblings, f) ↦
            elim (Option-cases (find_port_collision new_ports (without name siblings))) [
              | inl g ↦ (siblings, f, g)
              | inr (c, g) ↦ absurd (ground arith)
            ]
      ]

  -- The body of the check writes nothing.
  assert_body_cases :
      (name : String) (new_ports : List ResolvedPort) (rows : Dict (InstanceMeta T))
      → ((e : Error) × (assert_body p classes load name new_ports rows ≡ err e))
        ⊎ (assert_body p classes load name new_ports rows ≡ ok (tt, none))
  unfolding assert_body
  assert_body_cases name new_ports rows = elim (Result-cases (resolved_host_ports_from load rows)) [
    | inl (x, f) ↦ inl (x, ground arith)
    | inr (siblings, f) ↦
        elim (Option-cases (find_port_collision new_ports (without name siblings))) [
          | inl g ↦ inr (ground arith)
          | inr ((port, other, service), g) ↦ inl (port_collision port other service, ground arith)
        ]
  ]

  assert_passes :
      (name : String) (new_ports : List ResolvedPort) (files : Files Text)
      → (assert_no_port_collision p classes load name new_ports files).0 ≡ ok tt
      → assert_body p classes load name new_ports (listed p classes files) ≡ ok (tt, none)
  unfolding assert_no_port_collision
  assert_passes name new_ports files done =
      elim (assert_body_cases name new_ports (listed p classes files)) [
        | inl (x, e) ↦ absurd (
            err-ne-ok x (
              sym
                (transact_raised p classes (assert_body p classes load name new_ports) files {e = x}
                  e).0
              ∙ done))
        | inr e ↦ e
      ]

  -- The check never changes the rows that are listed, whether or not it raises.
  pub assert_no_port_collision_pure :
      (name : String) (new_ports : List ResolvedPort) (files : Files Text)
      → listed p classes (assert_no_port_collision p classes load name new_ports files).1
        ≡ listed p classes files
  unfolding assert_no_port_collision
  assert_no_port_collision_pure name new_ports files =
      elim (assert_body_cases name new_ports (listed p classes files)) [
        | inl (x, e) ↦
            (transact_raised p classes (assert_body p classes load name new_ports) files {e = x}
              e).1
        | inr e ↦
            (transact_kept p classes (assert_body p classes load name new_ports) files {a = tt} e).1
      ]

  -- Once the check of an instance's ports returns, every other listed instance whose directory
  -- loads has a protected set, none of the checked host ports is in it, and none is pinned by the
  -- config of that instance.
  pub assert_no_port_collision_protects :
      (name : String) (new_ports : List ResolvedPort) (files : Files Text) (other : String)
      (meta : InstanceMeta T) (i : ℕ) (path : String) (ms : List PortMapping) (h : ℕ)
      → (assert_no_port_collision p classes load name new_ports files).0 ≡ ok tt
      → other ≢ name
      → lookup other (listed p classes files) ≡ some meta
      → meta.index ≡ pos i
      → directory meta.backend ≡ some path
      → load path ≡ loaded ms
      → contains h (hosts new_ports) ≡ true
      → (set : List ℕ) × (host_set (pos i) ms ≡ ok set)
        × (contains h set ≡ false)
        × (contains h (pins ms) ≡ false)
  assert_no_port_collision_protects name new_ports files other meta i path ms h done ne found at dir
        ld new =
      let (siblings, res, free) =
        assert_body-eq-ok name new_ports (listed p classes files)
          (assert_passes name new_ports files done) in
      let (set, hs, row) =
        row_host_set load meta i path ms at dir ld
          (row_resolves load (listed p classes files) other res found) in
      let theirs =
        lookup-without name other siblings ne
        ∙ lookup-resolved_host_ports_from load (listed p classes files) other {set = set} res found
            row in
      let apart =
        All-hosts (λ g. contains g set ≡ false) h new_ports
          (All-map _ _ new_ports
            (λ rp all.
              All-lookup (λ e. contains rp.host e.1 ≡ false) other (without name siblings)
                (λ j x. x) all theirs)
            ((find_port_collision-none_iff new_ports (without name siblings)).0 free))
          new in
      (set, hs, apart, ground (arith, host_set-pins i ms set h hs))
