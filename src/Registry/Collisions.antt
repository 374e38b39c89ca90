-- ===== src/Registry/Collisions.antt =====
-- Host-port collisions between instances. What `load_yaml` makes of a directory's `beetroot.yaml`
-- is a parameter, a function from the directory: the file is missing, refused, or has these ports.
use beetroot.Prelude.{
  ℕ, String, true, Option, none, some, List, [], ◌∷◌, ◌++◌, ℤ, Result, ok, err, ◌>>=◌,
  port_collision, invalid_config, ◌==◌, string_eq, nat_eq, contains, if◌then◌else◌,
}
use beetroot.Dict.{Dict, values}
use beetroot.Ports.{PortMapping, ResolvedPort, hosts, ports_for_index, resolve_ports}
use beetroot.Ports.Bands.{pins}
use beetroot.Registry.{Platform}
use beetroot.Registry.Backend.{ConfigClass}
use beetroot.Registry.Rows.{InstanceMeta}
use beetroot.Registry.Storage.{Files, transact, list_instances}
use beetroot.Registry.Operations.{directory}

pub data Loaded : Type 0 where
  missing refused : Loaded
  loaded : List PortMapping → Loaded

-- The ports of a config at an index, or the conservative set where they do not resolve.
unfoldable pub host_set : ℤ → List PortMapping → Result (List ℕ)
unfolding resolve_ports ports_for_index pins
host_set index mappings = elim (resolve_ports index mappings true) [
  | ok r ↦ ok (hosts r.ports)
  | err e ↦ do defaults ← ports_for_index index; ok (pins mappings ++ values defaults)
]

abbrev pub enter : String → Option (List ℕ) → Dict (List ℕ) → Dict (List ℕ)
enter name none out = out
enter name (some set) out = (name, set) ∷ out

module _ {T : Type 0} (load : String → Loaded) where
  -- `none` for an entry that is skipped.
  unfoldable pub row_host_ports : InstanceMeta T → Result (Option (List ℕ))
  unfolding host_set ports_for_index
  row_host_ports meta = elim (directory meta.backend) [
    | none ↦ do defaults ← ports_for_index meta.index; ok (some (values defaults))
    | some path ↦ elim (load path) [
      | missing ↦ ok none
      | refused ↦ err invalid_config
      | loaded mappings ↦ do set ← host_set meta.index mappings; ok (some set)
    ]
  ]

  -- Names are distinct, so the entries of the dict stand in the order of the rows.
  unfoldable pub resolved_host_ports_from : Dict (InstanceMeta T) → Result (Dict (List ℕ))
  unfolding row_host_ports
  resolved_host_ports_from [] = ok []
  resolved_host_ports_from ((name, meta) ∷ rows) = do
    set ← row_host_ports meta
    out ← resolved_host_ports_from rows
    ok (enter name set out)

module _ {T Text : Type 0} (p : Platform T Text) (classes : Dict ConfigClass)
    (load : String → Loaded) where
  unfoldable pub all_resolved_host_ports : Files Text → Result (Dict (List ℕ)) × Files Text
  unfolding list_instances resolved_host_ports_from
  all_resolved_host_ports files =
      let (rows, files') = list_instances p classes files in
      (resolved_host_ports_from load rows, files')

-- str(service)
abbrev pub shown : Option String → String
shown none = "None"
shown (some service) = service

-- the inner loop, for one host port
unfoldable pub owner_of : ℕ → Dict (List ℕ) → Option String
owner_of host [] = none
owner_of host ((name, ports) ∷ others) =
    if contains host ports then some name else owner_of host others

unfoldable pub find_port_collision :
    List ResolvedPort → Dict (List ℕ) → Option (ℕ × String × String)
unfolding owner_of
find_port_collision [] others = none
find_port_collision (rp ∷ new_ports) others = elim (owner_of rp.host others) [
  | none ↦ find_port_collision new_ports others
  | some name ↦ some (rp.host, name, shown rp.service)
]

-- {n: p for n, p in siblings.items() if n != name}
unfoldable pub without {ℓ} : {V : Type ℓ} → String → Dict V → Dict V
without name [] = []
without name ((n, v) ∷ d) = let rest = without name d in if n == name then rest else (n, v) ∷ rest

module _ {T Text : Type 0} (p : Platform T Text) (classes : Dict ConfigClass)
    (load : String → Loaded) where
  unfoldable pub assert_body :
      String
      → List ResolvedPort
      → Dict (InstanceMeta T)
      → Result (Unit {0} × Option (Dict (InstanceMeta T)))
  unfolding resolved_host_ports_from find_port_collision without
  assert_body name new_ports rows = do
    siblings ← resolved_host_ports_from load rows
    elim (find_port_collision new_ports (without name siblings)) [
      | none ↦ ok (tt, none)
      | some (port, other, service) ↦ err (port_collision port other service)
    ]

  unfoldable pub assert_no_port_collision :
      String → List ResolvedPort → Files Text → Result (Unit {0}) × Files Text
  unfolding transact assert_body
  assert_no_port_collision name new_ports = transact p classes (assert_body name new_ports)
