-- ===== src/Registry/Operations.antt =====
-- The operations on the registry. A body works on the rows that were read under the lock, and
-- gives its value with the rows that it writes, if it writes.
use beetroot.Prelude.{
  ℕ, String, Bool, true, false, Option, none, some, List, [], ◌∷◌, ℤ, pos, Result, ok, err,
  raise_if, ◌>>=◌, ◌>>◌, already_registered, no_backend, unknown_instance, not_redroid,
  no_directory, ◌==◌, string_eq, if◌then◌else◌,
}
use beetroot.Dict.{Dict, lookup, insert, erase, member}
use beetroot.Ports.{check_index, lowest_free_index}
use beetroot.Registry.{Platform}
use beetroot.Registry.Backend.{BackendConfig, ConfigClass, redroid, vm}
use beetroot.Registry.Rows.{InstanceMeta}
use beetroot.Registry.Storage.{Files, transact, list_instances}

-- backend.stealth_paths = dict(stealth_paths), on a redroid backend
abbrev pub with_stealth_paths : Dict String → BackendConfig → Result BackendConfig
with_stealth_paths stealth_paths (redroid path old) = ok (redroid path stealth_paths)
with_stealth_paths stealth_paths _ = err not_redroid

-- The flipped backend; `none` where the kind matches, or is neither redroid nor vm.
unfoldable pub flipped : Bool → BackendConfig → Option BackendConfig
flipped want_vm (redroid path stealth_paths) = if want_vm then some (vm path) else none
flipped want_vm (vm path) = if want_vm then none else some (redroid path [])
flipped want_vm _ = none

-- the directory of a directory-backed backend
abbrev pub directory : BackendConfig → Option String
directory (redroid path stealth_paths) = some path
directory (vm path) = some path
directory _ = none

module _ {T : Type 0} where
  abbrev pub indices : Dict (InstanceMeta T) → List ℤ
  indices [] = []
  indices ((name, meta) ∷ rows) = meta.index ∷ indices rows

  -- the critical section of `add_allocating`
  unfoldable pub add_row :
      String
      → BackendConfig
      → T
      → Dict (InstanceMeta T)
      → Result (ℕ × Option (Dict (InstanceMeta T)))
  unfolding check_index
  add_row name backend now rows = do
    raise_if (member name rows) already_registered
    let index = lowest_free_index (indices rows)
    check_index (pos index)
    ok (
      index,
      some (insert name (record { backend = backend; index = pos index; created_at = now }) rows),
    )

  unfoldable pub remove_row :
      String → Dict (InstanceMeta T) → Result (Unit {0} × Option (Dict (InstanceMeta T)))
  unfolding erase
  remove_row name rows = ok (tt, some (erase name rows))

  unfoldable pub stealth_row :
      String
      → Dict String
      → Dict (InstanceMeta T)
      → Result (Unit {0} × Option (Dict (InstanceMeta T)))
  stealth_row name stealth_paths rows = elim (lookup name rows) [
    | none ↦ err unknown_instance
    | some meta ↦ do
      backend ← with_stealth_paths stealth_paths meta.backend
      ok (tt, some (insert name (record meta { backend = backend }) rows))
  ]

  unfoldable pub reconcile_row :
      String → String → Dict (InstanceMeta T) → Result (Bool × Option (Dict (InstanceMeta T)))
  unfolding flipped
  reconcile_row name binder rows = elim (lookup name rows) [
    | none ↦ ok (false, none)
    | some meta ↦ elim (flipped (binder == "vm") meta.backend) [
      | none ↦ ok (false, none)
      | some backend ↦ ok (true, some (insert name (record meta { backend = backend }) rows))
    ]
  ]

-- What `add_allocating` registers: the given backend, or a redroid one at the given path.
abbrev pub backend_to_add : Option String → Option BackendConfig → Result BackendConfig
backend_to_add path (some backend) = ok backend
backend_to_add (some path) none = ok (redroid path [])
backend_to_add none none = err no_backend

module _ {T Text : Type 0} (p : Platform T Text) (classes : Dict ConfigClass) where
  unfoldable pub add_allocating :
      String → Option String → Option BackendConfig → T → Files Text → Result ℕ × Files Text
  unfolding transact add_row
  add_allocating name path backend now files = elim (backend_to_add path backend) [
    | err e ↦ (err e, files)
    | ok to_add ↦ transact p classes (add_row name to_add now) files
  ]

  unfoldable pub remove : String → Files Text → Result (Unit {0}) × Files Text
  unfolding transact remove_row
  remove name = transact p classes (remove_row name)

  unfoldable pub set_stealth_paths :
      String → Dict String → Files Text → Result (Unit {0}) × Files Text
  unfolding transact stealth_row
  set_stealth_paths name stealth_paths = transact p classes (stealth_row name stealth_paths)

  unfoldable pub reconcile_backend_kind : String → String → Files Text → Result Bool × Files Text
  unfolding transact reconcile_row
  reconcile_backend_kind name binder = transact p classes (reconcile_row name binder)

  unfoldable pub get : String → Files Text → Option (InstanceMeta T) × Files Text
  unfolding list_instances lookup
  get name files = let (rows, files') = list_instances p classes files in (lookup name rows, files')

  unfoldable pub used_indices : Files Text → List ℤ × Files Text
  unfolding list_instances
  used_indices files = let (rows, files') = list_instances p classes files in (indices rows, files')

  unfoldable pub instance_path : String → Files Text → Result String × Files Text
  unfolding get
  instance_path name files =
      let (found, files') = get name files in
      elim found [
        | none ↦ (err unknown_instance, files')
        | some meta ↦ elim (directory meta.backend) [
          | none ↦ (err no_directory, files')
          | some path ↦ (ok path, files')
        ]
      ]
