-- ===== src/Registry/Paths.antt =====
-- `instance_path` and `get` of src/beetroot/registry.py after a registration by path.
use beetroot.Prelude.{
  ◌≤◌, ◌≡◌, refl, sym, ap, ◌∙◌, String, false, none, some, [], ◌∷◌, ◌++◌, string_eq, ok, pos,
  beq_refl,
}
use beetroot.Dict.{Dict, member, lookup, insert_fresh, lookup-insert}
use beetroot.Ports.{lowest_free_index, max_port_index}
use beetroot.Registry.{Platform}
use beetroot.Registry.Backend.{redroid, ConfigClass}
use beetroot.Registry.Rows.{InstanceMeta}
use beetroot.Registry.Storage.{Files}
use beetroot.Registry.Operations.{indices, add_allocating, get, instance_path}
use beetroot.Registry.Reread.{HasInTree}
use beetroot.Registry.Transactions.{listed}
use beetroot.Registry.Commits.{new_row, add_allocating_fresh}
use beetroot.Registry.Updates.{redroid-IsReadable}

module _ {T Text : Type 0} (p : Platform T Text) (classes : Dict ConfigClass) where
  get-listed :
      (name : String) (files : Files Text)
      → (get p classes name files).0 ≡ lookup name (listed p classes files)
  unfolding get
  get-listed name files = refl

  instance_path-get :
      (name : String) (files : Files Text) {meta : InstanceMeta T} {path : String}
      → lookup name (listed p classes files) ≡ some meta
      → meta.backend ≡ redroid path []
      → (instance_path p classes name files).0 ≡ ok path
  unfolding instance_path get
  instance_path-get name files {meta} found shape =
      rw (found, instance_path) (rw (shape, instance_path) refl)

  -- The in-tree config classes are registered.
  -- Registering a directory under a name that is not listed, with a free index within the cap: the
  -- name's path is that directory from then on, and its port index is the one that was returned.
  pub instance_path-add_allocating :
      (known : HasInTree classes) (name path : String) (now : T) (files : Files Text)
      → member name (listed p classes files) ≡ false
      → lowest_free_index (indices (listed p classes files)) ≤ max_port_index
      → let index = lowest_free_index (indices (listed p classes files)) in
        let (result, files') = add_allocating p classes name (some path) none now files in
        (result ≡ ok index)
        × ((instance_path p classes name files').0 ≡ ok path)
        × ((get p classes name files').0
            ≡ some (record { backend = redroid path []; index = pos index; created_at = now }))
  unfolding add_allocating
  instance_path-add_allocating known name path now files new served =
      let row = new_row p classes (redroid path []) now files in
      let rows = listed p classes files in
      let done =
        add_allocating_fresh p classes known name (redroid path []) now files
          (redroid-IsReadable p classes known path [] row tt refl) new served in
      let found : lookup name (rows ++ (name, row) ∷ []) ≡ some row =
        ap (lookup name) (sym (insert_fresh name row rows new))
        ∙ lookup-insert name name row rows
        ∙ rw beq_refl in
      (
        done.0,
        instance_path-get name _ (ap (lookup name) done.1 ∙ found) refl,
        get-listed name _ ∙ ap (lookup name) done.1 ∙ found,
      )
