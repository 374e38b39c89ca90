-- ===== src/Registry/Commits.antt =====
-- Adding and removing instances, as later readers of the registry file see it.
use beetroot.Prelude.{
  ◌≤◌, ◌<◌, already_registered, index_too_large, ◌≡◌, ◌≢◌, refl, ap, ◌∙◌, String, true, false, none,
  some, [], ◌∷◌, ◌++◌, arith, pos, ltb, ◌||◌, if◌then◌else◌, Bool-cases, inl, inr, string_eq, ok,
  err,
}
use beetroot.Dict.{
  Dict, member, lookup, insert, insert_fresh, erase, member-erase_self, lookup-erase_ne,
}
use beetroot.Ports.{lowest_free_index, max_port_index}
use beetroot.Registry.{Platform}
use beetroot.Registry.Backend.{BackendConfig, ConfigClass}
use beetroot.Registry.Rows.{InstanceMeta}
use beetroot.Registry.Transactions.{listed, listed-IsStored, transact_raised, transact_written}
use beetroot.Registry.Storage.{Files}
use beetroot.Registry.Operations.{indices, add_row, remove_row, add_allocating, remove}
use beetroot.Registry.Reread.{HasInTree}
use beetroot.Registry.RoundTrip.{IsReadable, insert-IsStored, erase-IsStored}
use beetroot.Registry.Invariant.{add_row_fresh, add_row_taken, add_row_full}

module _ {T Text : Type 0} (p : Platform T Text) (classes : Dict ConfigClass) where
  -- The row that registering adds to the rows of a file.
  abbrev pub new_row : BackendConfig → T → Files Text → InstanceMeta T
  new_row backend now files = record {
    backend = backend;
    index = pos (lowest_free_index (indices (listed p classes files)));
    created_at = now;
  }

  -- The in-tree config classes are registered.
  -- Registering a backend that reads back, under a name that is not listed and with a free index
  -- within the cap: the call returns the lowest free index, and the rows listed next are the
  -- earlier ones and the new one last.
  pub add_allocating_fresh :
      (known : HasInTree classes) (name : String) (backend : BackendConfig) (now : T)
      (files : Files Text)
      → IsReadable p classes (new_row backend now files)
      → member name (listed p classes files) ≡ false
      → lowest_free_index (indices (listed p classes files)) ≤ max_port_index
      → let (result, files') = add_allocating p classes name none (some backend) now files in
        (result ≡ ok (lowest_free_index (indices (listed p classes files))))
        × (listed p classes files'
            ≡ listed p classes files ++ (name, new_row backend now files) ∷ [])
  unfolding add_allocating
  add_allocating_fresh known name backend now files readable new served =
      let rows' = insert name (new_row backend now files) (listed p classes files) in
      let done =
        transact_written p classes (add_row name backend now) files
          (insert-IsStored p classes name (new_row backend now files) (listed p classes files)
            readable (listed-IsStored p classes known files))
          (add_row_fresh name backend now (listed p classes files) new served) in
      (done.0, done.1 ∙ insert_fresh name (new_row backend now files) (listed p classes files) new)

  -- Registering under a name that is listed raises the error for it, and leaves the rows as they
  -- were.
  pub add_allocating_taken :
      (name : String) (backend : BackendConfig) (now : T) (files : Files Text)
      → member name (listed p classes files) ≡ true
      → let (result, files') = add_allocating p classes name none (some backend) now files in
        (result ≡ err already_registered) × (listed p classes files' ≡ listed p classes files)
  unfolding add_allocating
  add_allocating_taken name backend now files old =
      transact_raised p classes (add_row name backend now) files
        (add_row_taken name backend now (listed p classes files) old)

  -- Registering a new name where the lowest free index is past the cap raises the error for the
  -- index, and leaves the rows as they were.
  pub add_allocating_full :
      (name : String) (backend : BackendConfig) (now : T) (files : Files Text)
      → member name (listed p classes files) ≡ false
      → max_port_index < lowest_free_index (indices (listed p classes files))
      → let (result, files') = add_allocating p classes name none (some backend) now files in
        (result ≡ err index_too_large) × (listed p classes files' ≡ listed p classes files)
  unfolding add_allocating
  add_allocating_full name backend now files new full =
      transact_raised p classes (add_row name backend now) files
        (add_row_full name backend now (listed p classes files) new full)

  -- The in-tree config classes are registered.
  -- Registering a backend that reads back. Where the name is listed, or the lowest free index is
  -- past the cap, the call raises the error of that check and the rows listed next are the same.
  -- Otherwise it returns the lowest free index, and the rows listed next are the earlier ones and
  -- the new one last.
  pub add_allocating_commits :
      (known : HasInTree classes) (name : String) (backend : BackendConfig) (now : T)
      (files : Files Text)
      → IsReadable p classes (new_row backend now files)
      → let rows = listed p classes files in
        let index = lowest_free_index (indices rows) in
        let (result, files') = add_allocating p classes name none (some backend) now files in
        (result ≡ (
          if member name rows
          then err already_registered
          else if ltb max_port_index index
          then err index_too_large
          else ok index))
        × (listed p classes files' ≡ (
            if member name rows || ltb max_port_index index
            then rows
            else rows ++ (name, new_row backend now files) ∷ []))
  add_allocating_commits known name backend now files readable =
      elim (Bool-cases (member name (listed p classes files))) [
        | inl old ↦ rw old (add_allocating_taken name backend now files old)
        | inr new ↦
            elim (Bool-cases
              (ltb max_port_index (lowest_free_index (indices (listed p classes files))))) [
                | inl full ↦
                    rw (new, full) (add_allocating_full name backend now files new (ground arith))
                | inr served ↦
                    rw (new, served)
                      (add_allocating_fresh known name backend now files readable new
                        (ground arith))
              ]
      ]

  -- The in-tree config classes are registered.
  -- Removing a name: it is gone from the rows that are listed next, and every other name is looked
  -- up as before.
  pub remove_commits :
      (known : HasInTree classes) (name other : String) (files : Files Text)
      → other ≢ name
      → let (result, files') = remove p classes name files in
        (result ≡ ok tt)
        × (member name (listed p classes files') ≡ false)
        × (lookup other (listed p classes files') ≡ lookup other (listed p classes files))
  unfolding remove remove_row
  remove_commits known name other files ne =
      let rows = listed p classes files in
      let stored = listed-IsStored p classes known files in
      let done =
        transact_written p classes (remove_row name) files {rows = erase name rows}
          (erase-IsStored p classes name rows stored) refl in
      (
        done.0,
        ap (member name) done.1 ∙ member-erase_self name rows stored.names,
        ap (lookup other) done.1 ∙ lookup-erase_ne other name rows ne,
      )
