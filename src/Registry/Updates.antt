-- ===== src/Registry/Updates.antt =====
-- The operations that change the backend of a row, as later readers see them.
use mathlib.Core.Option.{some-injective}
use beetroot.Prelude.{
  ◌≡◌, ◌≢◌, refl, sym, ap, ◌∙◌, String, Bool, true, false, some, [], arith, ◌==◌, beq_refl,
  beq_of_ne, Distinct, string_eq, ok,
}
use beetroot.Dict.{Dict, keys, lookup, insert, lookup-insert}
use beetroot.Json.{of_strings, keys-of_strings, of_strings-FieldsKeyed}
use beetroot.Registry.{Platform}
use beetroot.Registry.Backend.{
  BackendConfig, redroid, adb, vm, external, unresolved, ConfigClass, dump_backend_config,
}
use beetroot.Registry.Rows.{InstanceMeta}
use beetroot.Registry.Transactions.{listed, listed-IsStored, transact_written}
use beetroot.Registry.Storage.{Files}
use beetroot.Registry.Operations.{
  stealth_row, set_stealth_paths, flipped, reconcile_row, reconcile_backend_kind,
}
use beetroot.Registry.Reread.{HasInTree, reread_redroid, reread_vm}
use beetroot.Registry.RoundTrip.{IsReadable, insert-IsStored}
use beetroot.Registry.Invariant.{reconcile_row_flips}

module _ {T Text : Type 0} (p : Platform T Text) (classes : Dict ConfigClass) where
  -- the in-tree directory-backed backends read back
  pub flipped-IsReadable :
      (known : HasInTree classes) (want_vm : Bool) (old new : BackendConfig) (meta : InstanceMeta T)
      → flipped want_vm old ≡ some new
      → meta.backend ≡ new
      → IsReadable p classes meta
  unfolding flipped dump_backend_config of_strings
  flipped-IsReadable known true (redroid path d) new meta e same =
      let shape = same ∙ sym (some-injective _ _ e) in
      record { again = rw shape (reread_vm p classes known path); keyed = rw shape (ground arith) }
  flipped-IsReadable known false (redroid path d) new meta e same = absurd (ground arith)
  flipped-IsReadable known true (vm path) new meta e same = absurd (ground arith)
  flipped-IsReadable known false (vm path) new meta e same =
      let shape = same ∙ sym (some-injective _ _ e) in
      record {
        again = rw shape (reread_redroid p classes known path []);
        keyed = rw shape (ground arith);
      }
  flipped-IsReadable known want_vm (adb serial) new meta e same = absurd (ground arith)
  flipped-IsReadable known want_vm (external k d) new meta e same = absurd (ground arith)
  flipped-IsReadable known want_vm (unresolved k d) new meta e same = absurd (ground arith)

  -- The in-tree config classes are registered.
  -- Reconciling a listed row whose kind does not match the binder mode: the call returns true,
  -- and the row listed next has the flipped backend, with the index and the time that it had.
  -- Every other name is looked up as before.
  pub reconcile_commits :
      (known : HasInTree classes) (name binder other : String) (files : Files Text)
      (meta : InstanceMeta T) (new : BackendConfig)
      → lookup name (listed p classes files) ≡ some meta
      → flipped (binder == "vm") meta.backend ≡ some new
      → other ≢ name
      → let (result, files') = reconcile_backend_kind p classes name binder files in
        (result ≡ ok true)
        × (lookup name (listed p classes files') ≡ some (record meta { backend = new }))
        × (lookup other (listed p classes files') ≡ lookup other (listed p classes files))
  unfolding reconcile_backend_kind
  reconcile_commits known name binder other files meta new found flip ne =
      let rows = listed p classes files in
      let meta' : InstanceMeta T = record meta { backend = new } in
      let done =
        transact_written p classes (reconcile_row name binder) files {rows = insert name meta' rows}
          (insert-IsStored p classes name meta' rows
            (flipped-IsReadable known (binder == "vm") meta.backend new meta' flip refl)
            (listed-IsStored p classes known files))
          (reconcile_row_flips name binder rows meta new found flip) in
      (
        done.0,
        ap (lookup name) done.1 ∙ lookup-insert name name meta' rows ∙ rw beq_refl,
        ap (lookup other) done.1
            ∙ lookup-insert other name meta' rows
            ∙ rw (beq_of_ne other name ne),
      )

  pub redroid-IsReadable :
      (known : HasInTree classes) (path : String) (paths : Dict String) (meta : InstanceMeta T)
      → Distinct (keys paths)
      → meta.backend ≡ redroid path paths
      → IsReadable p classes meta
  unfolding dump_backend_config
  redroid-IsReadable known path paths meta d shape = record {
    again = rw shape (reread_redroid p classes known path paths);
    keyed = rw shape (
      (refl, (refl, (refl, tt))),
      (tt, (tt, ((rw keys-of_strings d, of_strings-FieldsKeyed paths), tt))),
    );
  }

  -- The in-tree config classes are registered.
  -- Setting stealth paths, no key twice, on a listed redroid instance: the row listed next has the
  -- new paths, with the directory, the index and the time that it had. Every other name is looked up
  -- as before.
  pub set_stealth_paths_commits :
      (known : HasInTree classes) (name other path : String) (old paths : Dict String)
      (files : Files Text) (meta : InstanceMeta T)
      → Distinct (keys paths)
      → lookup name (listed p classes files) ≡ some meta
      → meta.backend ≡ redroid path old
      → other ≢ name
      → let (result, files') = set_stealth_paths p classes name paths files in
        (result ≡ ok tt)
        × (lookup name (listed p classes files')
            ≡ some (record meta { backend = redroid path paths }))
        × (lookup other (listed p classes files') ≡ lookup other (listed p classes files))
  unfolding set_stealth_paths stealth_row
  set_stealth_paths_commits known name other path old paths files meta d found shape ne =
      let rows = listed p classes files in
      let meta' : InstanceMeta T = record meta { backend = redroid path paths } in
      let done =
        transact_written p classes (stealth_row name paths) files {rows = insert name meta' rows}
          (insert-IsStored p classes name meta' rows
            (redroid-IsReadable known path paths meta' d refl)
            (listed-IsStored p classes known files))
          (rw (found, stealth_row) (rw (shape, stealth_row) refl)) in
      (
        done.0,
        ap (lookup name) done.1 ∙ lookup-insert name name meta' rows ∙ rw beq_refl,
        ap (lookup other) done.1
            ∙ lookup-insert other name meta' rows
            ∙ rw (beq_of_ne other name ne),
      )
