-- ===== src/Registry/Reach.antt =====
-- The rows that the operations' writes reach, and the invariant of all of them.
use beetroot.Prelude.{ℕ, ◌≡◌, refl, String, Bool, some, [], ok, string_eq, int_eq}
use mathlib.Core.Option.{some-injective}
use beetroot.Dict.{Dict}
use beetroot.Registry.Backend.{BackendConfig}
use beetroot.Registry.Rows.{InstanceMeta}
use beetroot.Registry.Operations.{add_row, remove_row, stealth_row, reconcile_row}
use beetroot.Registry.Invariant.{
  IsConsistent, add_row-IsConsistent, remove_row-IsConsistent, insert-IsConsistent,
  stealth_row-eq-ok, reconcile_row-eq-ok,
}

module _ {T : Type 0} where
  -- One write by an operation on the rows.
  pub data Step (rows rows' : Dict (InstanceMeta T)) : Type 0 where
    added :
        (name : String) (backend : BackendConfig) (now : T) (i : ℕ)
        → add_row name backend now rows ≡ ok (i, some rows')
        → Step rows rows'
    removed : (name : String) → remove_row name rows ≡ ok (tt, some rows') → Step rows rows'
    repathed :
        (name : String) (paths : Dict String)
        → stealth_row name paths rows ≡ ok (tt, some rows')
        → Step rows rows'
    reconciled :
        (name binder : String) (b : Bool)
        → reconcile_row name binder rows ≡ ok (b, some rows')
        → Step rows rows'

  Step-IsConsistent :
      {rows rows' : Dict (InstanceMeta T)}
      → Step rows rows'
      → IsConsistent rows
      → IsConsistent rows'
  Step-IsConsistent {rows} {rows'} (added name backend now i h) v =
      (add_row-IsConsistent name backend now rows i rows' v h).0
  Step-IsConsistent {rows} {rows'} (removed name h) v = remove_row-IsConsistent name rows rows' v h
  Step-IsConsistent {rows} {rows'} (repathed name paths h) v =
      let (meta, b, found, _, e) = stealth_row-eq-ok name paths rows (some rows') h in
      rw (some-injective _ _ e) (insert-IsConsistent name meta _ rows found refl v)
  Step-IsConsistent {rows} {rows'} (reconciled name binder b h) v =
      let (meta, new, _, found, _, e) = reconcile_row-eq-ok name binder rows b rows' h in
      rw e (insert-IsConsistent name meta _ rows found refl v)

  -- The rows that writes reach from an empty registry.
  pub data Reach : Dict (InstanceMeta T) → Type 0 where
    start : Reach []
    next : {rows rows' : Dict (InstanceMeta T)} → Reach rows → Step rows rows' → Reach rows'

  -- Whatever writes the operations make from an empty registry on, names are distinct, no two
  -- instances share a port index, and every index can be resolved.
  pub Reach-IsConsistent : {rows : Dict (InstanceMeta T)} → Reach rows → IsConsistent rows
  Reach-IsConsistent start = record { names = tt; slots = tt; served = tt }
  Reach-IsConsistent (next r st) = Step-IsConsistent st (Reach-IsConsistent r)
