-- ===== src/Registry/Invariant.antt =====
-- The invariant of the rows of src/beetroot/registry.py, and each operation on it.
use beetroot.Prelude.{
  ℕ, ◌≤◌, ◌<◌, ◌≡◌, refl, ap, String, Bool, true, false, Option, some, [], ◌∷◌, ◌++◌, ℤ, pos,
  negsuc, ok, err, already_registered, index_too_large, Result-cases, arith, inl, inr, Bool-cases,
  Option-cases, ◌==◌, string_eq, int_eq, contains, Distinct, Distinct-snoc, All, All-snoc,
}
use mathlib.Core.Option.{some-injective}
use beetroot.Dict.{
  Dict, keys, lookup, insert, erase, member, insert_fresh, keys-append, keys-insert_present,
  erase-Distinct, lookup-member,
}
use beetroot.Ports.{lowest_free_index, max_port_index}
use beetroot.Ports.Free.{lowest_free_index_fresh}
use beetroot.Registry.Backend.{BackendConfig}
use beetroot.Registry.Rows.{InstanceMeta}
use beetroot.Registry.Operations.{
  indices, add_row, remove_row, stealth_row, reconcile_row, flipped, with_stealth_paths,
}

-- A port index that the stride can serve.
abbrev pub InRange : ℤ → Type 0
InRange (pos n) = n ≤ max_port_index
InRange (negsuc n) = ⊥

-- Names are distinct, no two rows share a port index, and every index can be resolved.
pub record IsConsistent {T : Type 0} (rows : Dict (InstanceMeta T)) : Type 0 where
  pub names : Distinct (keys rows)
  pub slots : Distinct (indices rows)
  pub served : All InRange (indices rows)

module _ {T : Type 0} where
  indices-append :
      (rows : Dict (InstanceMeta T)) (name : String) (meta : InstanceMeta T)
      → indices (rows ++ (name, meta) ∷ []) ≡ indices rows ++ meta.index ∷ []
  indices-append [] name meta = refl
  indices-append ((k, m) ∷ rows) name meta = ap (◌∷◌ m.index) (indices-append rows name meta)

  contains-indices-erase :
      (i : ℤ) (name : String) (rows : Dict (InstanceMeta T))
      → contains i (indices rows) ≡ false
      → contains i (indices (erase name rows)) ≡ false
  unfolding erase
  contains-indices-erase i name [] h = refl
  contains-indices-erase i name ((k, m) ∷ rows) h =
      ground (arith, contains-indices-erase i name rows)

  indices-erase-Distinct :
      (name : String) (rows : Dict (InstanceMeta T))
      → Distinct (indices rows)
      → Distinct (indices (erase name rows))
  unfolding erase
  indices-erase-Distinct name [] h = tt
  indices-erase-Distinct name ((k, m) ∷ rows) h =
      ground (arith, indices-erase-Distinct name rows, contains-indices-erase m.index name rows)

  indices-erase-All :
      (name : String) (rows : Dict (InstanceMeta T))
      → All InRange (indices rows)
      → All InRange (indices (erase name rows))
  unfolding erase
  indices-erase-All name [] h = tt
  indices-erase-All name ((k, m) ∷ rows) h = elim (Bool-cases (name == k)) [
    | inl same ↦ rw same h.1
    | inr other ↦ rw other (h.0, indices-erase-All name rows h.1)
  ]

  -- a write to a present row that keeps the row's index keeps all indices
  pub indices-insert_same :
      (name : String) (meta new : InstanceMeta T) (rows : Dict (InstanceMeta T))
      → lookup name rows ≡ some meta
      → new.index ≡ meta.index
      → indices (insert name new rows) ≡ indices rows
  unfolding lookup insert
  indices-insert_same name meta new [] h e = cc
  indices-insert_same name meta new ((k, m) ∷ rows) h e =
      ground (arith, indices-insert_same name meta new rows)

  pub insert-IsConsistent :
      (name : String) (meta new : InstanceMeta T) (rows : Dict (InstanceMeta T))
      → lookup name rows ≡ some meta
      → new.index ≡ meta.index
      → IsConsistent rows
      → IsConsistent (insert name new rows)
  insert-IsConsistent name meta new rows h e v =
      let ks = keys-insert_present name new rows (lookup-member name rows h) in
      let is = indices-insert_same name meta new rows h e in
      record { names = rw ks v.names; slots = rw is v.slots; served = rw is v.served }

  -- What a successful `add_row` has done.
  pub add_row-eq-ok :
      (name : String) (backend : BackendConfig) (now : T) (rows : Dict (InstanceMeta T)) (i : ℕ)
      (out : Option (Dict (InstanceMeta T)))
      → add_row name backend now rows ≡ ok (i, out)
      → (member name rows ≡ false)
        × (i ≡ lowest_free_index (indices rows))
        × (i ≤ max_port_index)
        × (out
            ≡ some (
                rows ++ (name, record { backend = backend; index = pos i; created_at = now }) ∷ []))
  unfolding add_row
  add_row-eq-ok name backend now rows i out h = ground (
    arith,
    insert_fresh name (record { backend = backend; index = pos i; created_at = now }) rows,
  )

  pub add_row_fresh :
      (name : String) (backend : BackendConfig) (now : T) (rows : Dict (InstanceMeta T))
      → member name rows ≡ false
      → lowest_free_index (indices rows) ≤ max_port_index
      → add_row name backend now rows
        ≡ ok (
          lowest_free_index (indices rows),
          some (
              insert name
                (record {
                  backend = backend;
                  index = pos (lowest_free_index (indices rows));
                  created_at = now;
                })
                rows),
        )
  unfolding add_row
  add_row_fresh name backend now rows new cap = rw new (ground arith)

  pub add_row_taken :
      (name : String) (backend : BackendConfig) (now : T) (rows : Dict (InstanceMeta T))
      → member name rows ≡ true
      → add_row name backend now rows ≡ err already_registered
  unfolding add_row
  add_row_taken name backend now rows old = rw old

  pub add_row_full :
      (name : String) (backend : BackendConfig) (now : T) (rows : Dict (InstanceMeta T))
      → member name rows ≡ false
      → max_port_index < lowest_free_index (indices rows)
      → add_row name backend now rows ≡ err index_too_large
  unfolding add_row
  add_row_full name backend now rows new full = rw new (ground arith)

  pub reconcile_row_flips :
      (name binder : String) (rows : Dict (InstanceMeta T)) (meta : InstanceMeta T)
      (new : BackendConfig)
      → lookup name rows ≡ some meta
      → flipped (binder == "vm") meta.backend ≡ some new
      → reconcile_row name binder rows
        ≡ ok (true, some (insert name (record meta { backend = new }) rows))
  unfolding reconcile_row
  reconcile_row_flips name binder rows meta new found flip =
      rw (found, reconcile_row) (rw (flip, reconcile_row))

  -- Registering keeps the invariant, and the index that it returns was in no row.
  pub add_row-IsConsistent :
      (name : String) (backend : BackendConfig) (now : T) (rows : Dict (InstanceMeta T)) (i : ℕ)
      (rows' : Dict (InstanceMeta T))
      → IsConsistent rows
      → add_row name backend now rows ≡ ok (i, some rows')
      → IsConsistent rows' × (contains (pos i) (indices rows) ≡ false)
  add_row-IsConsistent name backend now rows i rows' v h =
      let meta : InstanceMeta T = record { backend = backend; index = pos i; created_at = now } in
      let (new, low, cap, e) = add_row-eq-ok name backend now rows i (some rows') h in
      let e' = some-injective _ _ e in
      let free : contains (pos i) (indices rows) ≡ false =
        rw low (lowest_free_index_fresh (indices rows)) in
      (
        rw e' (record {
          names =
              rw (keys-append rows ((name, meta) ∷ []))
                (Distinct-snoc name (keys rows) new v.names);
          slots =
              rw (indices-append rows name meta)
                (Distinct-snoc (pos i) (indices rows) free v.slots);
          served =
              rw (indices-append rows name meta)
                (All-snoc InRange (pos i) (indices rows) v.served cap);
        }),
        free,
      )

  pub remove_row-IsConsistent :
      (name : String) (rows rows' : Dict (InstanceMeta T))
      → IsConsistent rows
      → remove_row name rows ≡ ok (tt, some rows')
      → IsConsistent rows'
  unfolding remove_row
  remove_row-IsConsistent name rows rows' v h =
      let e : erase name rows ≡ rows' = ground arith in
      rw (← e) (record {
        names = erase-Distinct name rows v.names;
        slots = indices-erase-Distinct name rows v.slots;
        served = indices-erase-All name rows v.served;
      })

  -- What a successful `stealth_row` has done.
  pub stealth_row-eq-ok :
      (name : String) (paths : Dict String) (rows : Dict (InstanceMeta T))
      (out : Option (Dict (InstanceMeta T)))
      → stealth_row name paths rows ≡ ok (tt, out)
      → (meta : InstanceMeta T) × (b : BackendConfig) × (lookup name rows ≡ some meta)
        × (with_stealth_paths paths meta.backend ≡ ok b)
        × (out ≡ some (insert name (record meta { backend = b }) rows))
  unfolding stealth_row
  stealth_row-eq-ok name paths rows out h = elim (Option-cases (lookup name rows)) [
    | inl e ↦ absurd (ground arith)
    | inr (meta, e) ↦ elim (Result-cases (with_stealth_paths paths meta.backend)) [
      | inl (x, f) ↦ absurd (ground arith)
      | inr (b, f) ↦ (meta, b, e, f, ground arith)
    ]
  ]

  -- What a `reconcile_row` that writes has done.
  pub reconcile_row-eq-ok :
      (name binder : String) (rows : Dict (InstanceMeta T)) (b : Bool)
      (rows' : Dict (InstanceMeta T))
      → reconcile_row name binder rows ≡ ok (b, some rows')
      → (meta : InstanceMeta T) × (new : BackendConfig) × (b ≡ true)
        × (lookup name rows ≡ some meta)
        × (flipped (binder == "vm") meta.backend ≡ some new)
        × (rows' ≡ insert name (record meta { backend = new }) rows)
  unfolding reconcile_row
  reconcile_row-eq-ok name binder rows b rows' h = elim (Option-cases (lookup name rows)) [
    | inl e ↦ absurd (ground arith)
    | inr (meta, e) ↦ elim (Option-cases (flipped (binder == "vm") meta.backend)) [
      | inl f ↦ absurd (ground arith)
      | inr (new, f) ↦ (meta, new, ground arith, e, f, ground arith)
    ]
  ]
