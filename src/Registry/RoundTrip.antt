-- ===== src/Registry/RoundTrip.antt =====
-- `_write` and then `_read` of src/beetroot/registry.py, on rows that a registry file can hold.
use mathlib.Core.Option.{some-injective}
use beetroot.Prelude.{
  ◌≡◌, refl, sym, ap, ◌∙◌, subst, String, false, some, [], ◌∷◌, ◌++◌, arith, ◌==◌, string_eq,
  eq_iff, inl, inr, Bool-cases, Distinct, Distinct-snoc, contains-append, All,
}
use mathlib.Core.List.{append_assoc, append-nil}
use beetroot.Dict.{
  Dict, keys, member, lookup, insert, erase, erase-Distinct, insert_fresh, keys-append,
  keys-insert_present,
}
use beetroot.Json.{Json, Fields, num, str, obj, end, field, field_keys, IsKeyed, FieldsKeyed}
use beetroot.Registry.{Platform}
use beetroot.Registry.Backend.{BackendConfig, ConfigClass, dump_backend_config}
use beetroot.Registry.Rows.{
  InstanceMeta, row_to_json, rows_to_fields, registry_to_json, validate_meta, parse_row, read_rows,
}
use beetroot.Registry.Storage.{Files, parse_registry, read, write}
use beetroot.Registry.Reread.{IsDict, reread}

module _ {V : Type 0} where
  fresh_in_the_middle :
      (name : String) (v : V) (acc rest : Dict V)
      → Distinct (keys (acc ++ (name, v) ∷ rest))
      → member name acc ≡ false
  fresh_in_the_middle name v [] rest d = refl
  fresh_in_the_middle name v ((k, w) ∷ acc) rest d = ground (
    arith,
    eq_iff name k,
    eq_iff k name,
    fresh_in_the_middle name v acc rest,
    keys-append acc ((name, v) ∷ rest),
    contains-append k (keys acc) (name ∷ keys rest),
  )

module _ {T Text : Type 0} (p : Platform T Text) (classes : Dict ConfigClass) where
  -- the salvage decides the backend alone
  pub parse_row_lem :
      (meta_dict raw : Fields)
      → parse_row p classes meta_dict raw ≡ validate_meta p meta_dict (reread p classes raw)
  unfolding parse_row reread validate_meta
  parse_row_lem meta_dict raw = ground arith

  -- A row that was read: its backend is the one that its dump gives, and the dump is a dict.
  pub record IsReadable (meta : InstanceMeta T) : Type 0 where
    pub again : reread p classes (dump_backend_config meta.backend) ≡ meta.backend
    pub keyed : IsDict (dump_backend_config meta.backend)

  -- Rows as a registry file holds them.
  pub record IsStored (rows : Dict (InstanceMeta T)) : Type 0 where
    pub names : Distinct (keys rows)
    pub readable : All (λ e. IsReadable e.1) rows

  validate_meta-row :
      (meta : InstanceMeta T) (b : BackendConfig) (j : Json)
      → validate_meta p
          (field "backend" j (
            field "index"
              (num meta.index)
              (field "created_at" (str (p.isoformat meta.created_at)) end)))
          b
        ≡ some (record meta { backend = b })
  unfolding validate_meta
  validate_meta-row meta b j =
      rw (p.int_of-num meta.index) (rw (p.datetime_of-isoformat meta.created_at))

  parse_row-row :
      (meta : InstanceMeta T)
      → IsReadable meta
      → parse_row p classes
          (field "backend" (obj (dump_backend_config meta.backend)) (
            field "index"
              (num meta.index)
              (field "created_at" (str (p.isoformat meta.created_at)) end)))
          (dump_backend_config meta.backend)
        ≡ some meta
  parse_row-row meta h = parse_row_lem _ _ ∙ rw h.again (validate_meta-row meta meta.backend _)

  read_rows-rows_to_fields :
      (acc rows : Dict (InstanceMeta T))
      → Distinct (keys (acc ++ rows))
      → All (λ e. IsReadable e.1) rows
      → read_rows p classes acc (rows_to_fields p.isoformat rows) ≡ some (acc ++ rows)
  unfolding read_rows rows_to_fields row_to_json
  read_rows-rows_to_fields acc [] d h = ap some (sym (append-nil acc))
  read_rows-rows_to_fields acc ((name, meta) ∷ rows) d h =
      let fresh = fresh_in_the_middle name meta acc rows d in
      let regroup : (acc ++ (name, meta) ∷ []) ++ rows ≡ acc ++ (name, meta) ∷ rows =
        append_assoc acc ((name, meta) ∷ []) rows in
      rw (parse_row-row meta h.0, read_rows)
        (rw (insert_fresh name meta acc fresh) (
          read_rows-rows_to_fields (acc ++ (name, meta) ∷ []) rows (rw regroup d) h.1
          ∙ ap some regroup))

  keys-rows_to_fields :
      (rows : Dict (InstanceMeta T)) → field_keys (rows_to_fields p.isoformat rows) ≡ keys rows
  unfolding rows_to_fields
  keys-rows_to_fields [] = refl
  keys-rows_to_fields ((name, meta) ∷ rows) = ap (◌∷◌ name) (keys-rows_to_fields rows)

  rows_to_fields-FieldsKeyed :
      (rows : Dict (InstanceMeta T))
      → All (λ e. IsReadable e.1) rows
      → FieldsKeyed (rows_to_fields p.isoformat rows)
  unfolding rows_to_fields row_to_json
  rows_to_fields-FieldsKeyed [] h = tt
  rows_to_fields-FieldsKeyed ((name, meta) ∷ rows) h = (
    ((refl, (refl, (refl, tt))), (h.0.keyed, (tt, (tt, tt)))),
    rows_to_fields-FieldsKeyed rows h.1,
  )

  registry_to_json-IsKeyed :
      (rows : Dict (InstanceMeta T)) → IsStored rows → IsKeyed (registry_to_json p.isoformat rows)
  unfolding registry_to_json
  registry_to_json-IsKeyed rows h = (
    (refl, (refl, tt)),
    (tt, ((rw (keys-rows_to_fields rows) h.names, rows_to_fields-FieldsKeyed rows h.readable), tt)),
  )

  parse_registry-dumps :
      (rows : Dict (InstanceMeta T))
      → IsStored rows
      → parse_registry p classes (p.dumps (registry_to_json p.isoformat rows)) ≡ some rows
  unfolding parse_registry
  parse_registry-dumps rows h =
      rw (p.loads-dumps _ (registry_to_json-IsKeyed rows h), parse_registry)
        (unfold registry_to_json in read_rows-rows_to_fields [] rows h.names h.readable)

  -- Rows that a registry file can hold are read back from the file that `_write` leaves, which
  -- that read leaves alone.
  pub read-write :
      (rows : Dict (InstanceMeta T)) (files : Files Text)
      → IsStored rows
      → read p classes (write p classes rows files) ≡ (rows, write p classes rows files)
  unfolding read write
  read-write rows files h = rw (parse_registry-dumps rows h, read)

  insert-names :
      (name : String) (meta : InstanceMeta T) (rows : Dict (InstanceMeta T))
      → Distinct (keys rows)
      → Distinct (keys (insert name meta rows))
  insert-names name meta rows d = elim (Bool-cases (member name rows)) [
    | inl old ↦ rw (keys-insert_present name meta rows old) d
    | inr new ↦
        rw (insert_fresh name meta rows new)
          (rw (keys-append rows ((name, meta) ∷ [])) (Distinct-snoc name (keys rows) new d))
  ]

  insert-IsReadable :
      (name : String) (meta : InstanceMeta T) (rows : Dict (InstanceMeta T))
      → IsReadable meta
      → All (λ e. IsReadable e.1) rows
      → All (λ e. IsReadable e.1) (insert name meta rows)
  unfolding insert
  insert-IsReadable name meta [] m h = (m, tt)
  insert-IsReadable name meta ((k, w) ∷ rows) m h = elim (Bool-cases (name == k)) [
    | inl same ↦ rw same (m, h.1)
    | inr other ↦ rw other (h.0, insert-IsReadable name meta rows m h.1)
  ]

  pub insert-IsStored :
      (name : String) (meta : InstanceMeta T) (rows : Dict (InstanceMeta T))
      → IsReadable meta
      → IsStored rows
      → IsStored (insert name meta rows)
  insert-IsStored name meta rows m h = record {
    names = insert-names name meta rows h.names;
    readable = insert-IsReadable name meta rows m h.readable;
  }

  erase-IsReadable :
      (name : String) (rows : Dict (InstanceMeta T))
      → All (λ e. IsReadable e.1) rows
      → All (λ e. IsReadable e.1) (erase name rows)
  unfolding erase
  erase-IsReadable name [] h = tt
  erase-IsReadable name ((k, w) ∷ rows) h = elim (Bool-cases (name == k)) [
    | inl same ↦ rw same h.1
    | inr other ↦ rw other (h.0, erase-IsReadable name rows h.1)
  ]

  pub erase-IsStored :
      (name : String) (rows : Dict (InstanceMeta T)) → IsStored rows → IsStored (erase name rows)
  erase-IsStored name rows h = record {
    names = erase-Distinct name rows h.names;
    readable = erase-IsReadable name rows h.readable;
  }

  pub lookup-IsReadable :
      (name : String) (rows : Dict (InstanceMeta T)) {meta : InstanceMeta T}
      → All (λ e. IsReadable e.1) rows
      → lookup name rows ≡ some meta
      → IsReadable meta
  unfolding lookup
  lookup-IsReadable name [] h e = absurd (ground arith)
  lookup-IsReadable name ((k, w) ∷ rows) h e = elim (Bool-cases (name == k)) [
    | inl same ↦ subst IsReadable (some-injective _ _ (rw (same, lookup) at e)) h.0
    | inr other ↦ lookup-IsReadable name rows h.1 (rw (other, lookup) at e)
  ]
