-- ===== src/Registry/Salvage.antt =====
-- `_parse_row` and `_read` of src/beetroot/registry.py: what they keep of a file.
use mathlib.Core.Option.{some-injective}
use beetroot.Prelude.{
  ◌≡◌, ◌⊎◌, refl, sym, ap, ◌∙◌, subst, true, Option, none, some, [], ◌∷◌, arith, ℤ, string_eq, inl,
  inr, Option-cases, Bool-cases,
}
use beetroot.Prelude.Maybe.{◌>>=◌}
use beetroot.Dict.{Dict, insert}
use beetroot.Json.{
  Json, Fields, obj, end, field, field_get, only, IsKeyed, FieldsKeyed, field_get-FieldsKeyed,
}
use beetroot.Registry.{Platform}
use beetroot.Registry.Backend.{
  BackendConfig, ConfigClass, opaque_backend, parse_backend_config, dump_backend_config,
}
use beetroot.Registry.Rows.{InstanceMeta, object_of, validate_meta, parse_row, read_rows}
use beetroot.Registry.Storage.{Files, parse_registry, read, write, is_current, instances_of}
use beetroot.Registry.Reread.{
  HasInTree, IsDict, reread, reread_again, dump-reread-IsDict, reread_of_reject,
}
use beetroot.Registry.RoundTrip.{parse_row_lem, IsReadable, IsStored, insert-IsStored, read-write}

object_of-obj : (o : Option Json) {fs : Fields} → object_of o ≡ some fs → o ≡ some (obj fs)
object_of-obj (some (obj fs)) h = ap (λ x. some (obj x)) (some-injective _ _ h)
object_of-obj none h = absurd (ground arith)
object_of-obj (some _) h = absurd (ground arith)

instances_of-value : (v : Json) → IsKeyed v → FieldsKeyed (instances_of (some v))
instances_of-value (obj fs) k = k.1
instances_of-value _ k = tt

instances-FieldsKeyed :
    (raw : Fields) → FieldsKeyed raw → FieldsKeyed (instances_of (field_get "instances" raw))
instances-FieldsKeyed raw k = elim (Option-cases (field_get "instances" raw)) [
  | inl e ↦ rw e tt
  | inr (v, e) ↦ rw e (instances_of-value v (field_get-FieldsKeyed "instances" raw k e))
]

module _ {T Text : Type 0} (p : Platform T Text) (classes : Dict ConfigClass) where
  validate_meta-backend :
      (meta_dict : Fields) (b : BackendConfig) {meta : InstanceMeta T}
      → validate_meta p meta_dict b ≡ some meta
      → meta.backend ≡ b
  unfolding validate_meta
  validate_meta-backend meta_dict b h =
      elim (Option-cases (field_get "index" meta_dict >>= p.int_of)) [
        | inl e ↦ absurd (ground arith)
        | inr (i, e) ↦ elim (Option-cases (field_get "created_at" meta_dict >>= p.datetime_of)) [
          | inl f ↦ absurd (ground arith)
          | inr (t, f) ↦ ground arith
        ]
      ]

  -- A row with no stray key, an index that is an integer and a `created_at` that is a time is
  -- kept, with that index and time, whatever its backend payload: its backend is the payload
  -- parsed, or is dumped as the payload that was read.
  pub parse_row_salvage :
      (meta_dict raw : Fields) (index created_at : Json) (i : ℤ) (t : T)
      → only ("backend" ∷ "index" ∷ "created_at" ∷ []) meta_dict ≡ true
      → field_get "index" meta_dict ≡ some index
      → field_get "created_at" meta_dict ≡ some created_at
      → p.int_of index ≡ some i
      → p.datetime_of created_at ≡ some t
      → (meta : InstanceMeta T) × (parse_row p classes meta_dict raw ≡ some meta)
        × (meta.index ≡ i)
        × (meta.created_at ≡ t)
        × ((parse_backend_config p.external_of classes raw ≡ some meta.backend)
            ⊎ ((parse_backend_config p.external_of classes raw ≡ none)
                × (dump_backend_config meta.backend ≡ raw)))
  unfolding validate_meta dump_backend_config opaque_backend reread
  parse_row_salvage meta_dict raw index created_at i t allowed hi ht ei et = (
    record { backend = reread p classes raw; index = i; created_at = t },
    parse_row_lem p classes meta_dict raw ∙ ground arith,
    refl,
    refl,
    elim (Option-cases (parse_backend_config p.external_of classes raw)) [
      | inl f ↦ inr (f, ap dump_backend_config (reread_of_reject p classes raw f))
      | inr (b, f) ↦ inl (ground arith)
    ],
  )

  module _ (known : HasInTree classes) where
    parse_row-IsReadable :
        (meta_dict raw : Fields) {meta : InstanceMeta T}
        → IsDict raw
        → parse_row p classes meta_dict raw ≡ some meta
        → IsReadable p classes meta
    parse_row-IsReadable meta_dict raw {meta} d h =
        let same : meta.backend ≡ reread p classes raw =
          validate_meta-backend meta_dict (reread p classes raw)
            (sym (parse_row_lem p classes meta_dict raw) ∙ h) in
        record {
          again = rw same (reread_again p classes known raw);
          keyed = rw same (dump-reread-IsDict p classes raw d);
        }

    read_rows-IsStored :
        (acc : Dict (InstanceMeta T)) (fs : Fields) {rows : Dict (InstanceMeta T)}
        → FieldsKeyed fs
        → IsStored p classes acc
        → read_rows p classes acc fs ≡ some rows
        → IsStored p classes rows
    unfolding read_rows
    read_rows-IsStored acc end k a h = subst (IsStored p classes) (some-injective _ _ h) a
    read_rows-IsStored acc (field name (obj m) rest) {rows} k a h =
        elim (Option-cases (object_of (field_get "backend" m))) [
          | inl e ↦ read_rows-IsStored acc rest k.1 a (rw (e, read_rows) at h)
          | inr (raw, e) ↦ elim (Option-cases (parse_row p classes m raw)) [
            | inl f ↦ absurd (ground arith)
            | inr (meta, f) ↦
                let dict = field_get-FieldsKeyed "backend" m k.0.1 (object_of-obj _ e) in
                read_rows-IsStored (insert name meta acc) rest k.1
                  (insert-IsStored p classes name meta acc (parse_row-IsReadable m raw dict f) a)
                  (rw (f, read_rows) at (rw (e, read_rows) at h))
          ]
        ]
    read_rows-IsStored acc (field name _ rest) k a h = read_rows-IsStored acc rest k.1 a h

    parse_registry-IsStored :
        (text : Text) {rows : Dict (InstanceMeta T)}
        → parse_registry p classes text ≡ some rows
        → IsStored p classes rows
    unfolding parse_registry
    parse_registry-IsStored text {rows} h = elim (Option-cases (object_of (p.loads text))) [
      | inl e ↦ absurd (ground arith)
      | inr (raw, e) ↦
          let keyed = p.loads-IsKeyed text (obj raw) (object_of-obj (p.loads text) e) in
          let h' = rw (e, parse_registry) at h in
          elim (Bool-cases (is_current (field_get "version" raw))) [
            | inl current ↦
                read_rows-IsStored [] (instances_of (field_get "instances" raw))
                  (instances-FieldsKeyed raw keyed.1) (record { names = tt; readable = tt })
                  (rw current at h')
            | inr other ↦ absurd (ground arith)
          ]
    ]

    -- The rows that `_read` returns are rows that a registry file can hold.
    pub read-IsStored : (files : Files Text) → IsStored p classes (read p classes files).0
    unfolding read
    read-IsStored files = elim (Option-cases files.registry) [
      | inl e ↦ rw (e, read) (record { names = tt; readable = tt })
      | inr (text, e) ↦ elim (Option-cases (parse_registry p classes text)) [
        | inl f ↦ rw (e, read) (rw (f, read) (record { names = tt; readable = tt }))
        | inr (rows, f) ↦ rw (e, read) (rw (f, read) (parse_registry-IsStored text f))
      ]
    ]

    -- The in-tree config classes are registered.
    -- For every registry file, corrupt ones included, what is read from it, written and read again
    -- comes back the same: rows of an unknown kind or with a rejected payload too.
    pub read-write-read :
        (files : Files Text)
        → let (rows, files') = read p classes files in
          read p classes (write p classes rows files') ≡ (rows, write p classes rows files')
    read-write-read files =
        let (rows, files') = read p classes files in
        read-write p classes rows files' (read-IsStored files)
