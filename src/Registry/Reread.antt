-- ===== src/Registry/Reread.antt =====
-- `_dump_backend_config` and `_parse_backend_config` of src/beetroot/registry.py, one after the other.
use mathlib.Core.Option.{some-injective}
use beetroot.Prelude.{
  ◌≡◌, refl, ◌∙◌, String, Option, none, some, arith, string_eq, option_eq, inl, inr, Option-cases,
  Distinct,
}
use beetroot.Prelude.Maybe.{◌>>=◌}
use beetroot.Dict.{Dict, keys, lookup}
use beetroot.Json.{
  Json, Fields, obj, field_get, field_keys, string_of, dict_of, strings_of-of_strings, IsKeyed,
  FieldsKeyed, keys-strings_of, keys-of_strings, of_strings-FieldsKeyed, field_get-FieldsKeyed,
}
use beetroot.Registry.{Platform}
use beetroot.Registry.Backend.{
  BackendConfig, redroid, adb, vm, external, ConfigClass, redroid_class, adb_class, vm_class,
  external_class, kind_of, opaque_backend, validate, validate_redroid, validate_adb, validate_vm,
  parse_backend_config, dump_backend_config, stealth_of,
}

-- The classes of this package stand under their kinds.
pub record HasInTree (classes : Dict ConfigClass) : Type 0 where
  pub redroid_there : lookup "redroid" classes ≡ some redroid_class
  pub adb_there : lookup "adb" classes ≡ some adb_class
  pub vm_there : lookup "vm" classes ≡ some vm_class

-- The payload of a `BackendConfig` as a Python dict.
abbrev pub IsDict : Fields → Type 0
IsDict fs = Distinct (field_keys fs) × FieldsKeyed fs

kind_of_congr : (a b : Fields) → field_get "kind" a ≡ field_get "kind" b → kind_of a ≡ kind_of b
unfolding kind_of
kind_of_congr a b h = rw (h, kind_of)

validate_redroid-eq-some :
    (raw : Fields) {b : BackendConfig}
    → validate_redroid raw ≡ some b
    → (path : String) × (d : Dict String) × (stealth_of (field_get "stealth_paths" raw) ≡ some d)
      × (b ≡ redroid path d)
unfolding validate_redroid
validate_redroid-eq-some raw {b} h =
    elim (Option-cases (field_get "absolute_path" raw >>= string_of)) [
      | inl e ↦ absurd (ground arith)
      | inr (path, e) ↦ elim (Option-cases (stealth_of (field_get "stealth_paths" raw))) [
        | inl f ↦ absurd (ground arith)
        | inr (d, f) ↦ (path, d, f, ground arith)
      ]
    ]

stealth-Distinct :
    (o : Option Json) {d : Dict String}
    → ((v : Json) → o ≡ some v → IsKeyed v)
    → stealth_of o ≡ some d
    → Distinct (keys d)
unfolding dict_of
stealth-Distinct none h e = rw (← some-injective _ _ e) tt
stealth-Distinct (some (obj fs)) {d} h e = rw (keys-strings_of fs {d = d} e) ((h (obj fs) refl).0)
stealth-Distinct (some _) h e = absurd (ground arith)

validate_adb-eq-some :
    (raw : Fields) {b : BackendConfig}
    → validate_adb raw ≡ some b
    → (serial : String) × (b ≡ adb serial)
unfolding validate_adb
validate_adb-eq-some raw {b} h = elim (Option-cases (field_get "serial" raw >>= string_of)) [
  | inl e ↦ absurd (ground arith)
  | inr (serial, e) ↦ (serial, ground arith)
]

validate_vm-eq-some :
    (raw : Fields) {b : BackendConfig} → validate_vm raw ≡ some b → (path : String) × (b ≡ vm path)
unfolding validate_vm
validate_vm-eq-some raw {b} h = elim (Option-cases (field_get "absolute_path" raw >>= string_of)) [
  | inl e ↦ absurd (ground arith)
  | inr (path, e) ↦ (path, ground arith)
]

module _ {T Text : Type 0} (p : Platform T Text) (classes : Dict ConfigClass) where
  -- The backend of a row: the parsed one, or the opaque one where the parse fails.
  unfoldable pub reread : Fields → BackendConfig
  reread raw = elim (parse_backend_config p.external_of classes raw) [
    | none ↦ opaque_backend raw
    | some backend ↦ backend
  ]

  reread_of_parse :
      (raw : Fields) {b : BackendConfig}
      → parse_backend_config p.external_of classes raw ≡ some b
      → reread raw ≡ b
  unfolding reread
  reread_of_parse raw h = ground arith

  pub reread_of_reject :
      (raw : Fields)
      → parse_backend_config p.external_of classes raw ≡ none
      → reread raw ≡ opaque_backend raw
  unfolding reread
  reread_of_reject raw h = ground arith

  parse_registered :
      (raw : Fields) {cls : ConfigClass}
      → lookup (kind_of raw) classes ≡ some cls
      → parse_backend_config p.external_of classes raw ≡ validate p.external_of cls raw
  unfolding parse_backend_config
  parse_registered raw h = rw (h, parse_backend_config)

  parse_unknown :
      (raw : Fields)
      → lookup (kind_of raw) classes ≡ none
      → parse_backend_config p.external_of classes raw ≡ some (opaque_backend raw)
  unfolding parse_backend_config
  parse_unknown raw h = rw (h, parse_backend_config)

  module _ (known : HasInTree classes) where
    pub reread_redroid :
        (path : String) (d : Dict String)
        → reread (dump_backend_config (redroid path d)) ≡ redroid path d
    unfolding dump_backend_config validate
    reread_redroid path d =
        reread_of_parse _
          (parse_registered _ known.redroid_there ∙ rw (strings_of-of_strings d, validate_redroid))

    pub reread_adb : (serial : String) → reread (dump_backend_config (adb serial)) ≡ adb serial
    unfolding dump_backend_config validate
    reread_adb serial = reread_of_parse _ (parse_registered _ known.adb_there)

    pub reread_vm : (path : String) → reread (dump_backend_config (vm path)) ≡ vm path
    unfolding dump_backend_config validate
    reread_vm path = reread_of_parse _ (parse_registered _ known.vm_there)

    reread_opaque :
        (raw : Fields)
        → reread raw ≡ opaque_backend raw
        → reread (dump_backend_config (reread raw)) ≡ reread raw
    unfolding dump_backend_config opaque_backend
    reread_opaque raw h = rw h h

    reread_external :
        (name : String) (kind : Option String) (raw payload : Fields)
        → lookup (kind_of raw) classes ≡ some (external_class name kind)
        → p.external_of name raw ≡ some payload
        → reread payload ≡ external (kind_of raw) payload
    unfolding validate
    reread_external name kind raw payload h e =
        let same = kind_of_congr payload raw (p.external_of-kind name raw payload e) in
        reread_of_parse payload (
          parse_registered payload {cls = external_class name kind} (rw same h)
          ∙ rw (p.external_of_again name raw payload e, same))

    reread_validated :
        (cls : ConfigClass) (raw : Fields) {b : BackendConfig}
        → lookup (kind_of raw) classes ≡ some cls
        → validate p.external_of cls raw ≡ some b
        → reread (dump_backend_config b) ≡ b
    unfolding validate dump_backend_config
    reread_validated redroid_class raw h e =
        let (path, d, _, same) = validate_redroid-eq-some raw e in rw same (reread_redroid path d)
    reread_validated adb_class raw h e =
        let (serial, same) = validate_adb-eq-some raw e in rw same (reread_adb serial)
    reread_validated vm_class raw h e =
        let (path, same) = validate_vm-eq-some raw e in rw same (reread_vm path)
    reread_validated (external_class name kind) raw {b} h e =
        elim (Option-cases (p.external_of name raw)) [
          | inl f ↦ absurd (ground arith)
          | inr (payload, f) ↦
              let same : b ≡ external (kind_of raw) payload = ground arith in
              rw same (reread_external name kind raw payload h f)
        ]

    -- Whatever backend a row gives, its dump gives again.
    pub reread_again : (raw : Fields) → reread (dump_backend_config (reread raw)) ≡ reread raw
    reread_again raw = elim (Option-cases (lookup (kind_of raw) classes)) [
      | inl e ↦ reread_opaque raw (reread_of_parse raw (parse_unknown raw e))
      | inr (cls, e) ↦ elim (Option-cases (validate p.external_of cls raw)) [
        | inl f ↦ reread_opaque raw (reread_of_reject raw (parse_registered raw e ∙ f))
        | inr (b, f) ↦
            rw (reread_of_parse raw (parse_registered raw e ∙ f)) (reread_validated cls raw e f)
      ]
    ]

  dump-reread_validated :
      (cls : ConfigClass) (raw : Fields) {b : BackendConfig}
      → IsDict raw
      → validate p.external_of cls raw ≡ some b
      → IsDict (dump_backend_config b)
  unfolding validate dump_backend_config
  dump-reread_validated redroid_class raw h e =
      let (path, d, f, same) = validate_redroid-eq-some raw e in
      let distinct =
        stealth-Distinct (field_get "stealth_paths" raw)
          (λ v k. field_get-FieldsKeyed "stealth_paths" raw h.1 k) f in
      rw same (
        (refl, (refl, (refl, tt))),
        (tt, (tt, ((rw (keys-of_strings d) distinct, of_strings-FieldsKeyed d), tt))),
      )
  dump-reread_validated adb_class raw h e =
      let (serial, same) = validate_adb-eq-some raw e in rw same (ground arith)
  dump-reread_validated vm_class raw h e =
      let (path, same) = validate_vm-eq-some raw e in rw same (ground arith)
  dump-reread_validated (external_class name kind) raw {b} h e =
      elim (Option-cases (p.external_of name raw)) [
        | inl f ↦ absurd (ground arith)
        | inr (payload, f) ↦
            let same : b ≡ external (kind_of raw) payload = ground arith in
            rw same (p.external_of-IsKeyed name raw payload f)
      ]

  -- The dump of a backend that was read is a dict again.
  pub dump-reread-IsDict : (raw : Fields) → IsDict raw → IsDict (dump_backend_config (reread raw))
  unfolding dump_backend_config opaque_backend
  dump-reread-IsDict raw h = elim (Option-cases (lookup (kind_of raw) classes)) [
    | inl e ↦ rw (reread_of_parse raw (parse_unknown raw e)) h
    | inr (cls, e) ↦ elim (Option-cases (validate p.external_of cls raw)) [
      | inl f ↦ rw (reread_of_reject raw (parse_registered raw e ∙ f)) h
      | inr (b, f) ↦
          rw (reread_of_parse raw (parse_registered raw e ∙ f)) (dump-reread_validated cls raw h f)
    ]
  ]
