-- ===== src/Registry/Transactions.antt =====
-- Critical sections on the registry file: the rows that an operation finds, and those that are
-- listed after it, by how its body ends.
use beetroot.Prelude.{
  ◌≡◌, refl, sym, ap, ◌∙◌, Option, none, some, [], arith, string_eq, inl, inr, ◌⊎◌, Option-cases,
  Result, ok, err, Error,
}
use beetroot.Dict.{Dict}
use beetroot.Registry.{Platform}
use beetroot.Registry.Backend.{ConfigClass}
use beetroot.Registry.Rows.{InstanceMeta, registry_to_json}
use beetroot.Registry.Storage.{
  Files, parse_registry, read, write, initialise, list_instances, transact,
}
use beetroot.Registry.Reread.{HasInTree}
use beetroot.Registry.RoundTrip.{IsStored, read-write}
use beetroot.Registry.Salvage.{read-IsStored}

module _ {T Text : Type 0} (p : Platform T Text) (classes : Dict ConfigClass) where
  -- The rows that an operation finds under its lock.
  abbrev pub current : Files Text → Dict (InstanceMeta T)
  current files = (read p classes (initialise p classes files)).0

  empty-IsStored : IsStored p classes []
  empty-IsStored = record { names = tt; readable = tt }

  current-missing : (files : Files Text) → files.registry ≡ none → current files ≡ []
  unfolding initialise
  current-missing files h =
      rw (h, initialise) (ap (λ r. r.0) (read-write p classes [] files empty-IsStored))

  pub current-present :
      (files : Files Text) {text : Text}
      → files.registry ≡ some text
      → current files ≡ (read p classes files).0
  unfolding initialise
  current-present files h = rw (h, initialise)

  list-missing :
      (files : Files Text) → files.registry ≡ none → (list_instances p classes files).0 ≡ []
  unfolding list_instances
  list-missing files h = rw (h, list_instances)

  pub initialise-present :
      (files : Files Text) {text : Text}
      → files.registry ≡ some text
      → initialise p classes files ≡ files
  unfolding initialise
  initialise-present files h = ground arith

  list-present :
      (files : Files Text) {text : Text}
      → files.registry ≡ some text
      → (list_instances p classes files).0 ≡ (read p classes files).0
  unfolding list_instances
  list-present files {text} h = ground (arith, initialise-present files h)

  -- Reading with or without the lock's escalation gives the rows that an operation finds.
  pub list_instances-current :
      (files : Files Text) → (list_instances p classes files).0 ≡ current files
  list_instances-current files = elim (Option-cases files.registry) [
    | inl e ↦ list-missing files e ∙ sym (current-missing files e)
    | inr (text, e) ↦ list-present files e ∙ sym (current-present files e)
  ]

  pub current-IsStored :
      (known : HasInTree classes) (files : Files Text) → IsStored p classes (current files)
  current-IsStored known files = read-IsStored p classes known (initialise p classes files)

  -- a write of stored rows is what the next operation finds
  pub current-write :
      (rows : Dict (InstanceMeta T)) (files : Files Text)
      → IsStored p classes rows
      → current (write p classes rows files) ≡ rows
  current-write rows files h =
      current-present (write p classes rows files)
        {text = p.dumps (registry_to_json p.isoformat rows)} (unfold write in refl)
      ∙ ap (λ r. r.0) (read-write p classes rows files h)

  read_cases :
      (files : Files Text)
      → ((files.registry ≡ none) × (read p classes files ≡ ([], files)))
        ⊎ (((text : Text) × (files.registry ≡ some text)
              × (read p classes files ≡ ((read p classes files).0, files)))
            ⊎ (read p classes files ≡ ([], record { registry = none; backup = files.registry })))
  unfolding read
  read_cases files = elim (Option-cases files.registry) [
    | inl e ↦ inl (e, ground arith)
    | inr (text, e) ↦ elim (Option-cases (parse_registry p classes text)) [
      | inl f ↦ inr (inr (ground arith))
      | inr (rows, f) ↦ inr (inl (text, e, ground arith))
    ]
  ]

  -- What a read leaves is what the next operation finds.
  pub current-read :
      (files : Files Text) → current (read p classes files).1 ≡ (read p classes files).0
  current-read files = elim (read_cases files) [
    | inl (e, h) ↦ ap (λ r. current r.1) h ∙ current-missing files e ∙ sym (ap (λ r. r.0) h)
    | inr (inl (text, e, h)) ↦ ap (λ r. current r.1) h ∙ current-present files e
    | inr (inr h) ↦
        ap (λ r. current r.1) h
        ∙ current-missing (record { registry = none; backup = files.registry }) refl
        ∙ sym (ap (λ r. r.0) h)
  ]

  -- What `list_instances` gives.
  abbrev pub listed : Files Text → Dict (InstanceMeta T)
  listed files = (list_instances p classes files).0

  module _ {A : Type 0} (body : Dict (InstanceMeta T) → Result (A × Option (Dict (InstanceMeta T))))
      (files : Files Text) where
    transact-raise :
        {e : Error}
        → body (current files) ≡ err e
        → transact p classes body files ≡ (err e, (read p classes (initialise p classes files)).1)
    unfolding transact
    transact-raise h = rw (h, transact)

    transact-keep :
        {a : A}
        → body (current files) ≡ ok (a, none)
        → transact p classes body files ≡ (ok a, (read p classes (initialise p classes files)).1)
    unfolding transact
    transact-keep h = rw (h, transact)

    transact-write :
        {a : A} {rows : Dict (InstanceMeta T)}
        → body (current files) ≡ ok (a, some rows)
        → transact p classes body files
          ≡ (ok a, write p classes rows (read p classes (initialise p classes files)).1)
    unfolding transact
    transact-write h = rw (h, transact)

    listed-after_read : listed (read p classes (initialise p classes files)).1 ≡ listed files
    listed-after_read =
        list_instances-current _
        ∙ current-read (initialise p classes files)
        ∙ sym (list_instances-current files)

    -- A body that raises leaves the rows as they were.
    pub transact_raised :
        {e : Error}
        → body (listed files) ≡ err e
        → let (result, files') = transact p classes body files in
          (result ≡ err e) × (listed files' ≡ listed files)
    transact_raised {e} h =
        let same = transact-raise {e = e} (ap body (sym (list_instances-current files)) ∙ h) in
        (ap (λ r. r.0) same, ap (λ r. listed r.1) same ∙ listed-after_read)

    -- So does one that writes nothing.
    pub transact_kept :
        {a : A}
        → body (listed files) ≡ ok (a, none)
        → let (result, files') = transact p classes body files in
          (result ≡ ok a) × (listed files' ≡ listed files)
    transact_kept {a} h =
        let same = transact-keep {a = a} (ap body (sym (list_instances-current files)) ∙ h) in
        (ap (λ r. r.0) same, ap (λ r. listed r.1) same ∙ listed-after_read)

    -- The rows that a body writes are the rows that are listed next.
    pub transact_written :
        {a : A} {rows : Dict (InstanceMeta T)}
        → IsStored p classes rows
        → body (listed files) ≡ ok (a, some rows)
        → let (result, files') = transact p classes body files in
          (result ≡ ok a) × (listed files' ≡ rows)
    transact_written {a} {rows} stored h =
        let same =
          transact-write {a = a} {rows = rows} (ap body (sym (list_instances-current files)) ∙ h) in
        (
          ap (λ r. r.0) same,
          ap (λ r. listed r.1) same ∙ list_instances-current _ ∙ current-write rows _ stored,
        )

  pub listed-IsStored :
      (known : HasInTree classes) (files : Files Text) → IsStored p classes (listed files)
  listed-IsStored known files = rw (list_instances-current files) (current-IsStored known files)
