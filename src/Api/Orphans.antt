-- ===== src/Api/Orphans.antt =====
-- The instances that `Manager.list_instances` and `Manager.list_orphans` of src/beetroot/api.py name.
use beetroot.Prelude.{
  Error, String, ◌≡◌, refl, sym, ap, ◌∙◌, subst, false, ◌||◌, Option, none, some, List, [], ◌∷◌,
  Result, ok, err, arith, ◌==◌, string_eq, eq_iff, inl, inr, Bool-cases, contains, Distinct,
  if◌then◌else◌,
}
use beetroot.Prelude.Text.{text_before}
use beetroot.Prelude.Triples.{Ends}
use beetroot.Dict.{Dict, keys, member, lookup}
use beetroot.Registry.Backend.{ConfigClass, redroid}
use beetroot.Registry.Rows.{InstanceMeta}
use beetroot.Registry.Operations.{get}
use beetroot.Registry.Listing.{listed_again}
use beetroot.Config.Schema.{InstanceConfig}
use beetroot.Disk.{FilePath, Disk, is_file}
use beetroot.Disk.Layout.{instance_yaml}
use beetroot.Api.{Machine, World, Instance, load_yaml}
use beetroot.Api.Staging.{get_row}
use beetroot.Api.Create.{load, load_row, loaded_instance}
use beetroot.Api.Enroll.{Lists}
use beetroot.Api.Manager.{
  sorted_items, insert_item, sorted_texts, insert_text, redroid_path, prepend, swallowed,
}

contains-insert_text :
    (n s : String) (ts : List String) → contains n (insert_text s ts) ≡ (n == s || contains n ts)
unfolding insert_text
contains-insert_text n s [] = refl
contains-insert_text n s (t ∷ ts) = ground (arith, contains-insert_text n s ts)

pub contains-sorted_texts :
    (n : String) (ts : List String) → contains n (sorted_texts ts) ≡ contains n ts
unfolding sorted_texts
contains-sorted_texts n [] = refl
contains-sorted_texts n (t ∷ ts) =
    contains-insert_text n t (sorted_texts ts) ∙ ap (λ b. n == t || b) (contains-sorted_texts n ts)

module _ {V : Type 0} where
  member-insert_item :
      (n k : String) (v : V) (d : Dict V) → member n (insert_item k v d) ≡ (n == k || member n d)
  unfolding insert_item
  member-insert_item n k v [] = refl
  member-insert_item n k v ((j, x) ∷ d) = ground (arith, member-insert_item n k v d)

  pub member-sorted_items : (n : String) (d : Dict V) → member n (sorted_items d) ≡ member n d
  unfolding sorted_items
  member-sorted_items n [] = refl
  member-sorted_items n ((k, v) ∷ d) =
      member-insert_item n k v (sorted_items d) ∙ ap (λ b. n == k || b) (member-sorted_items n d)

  -- Every entry of `s` is what `d` has under its key.
  abbrev pub Found : Dict V → Dict V → Type 0
  Found d [] = Unit
  Found d ((k, v) ∷ s) = (lookup k d ≡ some v) × Found d s

  Found-insert_item :
      (d : Dict V) (k : String) (v : V) (s : Dict V)
      → lookup k d ≡ some v
      → Found d s
      → Found d (insert_item k v s)
  unfolding insert_item
  Found-insert_item d k v [] h f = (h, tt)
  Found-insert_item d k v ((j, x) ∷ s) h f = elim (Bool-cases (text_before k j)) [
    | inl e ↦ rw e (h, f)
    | inr e ↦ rw e (f.0, Found-insert_item d k v s h f.1)
  ]

  pub Found-sorted_items : (d s : Dict V) → Found d s → Found d (sorted_items s)
  unfolding sorted_items
  Found-sorted_items d [] f = tt
  Found-sorted_items d ((k, v) ∷ s) f =
      Found-insert_item d k v (sorted_items s) f.0 (Found-sorted_items d s f.1)

  Found-cons :
      (j : String) (x : V) (d s : Dict V) → member j s ≡ false → Found d s → Found ((j, x) ∷ d) s
  unfolding lookup
  Found-cons j x d [] h f = tt
  Found-cons j x d ((k, v) ∷ s) h f =
      (ground (arith, eq_iff j k, eq_iff k j), Found-cons j x d s (ground arith) f.1)

  pub Found-self : (d : Dict V) → Distinct (keys d) → Found d d
  unfolding lookup
  Found-self [] h = tt
  Found-self ((k, v) ∷ d) h =
      (ground (arith, eq_iff k k), Found-cons k v d d h.0 (Found-self d h.1))

module _ {T Text : Type 0} (m : Machine T Text) (classes : Dict ConfigClass) where
  abbrev pub loaded_option : String → FilePath → Result InstanceConfig → Option Instance
  loaded_option name root (err e) = none
  loaded_option name root (ok cfg) = some (record { name = name; root = root; cfg = cfg })

  -- what the listing makes of a row
  abbrev pub entry : Disk → String → Option String → Option Instance
  entry disk name none = none
  entry disk name (some path) =
      let root = m.resolve path in
      if is_file (instance_yaml root) disk
      then loaded_option name root (load_yaml m (instance_yaml root) disk)
      else none

  unfoldable pub loadable : Disk → Dict (InstanceMeta T) → List Instance
  loadable disk [] = []
  loadable disk ((k, x) ∷ s) = prepend (entry disk k (redroid_path x.backend)) (loadable disk s)

  module _ (rows : Dict (InstanceMeta T)) where
    abbrev pub At : Disk → World Text → Type 0
    At disk w = Lists m classes rows w × (w.disk ≡ disk)

    abbrev pub Never : Error → World Text → Type 0
    Never e w = ⊥

    swallowed-Ends :
        (name : String) (root : FilePath) (r : Result InstanceConfig) (disk : Disk) (w : World Text)
        → At disk w
        → Ends
            (λ o v. (o ≡ loaded_option name root r) × At disk v)
            Never
            (swallowed (loaded_instance m classes name root r w))
    swallowed-Ends name root (ok cfg) disk w h = (refl, h)
    swallowed-Ends name root (err e) disk w h = (refl, h)

    pub load-Ends :
        (name path : String) (layout : Dict String) (x : InstanceMeta T) (w : World Text)
        → lookup name rows ≡ some x
        → x.backend ≡ redroid path layout
        → Lists m classes rows w
        → let root = m.resolve path in
          Ends
            (λ o v.
              (o ≡ loaded_option name root (load_yaml m (instance_yaml root) w.disk)) × At w.disk v)
            Never
            (swallowed (load m classes name w))
    unfolding load get_row get
    load-Ends name path layout x w found shape h =
        let root = m.resolve path in
        let w' = (get_row m classes name w).1 in
        let Q : Option Instance → World Text → Type 0 = λ o v.
          (o ≡ loaded_option name root (load_yaml m (instance_yaml root) w.disk)) × At w.disk v in
        subst (λ f. Ends Q Never (swallowed (load_row m classes name f w')))
          (sym (ap (lookup name) h ∙ found))
          (rw (shape, load_row)
            (swallowed-Ends name root (load_yaml m (instance_yaml root) w.disk) w.disk w'
              (listed_again m.platform classes w.files ∙ h, refl)))
