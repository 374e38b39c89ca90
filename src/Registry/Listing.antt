-- ===== src/Registry/Listing.antt =====
-- `list_instances` of src/beetroot/registry.py, called again on the files that it leaves.
use beetroot.Prelude.{
  ◌≡◌, refl, sym, ap, ◌∙◌, none, some, inl, inr, Option-cases, arith, String, ok,
}
use beetroot.Dict.{Dict, erase}
use beetroot.Registry.{Platform}
use beetroot.Registry.Backend.{ConfigClass}
use beetroot.Registry.Storage.{Files, list_instances, read}
use beetroot.Registry.Transactions.{
  listed, current-read, current-present, list_instances-current, initialise-present,
  transact_written, listed-IsStored,
}
use beetroot.Registry.Operations.{remove, remove_row}
use beetroot.Registry.Reread.{HasInTree}
use beetroot.Registry.RoundTrip.{erase-IsStored}

module _ {T Text : Type 0} (p : Platform T Text) (classes : Dict ConfigClass) where
  listed_files :
      (files : Files Text) {text : Text}
      → files.registry ≡ some text
      → (list_instances p classes files).1 ≡ (read p classes files).1
  unfolding list_instances
  listed_files files {text} e = ground (arith, initialise-present p classes files e)

  missing_files :
      (files : Files Text) → files.registry ≡ none → (list_instances p classes files).1 ≡ files
  unfolding list_instances
  missing_files files e = ground arith

  -- Listing leaves what it lists.
  pub listed_again :
      (files : Files Text)
      → listed p classes (list_instances p classes files).1 ≡ listed p classes files
  listed_again files = elim (Option-cases files.registry) [
    | inl e ↦ ap (listed p classes) (missing_files files e)
    | inr (text, e) ↦
        ap (listed p classes) (listed_files files e)
        ∙ list_instances-current p classes (read p classes files).1
        ∙ current-read p classes files
        ∙ sym (current-present p classes files e)
        ∙ sym (list_instances-current p classes files)
  ]

  -- The in-tree config classes are registered: the rows listed after a removal.
  pub listed-remove :
      (known : HasInTree classes) (name : String) (files : Files Text)
      → ((remove p classes name files).0 ≡ ok tt)
        × (listed p classes (remove p classes name files).1 ≡ erase name (listed p classes files))
  unfolding remove remove_row
  listed-remove known name files =
      let rows = listed p classes files in
      transact_written p classes (remove_row name) files {rows = erase name rows}
        (erase-IsStored p classes name rows (listed-IsStored p classes known files)) refl
