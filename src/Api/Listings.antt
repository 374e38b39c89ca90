-- ===== src/Api/Listings.antt =====
-- `Manager.list_instances` and `Manager.list_orphans` of src/beetroot/api.py: what they name.
use beetroot.Prelude.{
  String, ◌≡◌, refl, ap, ◌∙◌, subst, ◌&&◌, not, some, [], arith, string_eq, contains,
}
use beetroot.Prelude.Maybe.{is_some}
use beetroot.Prelude.Triples.{Ends, Ends-mono}
use beetroot.Dict.{Dict, lookup, lookup-member}
use beetroot.Registry.Backend.{ConfigClass}
use beetroot.Registry.Rows.{InstanceMeta}
use beetroot.Registry.Reread.{HasInTree}
use beetroot.Registry.Transactions.{listed, listed-IsStored}
use beetroot.Registry.Listing.{listed_again}
use beetroot.Disk.{Disk, is_file}
use beetroot.Disk.Layout.{instance_yaml}
use beetroot.Api.{Machine, World, load_yaml}
use beetroot.Api.Staging.{all_rows}
use beetroot.Api.Manager.{
  sorted_items, redroid_path, is_error, load_all, list_loadable, is_orphan, orphan_names,
  list_orphans,
}
use beetroot.Api.Orphans.{
  Found-self, Found-sorted_items, member-sorted_items, contains-sorted_texts, entry, loadable, At,
  Never,
}
use beetroot.Api.Partition.{
  names, load_all-Runs, contains-loadable, contains-orphan_names, entry-orphan,
}

module _ {T Text : Type 0} (m : Machine T Text) (classes : Dict ConfigClass) where
  list_loadable-Ends :
      (known : HasInTree classes) (n path : String) (x : InstanceMeta T) (w : World Text)
      → lookup n (listed m.platform classes w.files) ≡ some x
      → redroid_path x.backend ≡ some path
      → Ends
          (λ insts v. contains n (names insts) ≡ is_some (entry m classes w.disk n (some path)))
          (λ e v. ⊥)
          (list_loadable m classes w)
  unfolding list_loadable all_rows
  list_loadable-Ends known n path x w h at =
      let rows = listed m.platform classes w.files in
      let f =
        Found-sorted_items rows rows
          (Found-self rows (listed-IsStored m.platform classes known w.files).names) in
      let inside = member-sorted_items n rows ∙ lookup-member n rows h in
      Ends-mono _ _ (Never m classes rows) (λ e v. ⊥)
        (load_all m classes (sorted_items rows) (all_rows m classes w).1)
        (λ insts v
            (r : (insts ≡ loadable m classes w.disk (sorted_items rows))
              × At m classes rows w.disk v).
          ap (λ i. contains n (names i)) r.0
          ∙ contains-loadable m classes rows n x w.disk (sorted_items rows) h f
          ∙ ap (λ b. b && is_some (entry m classes w.disk n (redroid_path x.backend))) inside
          ∙ ap (λ o. is_some (entry m classes w.disk n o)) at)
        (λ e v r. r)
        ((load_all-Runs m classes rows w.disk (sorted_items rows) f).run (all_rows m classes w).1
          (listed_again m.platform classes w.files, refl))

  list_orphans-Ends :
      (known : HasInTree classes) (n path : String) (x : InstanceMeta T) (w : World Text)
      → lookup n (listed m.platform classes w.files) ≡ some x
      → redroid_path x.backend ≡ some path
      → Ends
          (λ orphans v. contains n orphans ≡ not (is_some (entry m classes w.disk n (some path))))
          (λ e v. ⊥)
          (list_orphans m classes w)
  unfolding list_orphans all_rows
  list_orphans-Ends known n path x w h at =
      let rows = listed m.platform classes w.files in
      let f = Found-self rows (listed-IsStored m.platform classes known w.files).names in
      contains-sorted_texts n (orphan_names m classes w.disk rows)
      ∙ contains-orphan_names m classes rows n x w.disk rows h f
      ∙ ap (λ b. b && is_orphan m classes w.disk (redroid_path x.backend)) (lookup-member n rows h)
      ∙ ap (is_orphan m classes w.disk) at
      ∙ ground (arith, entry-orphan m classes rows n path w.disk)

  entry_lem :
      (n path : String) (disk : Disk)
      → let yaml = instance_yaml (m.resolve path) in
        is_some (entry m classes disk n (some path))
        ≡ (is_file yaml disk && not (is_error (load_yaml m yaml disk)))
  unfolding is_orphan
  entry_lem n path disk = entry-orphan m classes [] n path disk ∙ ground arith

  -- With the in-tree config classes registered, on a listed redroid instance, neither listing raises:
  -- list_instances names it exactly if its beetroot.yaml is a file that load_yaml takes, and
  -- list_orphans names it exactly if not.
  pub list_loadable-list_orphans :
      (known : HasInTree classes) (n path : String) (x : InstanceMeta T) (w : World Text)
      → lookup n (listed m.platform classes w.files) ≡ some x
      → redroid_path x.backend ≡ some path
      → let yaml = instance_yaml (m.resolve path) in
        let found = is_file yaml w.disk && not (is_error (load_yaml m yaml w.disk)) in
        Ends (λ insts v. contains n (names insts) ≡ found) (λ e v. ⊥) (list_loadable m classes w)
        × Ends (λ orphans v. contains n orphans ≡ not found) (λ e v. ⊥) (list_orphans m classes w)
  list_loadable-list_orphans known n path x w h at =
      subst
        (λ found.
          Ends (λ insts v. contains n (names insts) ≡ found) (λ e v. ⊥) (list_loadable m classes w)
          × Ends (λ orphans v. contains n orphans ≡ not found) (λ e v. ⊥)
              (list_orphans m classes w))
        (entry_lem n path w.disk)
        (list_loadable-Ends known n path x w h at, list_orphans-Ends known n path x w h at)
