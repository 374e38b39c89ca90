-- ===== src/Snapshot/Restored.antt =====
-- The conditions that the steps of `restore` of src/beetroot/snapshot.py keep, and its rollback.
use beetroot.Prelude.{
  Error, String, ◌≡◌, ap, ◌∙◌, Bool, true, false, none, some, [], string_eq, Result, Distinct, ◌&&◌,
}
use beetroot.Prelude.Triples.{Runs, Keeps, Ends-ok, Ends-with, always-Ends, Runs->>, Runs-mono}
use beetroot.Dict.{Dict, keys, member, erase}
use beetroot.Registry.Backend.{ConfigClass, redroid}
use beetroot.Registry.Rows.{InstanceMeta}
use beetroot.Registry.Storage.{Files}
use beetroot.Registry.Operations.{add_allocating, remove}
use beetroot.Registry.Reread.{HasInTree}
use beetroot.Registry.Listing.{listed-remove}
use beetroot.Config.Schema.{default_config, durable}
use beetroot.Disk.{FilePath, Disk, exists}
use beetroot.Disk.Outside.{Outside, Outside-trans}
use beetroot.Disk.Paths.{under_refl}
use beetroot.Api.{Machine, World, Instance, on_files}
use beetroot.Api.Staging.{rollback_partial_create}
use beetroot.Api.Stable.{IsStable, Keeps-when_disk}
use beetroot.Api.Steps.{rmtree-Keeps}
use beetroot.Api.Enroll.{Lists, Elsewhere, allocate-Runs, erase-snoc}
use beetroot.Snapshot.{Archiver}
use beetroot.Snapshot.Restore.{set_layout}
use beetroot.Snapshot.Unpacking.{restored_row, with_row, set_stealth_paths-listed}

module _ {T Text : Type 0} (m : Machine T Text) (classes : Dict ConfigClass) (archiver : Archiver)
    (known : HasInTree classes) (rows : Dict (InstanceMeta T)) (name : String) (place : String)
    (now : T) (start : World Text) where
  abbrev pub target : FilePath
  target = m.resolve place

  -- The new row is listed last, with some stealth paths.
  abbrev pub Has : World Text → Type 0
  Has w =
      (layout : Dict String) × Lists m classes (with_row m classes rows name target now layout) w

  abbrev pub Inside : World Text → Type 0
  Inside w = Has w × Elsewhere m classes target start w

  abbrev pub Unlisted : World Text → Type 0
  Unlisted w = Lists m classes rows w × Elsewhere m classes target start w

  pub Inside-IsStable : IsStable m.platform classes target Inside
  Inside-IsStable = record {
    inside = λ w d outside h. (h.0, Outside-trans target start.disk w.disk d h.1 outside);
    reread = λ w f same h. ((h.0.0, same ∙ h.0.1), h.1);
  }

  pub Unlisted-IsStable : IsStable m.platform classes target Unlisted
  Unlisted-IsStable = record {
    inside = λ w d outside h. (h.0, Outside-trans target start.disk w.disk d h.1 outside);
    reread = λ w f same h. (same ∙ h.0, h.1);
  }

  abbrev pub blank : Instance
  blank = record { name = name; root = target; cfg = default_config durable }

  -- a call of the registry leaves the disk as it was
  on_files-Runs :
      {A : Type 0} (D : Disk → Type 0) (act : Files Text → Result A × Files Text)
      (P : World Text → Type 0) (Q : A → World Text → Type 0) (E : Error → World Text → Type 0)
      → Runs P (on_files act) Q E
      → Runs
          (λ w. P w × D w.disk)
          (on_files act)
          (λ a w. Q a w × D w.disk)
          (λ e w. E e w × D w.disk)
  on_files-Runs D act P Q E k = record {
    run = λ w h.
        Ends-with Q E (λ w'. D w'.disk) (on_files act w) (k.run w h.0)
          (always-Ends (λ w'. D w'.disk) (on_files act w) h.1);
  }

  pub add-Runs :
      Runs Unlisted
        (on_files (
          add_allocating m.platform classes name none (some (redroid (m.show_path target) [])) now))
        (λ i. Inside)
        (λ e. Unlisted)
  add-Runs =
      Runs-mono _ (λ w h. h) (λ i w h. (([], h.0), h.1)) (λ e w h. h)
        (on_files-Runs (Outside target start.disk) _ _ _ _
          (allocate-Runs m classes known blank now rows))

  pub set_layout-Keeps :
      (b : Bool) (layout : Dict String)
      → member name rows ≡ false
      → Distinct (keys layout)
      → Keeps Inside (set_layout m classes archiver name b layout)
  set_layout-Keeps true layout new distinct = record { run = λ w h. h }
  set_layout-Keeps false layout new distinct = record {
    run = λ w h. always-Ends Inside (set_layout m classes archiver name false layout w) (
      (
        layout,
        set_stealth_paths-listed m classes rows name target now known h.0.0 layout w.files new
            distinct h.0.1,
      ),
      h.1,
    );
  }

  pub rollback-Runs :
      (created_dir : Bool)
      → member name rows ≡ false
      → Runs Inside
          (rollback_partial_create m classes name target created_dir)
          (λ _. Unlisted)
          (λ e. Unlisted)
  unfolding rollback_partial_create
  rollback-Runs created_dir new = Runs->> {Q = Unlisted} _ _ removal (
      Keeps-when_disk Unlisted (λ disk. created_dir && exists target disk) _
        (rmtree-Keeps m classes blank Unlisted-IsStable target (under_refl target)))
    where
      removal :
          Runs Inside (on_files (remove m.platform classes name)) (λ _. Unlisted) (λ e. Unlisted)
      removal = record {
        run = λ w h.
            let done = listed-remove m.platform classes known name w.files in
            Ends-ok (λ _. Unlisted) (λ e. Unlisted) (on_files (remove m.platform classes name) w)
              {a = tt} done.0
              (
                done.1
                    ∙ ap (erase name) h.0.1
                    ∙ erase-snoc name (restored_row m classes rows name target now h.0.0) rows new,
                h.1,
              );
      }
