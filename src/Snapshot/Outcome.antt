-- ===== src/Snapshot/Outcome.antt =====
-- `restore` of src/beetroot/snapshot.py in every outcome.
use beetroot.Prelude.{
  ℕ, String, ◌≡◌, refl, sym, ap, ◌∙◌, ◌⊎◌, inl, inr, subst, Bool, true, false, Option, none, some,
  string_eq, Result, ok, err, Distinct, not, already_registered, occupied_target, file_target,
  vm_snapshot, >>=-eq-ok, ok_injective, any, directory_overlap,
}
use beetroot.Prelude.Maybe.{is_some}
use beetroot.Prelude.Actions.{given, refuse_if}
use beetroot.Prelude.Triples.{
  Runs, Keeps, Ends, Ends-with, Runs->>=, Runs->>, Runs-mono, Runs-fact, Runs-return, Runs-given,
  Runs-rescue, Keeps-given, Keeps-refuse_if, Ends-mono,
}
use beetroot.Dict.{Dict, keys, member, lookup, values}
use beetroot.Registry.Backend.{ConfigClass}
use beetroot.Registry.Rows.{InstanceMeta}
use beetroot.Registry.Operations.{get}
use beetroot.Registry.Reread.{HasInTree}
use beetroot.Registry.Listing.{listed_again}
use beetroot.Config.Schema.{InstanceConfig}
use beetroot.Disk.{FilePath, Disk, exists, is_file, rmtree}
use beetroot.Disk.Outside.{Outside, Outside-refl}
use beetroot.Disk.Paths.{under_refl}
use beetroot.Disk.Layout.{instance_yaml}
use beetroot.Api.{Machine, World, on_disk, look, load_yaml}
use beetroot.Api.Names.{validate_instance_name}
use beetroot.Api.Staging.{get_row, all_rows, check_directory_overlap, overlapping}
use beetroot.Api.Create.{load, load_row, loaded_instance}
use beetroot.Api.Stable.{IsStable, Keeps-look}
use beetroot.Api.Steps.{make_root-Keeps, rmtree-Keeps, stage_local-Keeps, stage_network_soft-Runs}
use beetroot.Api.Enroll.{Lists, Elsewhere}
use beetroot.Api.Admission.{Clear, check_directory_overlap-Runs, lookup-none-member}
use beetroot.Snapshot.{Manifest, Archive, Archiver, read_manifest, manifest_bytes, validated}
use beetroot.Snapshot.Restore.{
  restore, commit, unpack, prepare_destination, make_room, is_vm, is_empty,
}
use beetroot.Snapshot.Unpacking.{
  extract_archive_into-Keeps, check_restored_port_collision-Keeps, restored_row, lookup-snoc,
}
use beetroot.Snapshot.Restored.{
  Has, Inside, Unlisted, Inside-IsStable, Unlisted-IsStable, blank, add-Runs, set_layout-Keeps,
  rollback-Runs,
}

validated-Distinct :
    (archiver : Archiver) (text : String) (found : Option Manifest) (manifest : Manifest)
    → archiver.parse_manifest text ≡ found
    → validated found ≡ ok manifest
    → Distinct (keys manifest.path_layout)
validated-Distinct archiver text none manifest e h = cc
validated-Distinct archiver text (some x) manifest e h =
    subst (λ y. Distinct (keys y.path_layout)) (ok_injective x manifest h)
      (archiver.parse_manifest-Distinct text x e)

read_manifest-Distinct :
    (archiver : Archiver) (archive : Archive) (manifest : Manifest)
    → read_manifest archiver archive ≡ ok manifest
    → Distinct (keys manifest.path_layout)
unfolding read_manifest
read_manifest-Distinct archiver archive manifest h =
    let (text, bytes, rest) =
      >>=-eq-ok (manifest_bytes archive.members archive.damaged)
        (λ text. validated (archiver.parse_manifest text)) h in
    validated-Distinct archiver text (archiver.parse_manifest text) manifest refl rest

module _ {T Text : Type 0} (m : Machine T Text) (classes : Dict ConfigClass) (archiver : Archiver)
    (known : HasInTree classes) (rows : Dict (InstanceMeta T)) (name : String) (place : String)
    (now : T) (start : World Text) where
  abbrev In : World Text → Type 0
  In = Inside m classes archiver known rows name place now start

  abbrev Out : World Text → Type 0
  Out = Unlisted m classes archiver known rows name place now start

  abbrev root : FilePath
  root = m.resolve place

  loaded-Ends :
      (path : FilePath) (r : Result InstanceConfig) (w : World Text)
      → path ≡ root
      → In w
      → Ends
          (λ inst w'. (inst.root ≡ root) × In w')
          (λ e. In)
          (loaded_instance m classes name path r w)
  loaded-Ends path (ok cfg) w at h = (at, h)
  loaded-Ends path (err e) w at h = h

  load-Runs :
      member name rows ≡ false
      → Runs In (load m classes name) (λ inst w. (inst.root ≡ root) × In w) (λ e. In)
  unfolding load get_row get
  load-Runs new = record {
    run = λ w h.
        let w' = (get_row m classes name w).1 in
        subst
          (λ found.
            Ends (λ inst v. (inst.root ≡ root) × In v) (λ e. In) (load_row m classes name found w'))
          (sym (
            ap (lookup name) h.0.1
            ∙ lookup-snoc name (restored_row m classes rows name root now h.0.0) rows new))
          (loaded-Ends (m.resolve (m.show_path root)) _ w' (m.resolve-show_path place)
            ((h.0.0, listed_again m.platform classes w.files ∙ h.0.1), h.1));
  }

  unpack-Runs :
      (archive : Archive) (manifest : Manifest) (index : ℕ)
      → member name rows ≡ false
      → Distinct (keys manifest.path_layout)
      → Runs In
          (unpack m classes archiver archive manifest name root index)
          (λ inst w. (inst.root ≡ root) × In w)
          (λ e. In)
  unfolding unpack
  unpack-Runs archive manifest index new distinct =
      let stable = Inside-IsStable m classes archiver known rows name place now start in
      Runs->> {Q = In} _ _ (extract_archive_into-Keeps m classes archiver root stable archive) (
        Runs->>= _ _ (Keeps-look In (load_yaml m (instance_yaml root))) (λ loaded.
          Runs->>= _ _ (Keeps-given In loaded) (λ cfg.
            Runs->> {Q = In} _ _ (Keeps-refuse_if In (is_vm cfg.binder) vm_snapshot) (
              Runs->> {Q = In} _ _
                (set_layout-Keeps m classes archiver known rows name place now start
                  (is_empty manifest.path_layout) manifest.path_layout new distinct)
                (Runs->> {Q = In} _ _
                  (check_restored_port_collision-Keeps m classes archiver root stable name index)
                  (Runs->>= _ _ (load-Runs new) (λ restored. Runs-fact _ (λ at.
                    Runs->> {Q = In} _ _
                      (stage_local-Keeps m classes restored
                        (subst (λ r. IsStable m.platform classes r In) (sym at) stable))
                      (Runs-return restored (λ w h. (at, h)))))))))))

  -- The disk is as it was, or the target overlaps no listed directory and only the target changed.
  abbrev pub Safe : World Text → Type 0
  Safe w = (w.disk ≡ start.disk) ⊎ (Clear m classes root rows × Elsewhere m classes root start w)

  abbrev Stop : World Text → Type 0
  Stop w = Lists m classes rows w × Safe w

  -- before anything is changed
  abbrev Still : World Text → Type 0
  Still w = Lists m classes rows w × (w.disk ≡ start.disk)

  Still-Stop : (w : World Text) → Still w → Stop w
  Still-Stop w h = (h.0, inl h.1)

  Still-Out : (w : World Text) → Still w → Out w
  Still-Out w h =
      (h.0, subst (λ d. Outside root start.disk d) (sym h.1) (Outside-refl root start.disk))

  Keeps-look-Still {ℓ} :
      {A : Type ℓ} (test : Disk → A) → Runs Still (look test) (λ _. Still) (λ e. Stop)
  Keeps-look-Still test = record { run = λ w h. h }

  given-Still : {A : Type 0} (r : Result A) → Runs Still (given r) (λ _. Still) (λ e. Stop)
  given-Still r =
      Runs-mono (given r) (λ w h. h) (λ a w h. h) (λ e w h. Still-Stop w h) (Keeps-given Still r)

  get_row-Still :
      Runs Still
        (get_row m classes name)
        (λ found w. (found ≡ lookup name rows) × Still w)
        (λ e. Stop)
  unfolding get_row get
  get_row-Still = record {
    run = λ w h. (ap (lookup name) h.0, (listed_again m.platform classes w.files ∙ h.0, h.1));
  }

  fresh-Still :
      (found : Option (InstanceMeta T))
      → found ≡ lookup name rows
      → Runs Still
          (refuse_if (is_some found) already_registered)
          (λ _ w. (member name rows ≡ false) × Still w)
          (λ e. Stop)
  fresh-Still none e = record {
    run = λ w h. (lookup-none-member name rows (ap is_some (sym e)), h);
  }
  fresh-Still (some meta) e = record { run = λ w h. Still-Stop w h }

  abbrev SameDisk : World Text → Type 0
  SameDisk w = w.disk ≡ start.disk

  overlap-SameDisk : Keeps SameDisk (check_directory_overlap m classes root)
  unfolding check_directory_overlap all_rows
  overlap-SameDisk =
      Runs->>= (all_rows m classes) _ (record { run = λ v k. k })
        (λ out.
          Keeps-refuse_if SameDisk (any (overlapping m classes root) (values out))
            directory_overlap)

  overlap-Still :
      Runs Still
        (check_directory_overlap m classes root)
        (λ _ w. Clear m classes root rows × Still w)
        (λ e. Stop)
  overlap-Still = record {
    run = λ w h.
        let tested = (check_directory_overlap-Runs m classes rows root).run w h.0 in
        Ends-mono
          (λ _ v. (Clear m classes root rows × Lists m classes rows v) × (v.disk ≡ start.disk))
          (λ _ v. Clear m classes root rows × Still v)
          (λ e v. Lists m classes rows v × (v.disk ≡ start.disk)) (λ e. Stop)
          (check_directory_overlap m classes root w) (λ a v k. (k.0.0, (k.0.1, k.1)))
          (λ e v k. Still-Stop v k)
          (Ends-with (λ _ v. Clear m classes root rows × Lists m classes rows v)
            (λ e. Lists m classes rows) (λ v. v.disk ≡ start.disk)
            (check_directory_overlap m classes root w) tested (overlap-SameDisk.run w h.1));
  }

  make_room-Runs :
      (force occupied : Bool)
      → Clear m classes root rows
      → Runs Still
          (make_room m classes archiver root force occupied)
          (λ _ w. Clear m classes root rows × Out w)
          (λ e. Stop)
  make_room-Runs force false clear = record { run = λ w h. (clear, Still-Out w h) }
  make_room-Runs force true clear = record {
    run =
        (Runs->> {Q = Still} (refuse_if (not force) occupied_target)
          (on_disk (rmtree m.denied root))
          (Runs-mono (refuse_if (not force) occupied_target) (λ w h. h) (λ a w h. h)
            (λ e w h. Still-Stop w h) (Keeps-refuse_if Still (not force) occupied_target))
          (Runs-mono (on_disk (rmtree m.denied root)) Still-Out (λ a w h. (clear, h))
            (λ e w h. (h.0, inr (clear, h.1)))
            (rmtree-Keeps m classes (blank m classes archiver known rows name place now start)
              (Unlisted-IsStable m classes archiver known rows name place now start) root
              (under_refl root)))).run;
  }

  prepare-Runs :
      (force : Bool)
      → Runs Still
          (prepare_destination m classes archiver root force)
          (λ _ w. Clear m classes root rows × Out w)
          (λ e. Stop)
  unfolding prepare_destination
  prepare-Runs force = Runs->>= _ _ (Keeps-look-Still (is_file root)) (λ file_there.
      Runs->> {Q = Still} _ _
        (Runs-mono (refuse_if file_there file_target) (λ w h. h) (λ a w h. h)
          (λ e w h. Still-Stop w h) (Keeps-refuse_if Still file_there file_target))
        (Runs->>= _ _ (Keeps-look-Still (archiver.has_entries root)) (λ occupied.
          Runs->> _ _ overlap-Still (Runs-fact _ (λ clear. make_room-Runs force occupied clear)))))

  -- Returned: the target, with its row listed last.
  abbrev pub Back : FilePath → World Text → Type 0
  Back out w =
      (out ≡ root)
      × (member name rows ≡ false)
      × Clear m classes root rows
      × Has m classes archiver known rows name place now start w
      × Elsewhere m classes root start w

  commit-Runs :
      (archive : Archive) (manifest : Manifest)
      → member name rows ≡ false
      → Distinct (keys manifest.path_layout)
      → Clear m classes root rows
      → Runs Out (commit m classes archiver archive manifest name root now) Back (λ e. Stop)
  unfolding commit
  commit-Runs archive manifest new distinct clear =
      let blank_instance = blank m classes archiver known rows name place now start in
      let out_stable = Unlisted-IsStable m classes archiver known rows name place now start in
      let in_stable = Inside-IsStable m classes archiver known rows name place now start in
      Runs-mono {P = Out} {Q = λ out w. (out ≡ root) × In w} {E = λ e. Out}
        (commit m classes archiver archive manifest name root now) (λ w h. h)
        (λ out w h. (h.0, new, clear, h.1.0, h.1.1)) (λ e w h. (h.0, inr (clear, h.1)))
        (Runs->>= _ _ (Keeps-look Out (exists root)) (λ there.
          Runs->> {Q = Out} _ _ (make_root-Keeps m classes blank_instance out_stable) (
            Runs->>= _ _ (add-Runs m classes archiver known rows name place now start) (λ index.
              Runs->>= _ _
                (Runs-rescue _ _ (unpack-Runs archive manifest index new distinct) (λ e.
                  rollback-Runs m classes archiver known rows name place now start (not there) new))
                (λ restored. Runs-fact _ (λ at.
                  Runs->> {Q = In} _ _
                    (stage_network_soft-Runs m classes restored
                      (subst (λ r. IsStable m.platform classes r In) (sym at) in_stable) (λ e. Out))
                    (Runs-return root (λ w h. (refl, h)))))))))

  pub restore-Runs :
      (archive : Archive) (force : Bool)
      → Runs Still (restore m classes archiver archive name place force now) Back (λ e. Stop)
  unfolding restore
  restore-Runs archive force = Runs->> {Q = Still} _ _ (given-Still (validate_instance_name name)) (
      Runs->>= _ _ get_row-Still (λ existing. Runs-fact _ (λ e.
        Runs->> _ _ (fresh-Still existing e) (
          Runs-fact _ (λ new.
            Runs->>= _ _
              (Runs-mono (given (read_manifest archiver archive)) (λ w h. h) (λ a w h. h)
                (λ e w h. Still-Stop w h) (Runs-given Still (read_manifest archiver archive)))
              (λ manifest. Runs-fact _ (λ read. Runs->> _ _ (prepare-Runs force) (
                Runs-fact _ (λ clear.
                  commit-Runs archive manifest new
                    (read_manifest-Distinct archiver archive manifest read) clear)))))))))
