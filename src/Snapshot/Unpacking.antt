-- ===== src/Snapshot/Unpacking.antt =====
-- The steps of `restore` of src/beetroot/snapshot.py on the target directory and on the new row.
use beetroot.Prelude.{
  ℕ, String, ◌≡◌, refl, ap, ◌∙◌, Bool, false, some, List, [], ◌∷◌, ◌++◌, string_eq, arith, pos,
  Distinct, beq_refl, not, no_config, inl, inr, Result-cases,
}
use beetroot.Prelude.Triples.{Keeps, always-Ends, Runs->>=, Keeps-given, Keeps-refuse_if}
use beetroot.Dict.{Dict, keys, member, lookup, insert}
use beetroot.Ports.{ResolvedPort, resolve_ports, lowest_free_index}
use beetroot.Registry.Backend.{ConfigClass, redroid}
use beetroot.Registry.Rows.{InstanceMeta}
use beetroot.Registry.Storage.{Files}
use beetroot.Registry.Operations.{indices, stealth_row, set_stealth_paths}
use beetroot.Registry.Collisions.{all_resolved_host_ports, find_port_collision, without}
use beetroot.Registry.Reread.{HasInTree}
use beetroot.Registry.RoundTrip.{insert-IsStored}
use beetroot.Registry.Transactions.{listed, listed-IsStored, transact_written}
use beetroot.Registry.Listing.{listed_again}
use beetroot.Registry.Updates.{redroid-IsReadable}
use beetroot.Disk.{FilePath, Disk, is_file}
use beetroot.Disk.Outside.{Outside, Outside-same}
use beetroot.Disk.Layout.{instance_yaml}
use beetroot.Api.{Machine, World, load_yaml, load_ports_at}
use beetroot.Api.Staging.{resolved_ports}
use beetroot.Api.Stable.{IsStable, Keeps-on_disk, Keeps-on_files, Keeps-look}
use beetroot.Snapshot.{Member, Archive, Archiver, extract_members, max_extract_bytes, capped_reads}
use beetroot.Snapshot.Restore.{
  extract_archive_into, check_restored_port_collision, check_others, collided,
}

pub lookup-snoc {ℓ} :
    {V : Type ℓ} (name : String) (v : V) (d : Dict V)
    → member name d ≡ false
    → lookup name (d ++ (name, v) ∷ []) ≡ some v
unfolding lookup
lookup-snoc name v [] h = ground (arith, beq_refl name)
lookup-snoc name v ((k, x) ∷ d) h = ground (arith, lookup-snoc name v d)

insert-snoc {ℓ} :
    {V : Type ℓ} (name : String) (v v' : V) (d : Dict V)
    → member name d ≡ false
    → insert name v' (d ++ (name, v) ∷ []) ≡ d ++ (name, v') ∷ []
unfolding insert
insert-snoc name v v' [] h = ground (arith, beq_refl name)
insert-snoc name v v' ((k, x) ∷ d) h = ground (arith, insert-snoc name v v' d)

module _ (archiver : Archiver) (cap_bytes : ℕ) (target : FilePath) (start : Disk) where
  extract-Kept : (member : Member) → Keeps (Outside target start) (archiver.extract target member)
  extract-Kept member = record {
    run = λ d h.
        always-Ends (Outside target start) (archiver.extract target member d)
          (Outside-same target start d _ (archiver.extract-outside target member d) h);
  }

  pub extract_members-Kept :
      (members : List Member) (damaged : Bool) (total : ℕ)
      → Keeps
          (Outside target start)
          (extract_members archiver cap_bytes target total members damaged)
  unfolding extract_members
  extract_members-Kept [] damaged total = record {
    run = λ d h. always-Ends (Outside target start) _ h;
  }
  extract_members-Kept (member ∷ members) damaged total = record {
    run = λ d h. elim (Result-cases (capped_reads cap_bytes total member.reads)) [
      | inl (e, over) ↦ rw (over, extract_members) h
      | inr (total', within) ↦
          rw (within, extract_members)
            ((Runs->>= _ _ (extract-Kept member)
                (λ done. extract_members-Kept members damaged total')).run
              d h)
    ];
  }

module _ {T Text : Type 0} (m : Machine T Text) (classes : Dict ConfigClass) (archiver : Archiver)
    (target : FilePath) {I : World Text → Type 0}
    (stable : IsStable m.platform classes target I) where
  pub extract_archive_into-Keeps :
      (archive : Archive) → Keeps I (extract_archive_into m classes archiver archive target)
  unfolding extract_archive_into
  extract_archive_into-Keeps archive =
      Runs->>= _ _
        (Keeps-on_disk stable
          (extract_members archiver max_extract_bytes target 0 archive.members archive.damaged)
          (λ d.
            extract_members-Kept archiver max_extract_bytes target d archive.members archive.damaged
              0))
        (λ total.
          Runs->>= _ _ (Keeps-look I (is_file (instance_yaml target)))
            (λ there. Keeps-refuse_if I (not there) no_config))

  check_others-Keeps :
      (dest_name : String) (new_ports : List ResolvedPort)
      → Keeps I (check_others m classes archiver dest_name new_ports)
  unfolding all_resolved_host_ports
  check_others-Keeps dest_name new_ports = record {
    run = λ w h.
        (Runs->>= _ _
            (Keeps-on_files stable
              (all_resolved_host_ports m.platform classes (load_ports_at m w.disk))
              (λ f. listed_again m.platform classes f))
            (λ all_ports. Keeps-given I (
              collided m classes archiver
                (find_port_collision new_ports (without dest_name all_ports))))).run
          w h;
  }

  pub check_restored_port_collision-Keeps :
      (dest_name : String) (index : ℕ)
      → Keeps I (check_restored_port_collision m classes archiver dest_name index target)
  unfolding check_restored_port_collision
  check_restored_port_collision-Keeps dest_name index =
      Runs->>= _ _ (Keeps-look I (load_yaml m (instance_yaml target))) (λ loaded.
        Runs->>= _ _ (Keeps-given I loaded) (λ cfg.
          Runs->>= _ _
            (Keeps-given I (resolved_ports m classes (resolve_ports (pos index) cfg.ports false)))
            (λ new_ports. check_others-Keeps dest_name new_ports)))

-- The row of the restored instance: its stealth paths are those of the manifest once it is unpacked.
module _ {T Text : Type 0} (m : Machine T Text) (classes : Dict ConfigClass)
    (rows : Dict (InstanceMeta T)) (name : String) (target : FilePath) (now : T) where
  abbrev pub restored_row : Dict String → InstanceMeta T
  restored_row layout = record {
    backend = redroid (m.show_path target) layout;
    index = pos (lowest_free_index (indices rows));
    created_at = now;
  }

  abbrev pub with_row : Dict String → Dict (InstanceMeta T)
  with_row layout = rows ++ (name, restored_row layout) ∷ []

  -- set_stealth_paths on it
  pub set_stealth_paths-listed :
      (known : HasInTree classes) (old layout : Dict String) (files : Files Text)
      → member name rows ≡ false
      → Distinct (keys layout)
      → listed m.platform classes files ≡ with_row old
      → listed m.platform classes (set_stealth_paths m.platform classes name layout files).1
        ≡ with_row layout
  unfolding set_stealth_paths
  set_stealth_paths-listed known old layout files new distinct h =
      let listed_now = listed m.platform classes files in
      let row = restored_row layout in
      let found : lookup name listed_now ≡ some (restored_row old) =
        ap (lookup name) h ∙ lookup-snoc name (restored_row old) rows new in
      (transact_written m.platform classes (stealth_row name layout) files
        {rows = insert name row listed_now}
        (insert-IsStored m.platform classes name row listed_now
          (redroid-IsReadable m.platform classes known (m.show_path target) layout row distinct
            refl)
          (listed-IsStored m.platform classes known files))
        (rw (found, stealth_row))).1
      ∙ ap (insert name row) h
      ∙ insert-snoc name (restored_row old) row rows new
