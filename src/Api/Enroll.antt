-- ===== src/Api/Enroll.antt =====
-- The registration that `Instance.create` and `Instance.register` of src/beetroot/api.py share, with
-- its rollback: what is listed after it.
use beetroot.Prelude.{
  already_registered, index_too_large, Error, String, ◌≡◌, refl, ap, ◌∙◌, subst, Bool, true, false,
  ◌&&◌, none, some, [], ◌∷◌, ◌++◌, pos, ℕ, ltb, arith, string_eq, beq_refl, inl, inr, Bool-cases,
}
use beetroot.Prelude.Triples.{
  Runs, Ends, Runs->>=, Runs->>, Runs-rescue, Ends-ok, Ends-err, Runs-return,
}
use beetroot.Dict.{Dict, member, erase}
use beetroot.Ports.{lowest_free_index, max_port_index}
use beetroot.Registry.Backend.{ConfigClass, redroid, vm}
use beetroot.Registry.Rows.{InstanceMeta}
use beetroot.Registry.Operations.{indices, add_allocating, remove}
use beetroot.Registry.Reread.{HasInTree}
use beetroot.Registry.RoundTrip.{IsReadable}
use beetroot.Registry.Transactions.{listed}
use beetroot.Registry.Listing.{listed-remove}
use beetroot.Registry.Commits.{add_allocating_commits}
use beetroot.Registry.Updates.{redroid-IsReadable, flipped-IsReadable}
use beetroot.Registry.Operations.{flipped}
use beetroot.Config.Schema.{Binder, vm_binder, auto_binder, host_binder}
use beetroot.Disk.{FilePath, exists}
use beetroot.Disk.Outside.{Outside, Outside-trans}
use beetroot.Disk.Paths.{under_refl}
use beetroot.Api.{Machine, World, Instance, on_files}
use beetroot.Api.Staging.{rollback_partial_create}
use beetroot.Api.Create.{backend_at, enroll}
use beetroot.Api.Stable.{IsStable, Keeps-when_disk}
use beetroot.Api.Steps.{resolve_and_stage-Keeps, stage_network_soft-Runs, rmtree-Keeps}

pub erase-snoc {ℓ} :
    {V : Type ℓ} (name : String) (v : V) (d : Dict V)
    → member name d ≡ false
    → erase name (d ++ (name, v) ∷ []) ≡ d
unfolding erase
erase-snoc name v [] h = ground (arith, beq_refl name)
erase-snoc name v ((k, x) ∷ d) h = ground (arith, erase-snoc name v d)

module _ {T Text : Type 0} (m : Machine T Text) (classes : Dict ConfigClass) where
  -- The registry lists these rows.
  abbrev pub Lists : Dict (InstanceMeta T) → World Text → Type 0
  Lists rows w = listed m.platform classes w.files ≡ rows

  pub Lists-IsStable :
      (root : FilePath) (rows : Dict (InstanceMeta T))
      → IsStable m.platform classes root (Lists rows)
  Lists-IsStable root rows = record { inside = λ w d outside h. h; reread = λ w f same h. same ∙ h }

  -- Outside the directory the disk is as it was, but for directories above it.
  abbrev pub Elsewhere : FilePath → World Text → World Text → Type 0
  Elsewhere root before after = Outside root before.disk after.disk

  pub Elsewhere-IsStable :
      (root : FilePath) (w : World Text) → IsStable m.platform classes root (Elsewhere root w)
  Elsewhere-IsStable root before = record {
    inside = λ w d outside h. Outside-trans root before.disk w.disk d h outside;
    reread = λ w f same h. h;
  }

  -- the row of a new instance
  abbrev pub enrolled : Instance → T → Dict (InstanceMeta T) → InstanceMeta T
  enrolled inst now rows = record {
    backend = backend_at m classes inst.root inst.cfg.binder;
    index = pos (lowest_free_index (indices rows));
    created_at = now;
  }

  module _ (known : HasInTree classes) where
    backend_at-IsReadable :
        (root : FilePath) (binder : Binder) (meta : InstanceMeta T)
        → meta.backend ≡ backend_at m classes root binder
        → IsReadable m.platform classes meta
    backend_at-IsReadable root vm_binder meta h =
        let path = m.show_path root in
        flipped-IsReadable m.platform classes known true (redroid path []) (vm path) meta
          (unfold flipped in refl) h
    backend_at-IsReadable root auto_binder meta h =
        redroid-IsReadable m.platform classes known (m.show_path root) [] meta tt h
    backend_at-IsReadable root host_binder meta h =
        redroid-IsReadable m.platform classes known (m.show_path root) [] meta tt h

    -- `registry.remove` never raises.
    pub remove-Runs :
        (name : String) (rows rest : Dict (InstanceMeta T))
        → erase name rows ≡ rest
        → (F : Error → World Text → Type 0)
        → Runs (Lists rows) (on_files (remove m.platform classes name)) (λ _. Lists rest) F
    remove-Runs name rows rest e F = record {
      run = λ w h.
          let done = listed-remove m.platform classes known name w.files in
          Ends-ok (λ _. Lists rest) F (on_files (remove m.platform classes name) w) {a = tt} done.0
            (done.1 ∙ ap (erase name) h ∙ e);
    }

    module _ (inst : Instance) (now : T) where
      allocate-from :
          (w : World Text)
          → let rows = listed m.platform classes w.files in
            Ends
              (λ i. Lists (rows ++ (inst.name, enrolled inst now rows) ∷ []))
              (λ e. Lists rows)
              (on_files
                (add_allocating m.platform classes inst.name none
                  (some (backend_at m classes inst.root inst.cfg.binder))
                  now)
                w)
      allocate-from w =
          let rows = listed m.platform classes w.files in
          let backend = backend_at m classes inst.root inst.cfg.binder in
          let done =
            add_allocating_commits m.platform classes known inst.name backend now w.files
              (backend_at-IsReadable inst.root inst.cfg.binder (enrolled inst now rows) refl) in
          let add =
            on_files (add_allocating m.platform classes inst.name none (some backend) now) in
          let E : Error → World Text → Type 0 = λ e. Lists rows in
          let Q : ℕ → World Text → Type 0 =
            λ i. Lists (rows ++ (inst.name, enrolled inst now rows) ∷ []) in
          elim (Bool-cases (member inst.name rows)) [
            | inl old ↦
                Ends-err Q E (add w) {e = already_registered} (done.0 ∙ rw old)
                  (λ f. done.1 ∙ rw old)
            | inr new ↦ elim (Bool-cases (ltb max_port_index (lowest_free_index (indices rows)))) [
              | inl full ↦
                  Ends-err Q E (add w) {e = index_too_large} (done.0 ∙ rw (new, full))
                    (λ f. done.1 ∙ rw (new, full))
              | inr served ↦
                  Ends-ok Q E (add w) {a = lowest_free_index (indices rows)}
                    (done.0 ∙ rw (new, served)) (done.1 ∙ rw (new, served))
            ]
          ]

      module _ (rows : Dict (InstanceMeta T)) where
        pub allocate-Runs :
            Runs
              (Lists rows)
              (on_files (
                add_allocating m.platform classes inst.name none
                  (some (backend_at m classes inst.root inst.cfg.binder))
                  now))
              (λ i. Lists (rows ++ (inst.name, enrolled inst now rows) ∷ []))
              (λ e. Lists rows)
        allocate-Runs = record {
          run = λ w h.
              subst
                (λ r.
                  Ends (λ i. Lists (r ++ (inst.name, enrolled inst now r) ∷ [])) (λ e. Lists r)
                    (on_files
                      (add_allocating m.platform classes inst.name none
                        (some (backend_at m classes inst.root inst.cfg.binder)) now)
                      w))
                h (allocate-from w);
        }

        rollback-Runs :
            (created_dir : Bool) (row : InstanceMeta T)
            → member inst.name rows ≡ false
            → Runs
                (Lists (rows ++ (inst.name, row) ∷ []))
                (rollback_partial_create m classes inst.name inst.root created_dir)
                (λ _. Lists rows)
                (λ e. Lists rows)
        unfolding rollback_partial_create
        rollback-Runs created_dir row new =
            Runs->> {Q = Lists rows} _ _
              (remove-Runs inst.name (rows ++ (inst.name, row) ∷ []) rows
                (erase-snoc inst.name row rows new) (λ e. Lists rows))
              (Keeps-when_disk (Lists rows) (λ disk. created_dir && exists inst.root disk) _
                (rmtree-Keeps m classes inst (Lists-IsStable inst.root rows) inst.root
                  (under_refl inst.root)))

        -- Registering lists the instance last, or leaves the rows as they were.
        pub enroll-Runs :
            (created_dir : Bool)
            → member inst.name rows ≡ false
            → Runs
                (Lists rows)
                (enroll m classes inst created_dir now)
                (λ out w. (out ≡ inst) × Lists (rows ++ (inst.name, enrolled inst now rows) ∷ []) w)
                (λ e. Lists rows)
        unfolding enroll
        enroll-Runs created_dir new =
            let rows' = rows ++ (inst.name, enrolled inst now rows) ∷ [] in
            let stable = Lists-IsStable inst.root rows' in
            Runs->>= _ _ allocate-Runs (λ index.
              Runs->> {Q = Lists rows'} _ _
                (Runs-rescue _ _ (resolve_and_stage-Keeps m classes inst stable index)
                  (λ e. rollback-Runs created_dir (enrolled inst now rows) new))
                (Runs->> {Q = Lists rows'} _ _
                  (stage_network_soft-Runs m classes inst stable (λ e. Lists rows))
                  (Runs-return inst (λ w h. (refl, h)))))
