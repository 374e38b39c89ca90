-- ===== src/Api/Apart.antt =====
-- Runs of the calls of src/beetroot/api.py one after another, and the directories that are listed.
use beetroot.Prelude.{
  String, ◌≡◌, refl, sym, ap, ◌∙◌, subst, Bool, true, false, Option, none, some, ok, ◌==◌,
  string_eq, inl, inr, Option-cases, Result, arith,
}
use beetroot.Prelude.Triples.{Keeps, Ends-mono, Ends-always, always-Ends, Runs->>=, Runs-return}
use beetroot.Dict.{Dict, lookup, insert}
use beetroot.Registry.Backend.{BackendConfig, ConfigClass, redroid, vm, adb, external, unresolved}
use beetroot.Registry.Rows.{InstanceMeta}
use beetroot.Registry.Storage.{Files}
use beetroot.Registry.Operations.{directory, flipped, reconcile_row, reconcile_backend_kind, remove}
use beetroot.Registry.Reread.{HasInTree}
use beetroot.Registry.RoundTrip.{insert-IsStored}
use beetroot.Registry.Invariant.{reconcile_row_flips}
use beetroot.Registry.Transactions.{listed, listed-IsStored, transact_kept, transact_written}
use beetroot.Registry.Listing.{listed-remove}
use beetroot.Registry.Updates.{flipped-IsReadable}
use beetroot.Config.Schema.{InstanceConfig, Lifecycle, Binder, vm_binder, auto_binder, host_binder}
use beetroot.Disk.{FilePath}
use beetroot.Api.{Machine, World, Instance, on_files}
use beetroot.Api.Create.{create, register, backend_at, text_or, effective_config, base_name}
use beetroot.Api.Stable.{IsStable}
use beetroot.Api.Enroll.{Lists, enrolled}
use beetroot.Api.Admission.{Admitted, Adopted, create-Runs, register-Runs}
use beetroot.Api.Isolation.{reset-Keeps, destroy-Keeps, apply-Keeps}
use beetroot.Api.Calls.{Call, creation, registration, application, resetting, destruction, run}
use beetroot.Api.Separate.{Separate, roots, roots-insert, Separate-erase, Separate-new}

directory-flipped :
    (want_vm : Bool) (old new : BackendConfig)
    → flipped want_vm old ≡ some new
    → directory new ≡ directory old
unfolding flipped
directory-flipped true (redroid path d) new h = ground arith
directory-flipped false (redroid path d) new h = cc
directory-flipped true (vm path) new h = cc
directory-flipped false (vm path) new h = ground arith
directory-flipped want_vm (adb serial) new h = cc
directory-flipped want_vm (external k d) new h = cc
directory-flipped want_vm (unresolved k d) new h = cc

module _ {T Text : Type 0} (m : Machine T Text) (classes : Dict ConfigClass) where
  -- The directories that the registry lists do not overlap.
  abbrev pub Apart : World Text → Type 0
  Apart w = Separate (roots m (listed m.platform classes w.files))

  Apart-IsStable : (root : FilePath) → IsStable m.platform classes root Apart
  Apart-IsStable root = record {
    inside = λ w d outside h. h;
    reread = λ w f same h. subst (λ r. Separate (roots m r)) (sym same) h;
  }

  reconcile_unflipped :
      (name binder : String) (rows : Dict (InstanceMeta T)) (meta : InstanceMeta T)
      → lookup name rows ≡ some meta
      → flipped (binder == "vm") meta.backend ≡ none
      → ◌≡◌ {A = Result (Bool × Option (Dict (InstanceMeta T)))}
          (reconcile_row name binder rows)
          (ok (false, none))
  unfolding reconcile_row
  reconcile_unflipped name binder rows meta found stays =
      rw (found, reconcile_row) (rw (stays, reconcile_row))

  reconcile_missing :
      (name binder : String) (rows : Dict (InstanceMeta T))
      → lookup name rows ≡ none
      → ◌≡◌ {A = Result (Bool × Option (Dict (InstanceMeta T)))}
          (reconcile_row name binder rows)
          (ok (false, none))
  unfolding reconcile_row
  reconcile_missing name binder rows found = rw (found, reconcile_row)

  module _ (known : HasInTree classes) where
    roots-reconcile :
        (name binder : String) (files : Files Text)
        → roots m (
            listed m.platform classes
              (reconcile_backend_kind m.platform classes name binder files).1)
          ≡ roots m (listed m.platform classes files)
    unfolding reconcile_backend_kind
    roots-reconcile name binder files =
        let rows = listed m.platform classes files in
        elim (Option-cases (lookup name rows)) [
          | inl e ↦
              ap (roots m)
                (transact_kept m.platform classes (reconcile_row name binder) files
                  (reconcile_missing name binder rows e)).1
          | inr (meta, e) ↦ elim (Option-cases (flipped (binder == "vm") meta.backend)) [
            | inl f ↦
                ap (roots m)
                  (transact_kept m.platform classes (reconcile_row name binder) files
                    (reconcile_unflipped name binder rows meta e f)).1
            | inr (new, f) ↦
                let meta' : InstanceMeta T = record meta { backend = new } in
                ap (roots m)
                  (transact_written m.platform classes (reconcile_row name binder) files
                    {rows = insert name meta' rows}
                    (insert-IsStored m.platform classes name meta' rows
                      (flipped-IsReadable m.platform classes known (binder == "vm") meta.backend new
                        meta' f refl)
                      (listed-IsStored m.platform classes known files))
                    (reconcile_row_flips name binder rows meta new e f)).1
                ∙ roots-insert m rows name meta meta' e
                    (directory-flipped (binder == "vm") meta.backend new f)
          ]
        ]

    reconcile-Apart :
        (name binder : String)
        → Keeps Apart (on_files (reconcile_backend_kind m.platform classes name binder))
    reconcile-Apart name binder = record {
      run = λ w h.
          always-Ends Apart (on_files (reconcile_backend_kind m.platform classes name binder) w)
            (subst Separate (sym (roots-reconcile name binder w.files)) h);
    }

    remove-Apart : (name : String) → Keeps Apart (on_files (remove m.platform classes name))
    remove-Apart name = record {
      run = λ w h. always-Ends Apart (on_files (remove m.platform classes name) w) (
          subst (λ r. Separate (roots m r))
            (sym (listed-remove m.platform classes known name w.files).1)
            (Separate-erase m name (listed m.platform classes w.files) h));
    }

    directory-backend_at :
        (root : FilePath) (binder : Binder)
        → directory (backend_at m classes root binder) ≡ some (m.show_path root)
    directory-backend_at root vm_binder = refl
    directory-backend_at root auto_binder = refl
    directory-backend_at root host_binder = refl

    Admitted-Apart :
        (rows : Dict (InstanceMeta T)) (inst : Instance) (now : T) (out : Instance) (path : String)
        (w : World Text)
        → inst.root ≡ m.resolve path
        → Separate (roots m rows)
        → Admitted m classes rows inst now out w
        → Apart w
    Admitted-Apart rows inst now out path w at h (same, new, clear, lists) =
        subst (λ r. Separate (roots m r)) (sym lists)
          (Separate-new m classes inst.root rows inst.name (m.show_path inst.root)
            (enrolled m classes inst now rows) (directory-backend_at inst.root inst.cfg.binder)
            (ap (λ r. m.resolve (m.show_path r)) at ∙ m.resolve-show_path path ∙ sym at) clear h)

    create-Apart :
        (name : String) (path : Option String) (cfg : Option InstanceConfig)
        (lifecycle : Option Lifecycle) (now : T)
        → Keeps Apart (create m classes name path cfg lifecycle now)
    create-Apart name path cfg lifecycle now = record {
      run = λ w h.
          let rows = listed m.platform classes w.files in
          let inst : Instance = record {
            name = name;
            root = m.resolve (text_or path name);
            cfg = effective_config cfg lifecycle;
          } in
          Ends-mono (Admitted m classes rows inst now) (λ _. Apart) (λ e. Lists m classes rows)
            (λ e. Apart) (create m classes name path cfg lifecycle now w)
            (λ out w' a. Admitted-Apart rows inst now out (text_or path name) w' refl h a)
            (λ e w' same. subst (λ r. Separate (roots m r)) (sym same) h)
            ((create-Runs m classes rows known now name path cfg lifecycle).run w refl);
    }

    register-Apart :
        (path : String) (name : Option String) (now : T)
        → Keeps Apart (register m classes path name now)
    register-Apart path name now = record {
      run = λ w h.
          let rows = listed m.platform classes w.files in
          let root = m.resolve path in
          Ends-mono (Adopted m classes rows known now (text_or name (base_name root)) root)
            (λ _. Apart) (λ e. Lists m classes rows) (λ e. Apart)
            (register m classes path name now w)
            (λ out w' a. Admitted-Apart rows out now out path w' a.1 h a.2)
            (λ e w' same. subst (λ r. Separate (roots m r)) (sym same) h)
            ((register-Runs m classes rows known now path name).run w refl);
    }

    run-Keeps : (c : Call T) → Keeps Apart (run m classes c)
    unfolding run
    run-Keeps (creation name path cfg lifecycle now) =
        Runs->>= _ _ (create-Apart name path cfg lifecycle now) (λ inst. Runs-return tt (λ w h. h))
    run-Keeps (registration path name now) =
        Runs->>= _ _ (register-Apart path name now) (λ inst. Runs-return tt (λ w h. h))
    run-Keeps (application inst) =
        Runs->>= _ _
          (apply-Keeps m classes inst (Apart-IsStable inst.root) (reconcile-Apart inst.name))
          (λ out. Runs-return tt (λ w h. h))
    run-Keeps (resetting inst confirmed down) =
        reset-Keeps m classes inst (Apart-IsStable inst.root) confirmed down
    run-Keeps (destruction inst confirmed down) =
        destroy-Keeps m classes inst (Apart-IsStable inst.root) confirmed down
          (remove-Apart inst.name)

    -- With the in-tree config classes registered and no overlap between the directories of the
    -- listed instances, there is none after a call of create, register, apply, reset or destroy,
    -- whether it returns or raises.
    pub run-Apart : (c : Call T) (w : World Text) → Apart w → Apart (run m classes c w).1
    run-Apart c w h = Ends-always Apart (run m classes c w) ((run-Keeps c).run w h)
