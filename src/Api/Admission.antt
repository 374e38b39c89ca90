-- ===== src/Api/Admission.antt =====
-- `Instance.create` and `Instance.register` of src/beetroot/api.py, in every outcome.
use beetroot.Prelude.{
  String, ◌≡◌, refl, sym, ap, ◌∙◌, subst, Bool, false, ◌&&◌, not, Option, none, some, [], ◌∷◌, ◌++◌,
  arith, string_eq, any, already_registered, lifecycle_with_config, config_exists,
  directory_overlap, no_config,
}
use beetroot.Prelude.Maybe.{is_some}
use beetroot.Prelude.Actions.{refuse_if}
use beetroot.Prelude.Triples.{
  Runs, Runs->>=, Runs->>, Runs-fact, Runs-refuse_if, Keeps-given, Keeps-refuse_if, Runs-mono,
}
use beetroot.Dict.{Dict, member, lookup, values}
use beetroot.Registry.Backend.{ConfigClass}
use beetroot.Registry.Rows.{InstanceMeta}
use beetroot.Registry.Operations.{get}
use beetroot.Registry.Reread.{HasInTree}
use beetroot.Registry.Listing.{listed_again}
use beetroot.Config.Schema.{InstanceConfig, Lifecycle}
use beetroot.Disk.{FilePath, exists, is_file}
use beetroot.Disk.Layout.{instance_yaml}
use beetroot.Api.{Machine, World, Instance, load_yaml}
use beetroot.Api.Names.{validate_instance_name}
use beetroot.Api.Staging.{get_row, all_rows, overlapping, check_directory_overlap}
use beetroot.Api.Create.{create, register, enroll, effective_config, text_or, base_name}
use beetroot.Api.Stable.{Keeps-look}
use beetroot.Api.Steps.{make_root-Keeps, write_config-Keeps}
use beetroot.Api.Enroll.{Lists, Lists-IsStable, enrolled, enroll-Runs}

pub lookup-none-member {ℓ} :
    {V : Type ℓ} (k : String) (d : Dict V) → is_some (lookup k d) ≡ false → member k d ≡ false
unfolding lookup
lookup-none-member k [] h = refl
lookup-none-member k ((j, v) ∷ d) h = ground (arith, lookup-none-member k d)

module _ {T Text : Type 0} (m : Machine T Text) (classes : Dict ConfigClass) where
  -- No row's directory contains the target, is it, or lies in it.
  abbrev pub Clear : FilePath → Dict (InstanceMeta T) → Type 0
  Clear target rows = any (overlapping m classes target) (values rows) ≡ false

  module _ (rows : Dict (InstanceMeta T)) where
    abbrev Same : World Text → Type 0
    Same = Lists m classes rows

    pub get_row-Runs :
        (name : String)
        → Runs Same
            (get_row m classes name)
            (λ found w. (found ≡ lookup name rows) × Same w)
            (λ e. Same)
    unfolding get_row get
    get_row-Runs name = record {
      run = λ w h. (ap (lookup name) h, listed_again m.platform classes w.files ∙ h);
    }

    all_rows-Runs : Runs Same (all_rows m classes) (λ out w. (out ≡ rows) × Same w) (λ e. Same)
    unfolding all_rows
    all_rows-Runs = record { run = λ w h. (h, listed_again m.platform classes w.files ∙ h) }

    pub check_directory_overlap-Runs :
        (target : FilePath)
        → Runs Same
            (check_directory_overlap m classes target)
            (λ _ w. Clear target rows × Same w)
            (λ e. Same)
    unfolding check_directory_overlap
    check_directory_overlap-Runs target = Runs->>= _ _ all_rows-Runs (λ out. Runs-fact _ (λ e.
        subst
          (λ r.
            Runs Same (refuse_if (any (overlapping m classes target) (values r)) directory_overlap)
              (λ _ w. Clear target rows × Same w) (λ _. Same))
          (sym e)
          (Runs-refuse_if Same (any (overlapping m classes target) (values rows))
            directory_overlap)))

    -- the check that the name is new
    pub fresh-Runs :
        (name : String) (found : Option (InstanceMeta T))
        → found ≡ lookup name rows
        → Runs Same
            (refuse_if (is_some found) already_registered)
            (λ _ w. (member name rows ≡ false) × Same w)
            (λ e. Same)
    fresh-Runs name none e = record {
      run = λ w h. (lookup-none-member name rows (ap is_some (sym e)), h);
    }
    fresh-Runs name (some meta) e = record { run = λ w h. h }

    -- A new instance is listed last; its name was not listed and its directory overlaps no other.
    abbrev pub Admitted : Instance → T → Instance → World Text → Type 0
    Admitted inst now out w =
        (out ≡ inst)
        × (member inst.name rows ≡ false)
        × Clear inst.root rows
        × Lists m classes (rows ++ (inst.name, enrolled m classes inst now rows) ∷ []) w

    module _ (known : HasInTree classes) (now : T) where
      admit-Runs :
          (inst : Instance) (created_dir : Bool)
          → member inst.name rows ≡ false
          → Clear inst.root rows
          → Runs Same (enroll m classes inst created_dir now) (Admitted inst now) (λ e. Same)
      admit-Runs inst created_dir new clear =
          Runs-mono (enroll m classes inst created_dir now) (λ w h. h)
            (λ out w h. (h.0, new, clear, h.1)) (λ e w h. h)
            (enroll-Runs m classes known inst now rows created_dir new)

      pub create-Runs :
          (name : String) (path : Option String) (cfg : Option InstanceConfig)
          (lifecycle : Option Lifecycle)
          → let inst : Instance = record {
            name = name;
            root = m.resolve (text_or path name);
            cfg = effective_config cfg lifecycle;
          } in
            Runs Same (create m classes name path cfg lifecycle now) (Admitted inst now) (λ e. Same)
      unfolding create
      create-Runs name path cfg lifecycle =
          let target = m.resolve (text_or path name) in
          let inst : Instance = record {
            name = name;
            root = target;
            cfg = effective_config cfg lifecycle;
          } in
          let stable = Lists-IsStable m classes target rows in
          Runs->> {Q = Same} _ _ (Keeps-given Same (validate_instance_name name)) (
            Runs->> {Q = Same} _ _
              (Keeps-refuse_if Same (is_some cfg && is_some lifecycle) lifecycle_with_config)
              (Runs->>= _ _ (get_row-Runs name) (λ found. Runs-fact _ (λ e.
                Runs->> _ _ (fresh-Runs name found e) (
                  Runs-fact _ (λ new.
                    Runs->>= _ _ (Keeps-look Same (exists (instance_yaml target))) (λ adopted.
                      Runs->> {Q = Same} _ _ (Keeps-refuse_if Same adopted config_exists) (
                        Runs->> _ _ (check_directory_overlap-Runs target) (
                          Runs-fact _ (λ clear.
                            Runs->>= _ _ (Keeps-look Same (exists target)) (λ there.
                              Runs->> {Q = Same} _ _ (make_root-Keeps m classes inst stable) (
                                Runs->> {Q = Same} _ _
                                  (write_config-Keeps m classes inst stable cfg lifecycle)
                                  (admit-Runs inst (not there) new clear)))))))))))))

      -- Which config was read is left open.
      abbrev pub Adopted : String → FilePath → Instance → World Text → Type 0
      Adopted name target out w = (out.name ≡ name) × (out.root ≡ target) × Admitted out now out w

      adopt-Runs :
          (inst : Instance)
          → member inst.name rows ≡ false
          → Clear inst.root rows
          → Runs Same (enroll m classes inst false now) (Adopted inst.name inst.root) (λ e. Same)
      adopt-Runs inst new clear =
          Runs-mono (enroll m classes inst false now) (λ w h. h)
            (λ out w h.
              subst (λ o. Adopted inst.name inst.root o w) {x = inst} (sym h.0)
                (refl, refl, (refl, new, clear, h.1)))
            (λ e w h. h) (enroll-Runs m classes known inst now rows false new)

      pub register-Runs :
          (path : String) (name : Option String)
          → let target = m.resolve path in
            Runs Same
              (register m classes path name now)
              (Adopted (text_or name (base_name target)) target)
              (λ e. Same)
      unfolding register
      register-Runs path name =
          let target = m.resolve path in
          let chosen = text_or name (base_name target) in
          Runs->>= _ _ (Keeps-look Same (is_file (instance_yaml target))) (λ there.
            Runs->> {Q = Same} _ _ (Keeps-refuse_if Same (not there) no_config) (
              Runs->> {Q = Same} _ _ (Keeps-given Same (validate_instance_name chosen)) (
                Runs->>= _ _ (get_row-Runs chosen) (λ found. Runs-fact _ (λ e.
                  Runs->> _ _ (fresh-Runs chosen found e) (
                    Runs-fact _ (λ new. Runs->> _ _ (check_directory_overlap-Runs target) (
                      Runs-fact _ (λ clear.
                        Runs->>= _ _ (Keeps-look Same (load_yaml m (instance_yaml target)))
                          (λ loaded. Runs->>= _ _ (Keeps-given Same loaded) (λ cfg.
                            let inst : Instance = record {
                              name = chosen;
                              root = target;
                              cfg = cfg;
                            } in
                            adopt-Runs inst new clear)))))))))))
