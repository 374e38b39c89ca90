-- ===== src/Api/Outcomes.antt =====
-- How `Instance.create`, `register`, `destroy` and `reset` of src/beetroot/api.py end.
use beetroot.Prelude.{String, refl, Option, string_eq}
use beetroot.Prelude.Triples.{Ends, Ends-with}
use beetroot.Dict.{Dict}
use beetroot.Registry.Backend.{ConfigClass}
use beetroot.Registry.Reread.{HasInTree}
use beetroot.Registry.Transactions.{listed}
use beetroot.Config.Schema.{InstanceConfig, Lifecycle}
use beetroot.Disk.Outside.{Outside-refl}
use beetroot.Api.{Machine, World, Instance}
use beetroot.Api.Create.{create, register, effective_config, text_or, base_name}
use beetroot.Api.Enroll.{Lists, Elsewhere}
use beetroot.Api.Admission.{Admitted, Adopted, create-Runs, register-Runs}
use beetroot.Api.Isolation.{create-Kept, register-Kept}

module _ {T Text : Type 0} (m : Machine T Text) (classes : Dict ConfigClass)
    (known : HasInTree classes) where
  -- With the in-tree config classes registered, a call of create either returns the instance on
  -- the resolved directory with the effective config, whose name was not listed and whose
  -- directory overlaps no listed one, and lists it last on the lowest free index; or it raises,
  -- and lists what it listed before. In both cases nothing outside that directory changes, but for
  -- missing directories above it, which may be made.
  pub create_lem :
      (name : String) (path : Option String) (cfg : Option InstanceConfig)
      (lifecycle : Option Lifecycle) (now : T) (w : World Text)
      → let rows = listed m.platform classes w.files in
        let inst : Instance = record {
          name = name;
          root = m.resolve (text_or path name);
          cfg = effective_config cfg lifecycle;
        } in
        Ends
          (λ out w'. Admitted m classes rows inst now out w' × Elsewhere m classes inst.root w w')
          (λ e w'. Lists m classes rows w' × Elsewhere m classes inst.root w w')
          (create m classes name path cfg lifecycle now w)
  create_lem name path cfg lifecycle now w =
      let rows = listed m.platform classes w.files in
      let root = m.resolve (text_or path name) in
      let inst : Instance = record {
        name = name;
        root = root;
        cfg = effective_config cfg lifecycle;
      } in
      Ends-with (Admitted m classes rows inst now) (λ e. Lists m classes rows)
        (Elsewhere m classes root w) (create m classes name path cfg lifecycle now w)
        ((create-Runs m classes rows known now name path cfg lifecycle).run w refl)
        ((create-Kept m classes w name path cfg lifecycle now).run w (Outside-refl root w.disk))

  -- With the in-tree config classes registered, a call of register either returns an instance on
  -- the resolved directory under the given name, or the directory's own, where the name was not
  -- listed and the directory overlaps no listed one, and lists it last on the lowest free index; or
  -- it raises, and lists what it listed before. In both cases nothing outside that directory
  -- changes, but for missing directories above it, which may be made.
  pub register_lem :
      (path : String) (name : Option String) (now : T) (w : World Text)
      → let rows = listed m.platform classes w.files in
        let root = m.resolve path in
        Ends
          (λ out w'.
            Adopted m classes rows known now (text_or name (base_name root)) root out w'
            × Elsewhere m classes root w w')
          (λ e w'. Lists m classes rows w' × Elsewhere m classes root w w')
          (register m classes path name now w)
  register_lem path name now w =
      let rows = listed m.platform classes w.files in
      let root = m.resolve path in
      Ends-with (Adopted m classes rows known now (text_or name (base_name root)) root)
        (λ e. Lists m classes rows) (Elsewhere m classes root w)
        (register m classes path name now w)
        ((register-Runs m classes rows known now path name).run w refl)
        ((register-Kept m classes w path name now).run w (Outside-refl root w.disk))
