-- ===== src/Api/Isolation.antt =====
-- What `Instance.create`, `register`, `apply`, `reset` and `destroy` of src/beetroot/api.py leave of
-- the disk outside the instance's own directory.
use beetroot.Prelude.{
  String, Bool, false, ◌&&◌, not, none, some, Option, Result, already_registered,
  lifecycle_with_config, config_exists, no_config,
}
use beetroot.Prelude.Maybe.{is_some}
use beetroot.Prelude.Triples.{
  Keeps, always-Ends, Runs->>=, Runs->>, Runs-rescue, Keeps-given, Keeps-refuse_if, Runs-return,
}
use beetroot.Dict.{Dict}
use beetroot.Registry.Backend.{ConfigClass}
use beetroot.Registry.Storage.{Files}
use beetroot.Registry.Operations.{add_allocating, remove, reconcile_backend_kind}
use beetroot.Config.Schema.{InstanceConfig, Lifecycle, binder_text}
use beetroot.Disk.{exists, is_file}
use beetroot.Disk.Paths.{under_refl, under-child}
use beetroot.Disk.Layout.{instance_yaml, instance_data}
use beetroot.Api.{Machine, World, Instance, on_files, load_yaml}
use beetroot.Api.Names.{validate_instance_name}
use beetroot.Ports.{resolve_ports}
use beetroot.Api.Staging.{rollback_partial_create, resolved_ports}
use beetroot.Api.Create.{backend_at, create, register, enroll, effective_config, text_or, base_name}
use beetroot.Api.Lifecycle.{destroy, teardown_under_lock, caught, raise_kept, reset, apply}
use beetroot.Api.Stable.{IsStable, Keeps-look, Keeps-when_disk}
use beetroot.Api.Steps.{
  get_row-Keeps, meta_of-Keeps, check_directory_overlap-Keeps, check_port_collisions-Keeps,
  make_root-Keeps, mkdir-Keeps, write_config-Keeps, stage_local-Keeps, stage_network-Keeps,
  stage_network_soft-Runs, resolve_and_stage-Keeps, rmtree-Keeps, lock-Keeps,
}
use beetroot.Api.Enroll.{Elsewhere, Elsewhere-IsStable}

module _ {T Text : Type 0} (m : Machine T Text) (classes : Dict ConfigClass) (inst : Instance)
    {I : World Text → Type 0} (stable : IsStable m.platform classes inst.root I) where
  -- A reset changes no more than the instance's directory.
  pub reset-Keeps :
      (confirmed : Bool) (down : Result (Unit {0})) → Keeps I (reset m classes inst confirmed down)
  unfolding reset
  reset-Keeps confirmed down = Runs->> {Q = I} _ _ (Keeps-refuse_if I (not confirmed) _) (
      Runs->> {Q = I} _ _ (lock-Keeps m classes inst stable) (
        Runs->> {Q = I} _ _ (Keeps-given I down) (
          Runs->> {Q = I} _ _
            (Keeps-when_disk I (exists (instance_data inst.root)) _ (
              rmtree-Keeps m classes inst stable (instance_data inst.root)
                (under-child inst.root "data")))
            (mkdir-Keeps m classes inst stable "data"))))

  -- So do a destruction and an application, where their writes of the registry keep the condition.
  pub destroy-Keeps :
      (confirmed : Bool) (down : Result (Unit {0}))
      → Keeps I (on_files (remove m.platform classes inst.name))
      → Keeps I (destroy m classes inst confirmed down)
  unfolding destroy teardown_under_lock
  destroy-Keeps confirmed down removal = Runs->> {Q = I} _ _ (Keeps-refuse_if I (not confirmed) _) (
      Runs->> {Q = I} _ _
        (Keeps-when_disk I (exists inst.root) _ (lock-Keeps m classes inst stable))
        (Runs->>= _ _ (Keeps-given I (caught down)) (λ compose_error. Runs->> {Q = I} _ _ removal (
          Runs->> {Q = I} _ _
            (Keeps-when_disk I (exists inst.root) _
              (rmtree-Keeps m classes inst stable inst.root (under_refl inst.root)))
            (Keeps-given I (raise_kept compose_error))))))

  pub apply-Keeps :
      ((binder : String)
        → Keeps I (on_files (reconcile_backend_kind m.platform classes inst.name binder)))
      → Keeps I (apply m classes inst)
  unfolding apply
  apply-Keeps flip = Runs->>= _ _ (Keeps-look I (load_yaml m (instance_yaml inst.root))) (λ loaded.
      Runs->>= _ _ (Keeps-given I loaded) (λ cfg.
        let now : Instance = record inst { cfg = cfg } in
        Runs->>= _ _ (meta_of-Keeps m classes inst.root stable inst.name) (λ meta.
          Runs->>= _ _
            (Keeps-given I (resolved_ports m classes (resolve_ports meta.index cfg.ports false)))
            (λ new_ports.
              Runs->> {Q = I} _ _
                (check_port_collisions-Keeps m classes inst.root stable inst.name new_ports)
                (Runs->> {Q = I} _ _ (stage_local-Keeps m classes now stable) (
                  Runs->>= _ _ (flip (binder_text cfg.binder)) (λ flipped.
                    Runs->> {Q = I} _ _ (stage_network-Keeps m classes now stable)
                      (Runs-return now (λ w h. h)))))))))

module _ {T Text : Type 0} (m : Machine T Text) (classes : Dict ConfigClass) (inst : Instance)
    (start : World Text) where
  abbrev Kept : World Text → Type 0
  Kept = Elsewhere m classes inst.root start

  stable : IsStable m.platform classes inst.root Kept
  stable = Elsewhere-IsStable m classes inst.root start

  -- a call of the registry changes no instance's directory
  on_files-Kept {ℓ} :
      {A : Type ℓ} (act : Files Text → Result A × Files Text) → Keeps Kept (on_files act)
  on_files-Kept act = record { run = λ w h. always-Ends Kept (on_files act w) h }

  rollback-Kept :
      (created_dir : Bool)
      → Keeps Kept (rollback_partial_create m classes inst.name inst.root created_dir)
  unfolding rollback_partial_create
  rollback-Kept created_dir =
      Runs->> {Q = Kept} _ _ (on_files-Kept (remove m.platform classes inst.name)) (
        Keeps-when_disk Kept (λ disk. created_dir && exists inst.root disk) _
          (rmtree-Keeps m classes inst stable inst.root (under_refl inst.root)))

  enroll-Kept : (created_dir : Bool) (now : T) → Keeps Kept (enroll m classes inst created_dir now)
  unfolding enroll
  enroll-Kept created_dir now =
      Runs->>= _ _
        (on_files-Kept (
          add_allocating m.platform classes inst.name none
            (some (backend_at m classes inst.root inst.cfg.binder)) now))
        (λ index.
          Runs->> {Q = Kept} _ _
            (Runs-rescue _ _ (resolve_and_stage-Keeps m classes inst stable index)
              (λ e. rollback-Kept created_dir))
            (Runs->> {Q = Kept} _ _ (stage_network_soft-Runs m classes inst stable (λ e. Kept))
              (Runs-return inst (λ w h. h))))

  pub destroy-Kept :
      (confirmed : Bool) (down : Result (Unit {0}))
      → Keeps Kept (destroy m classes inst confirmed down)
  destroy-Kept confirmed down =
      destroy-Keeps m classes inst stable confirmed down
        (on_files-Kept (remove m.platform classes inst.name))

  pub apply-Kept : Keeps Kept (apply m classes inst)
  apply-Kept =
      apply-Keeps m classes inst stable
        (λ binder. on_files-Kept (reconcile_backend_kind m.platform classes inst.name binder))

module _ {T Text : Type 0} (m : Machine T Text) (classes : Dict ConfigClass)
    (start : World Text) where
  pub create-Kept :
      (name : String) (path : Option String) (cfg : Option InstanceConfig)
      (lifecycle : Option Lifecycle) (now : T)
      → Keeps
          (Elsewhere m classes (m.resolve (text_or path name)) start)
          (create m classes name path cfg lifecycle now)
  unfolding create
  create-Kept name path cfg lifecycle now =
      let target = m.resolve (text_or path name) in
      let K : World Text → Type 0 = Elsewhere m classes target start in
      let inst : Instance = record {
        name = name;
        root = target;
        cfg = effective_config cfg lifecycle;
      } in
      let stable = Elsewhere-IsStable m classes target start in
      Runs->> {Q = K} _ _ (Keeps-given K (validate_instance_name name)) (
        Runs->> {Q = K} _ _
          (Keeps-refuse_if K (is_some cfg && is_some lifecycle) lifecycle_with_config)
          (Runs->>= _ _ (get_row-Keeps m classes target stable name) (λ found.
            Runs->> {Q = K} _ _ (Keeps-refuse_if K (is_some found) already_registered) (
              Runs->>= _ _ (Keeps-look K (exists (instance_yaml target))) (λ adopted.
                Runs->> {Q = K} _ _ (Keeps-refuse_if K adopted config_exists) (
                  Runs->> {Q = K} _ _ (check_directory_overlap-Keeps m classes target stable target)
                    (Runs->>= _ _ (Keeps-look K (exists target)) (λ there.
                      Runs->> {Q = K} _ _ (make_root-Keeps m classes inst stable) (
                        Runs->> {Q = K} _ _ (write_config-Keeps m classes inst stable cfg lifecycle)
                          (enroll-Kept m classes inst start (not there) now))))))))))

  pub register-Kept :
      (path : String) (name : Option String) (now : T)
      → Keeps (Elsewhere m classes (m.resolve path) start) (register m classes path name now)
  unfolding register
  register-Kept path name now =
      let target = m.resolve path in
      let chosen = text_or name (base_name target) in
      let K : World Text → Type 0 = Elsewhere m classes target start in
      let stable = Elsewhere-IsStable m classes target start in
      Runs->>= _ _ (Keeps-look K (is_file (instance_yaml target))) (λ there.
        Runs->> {Q = K} _ _ (Keeps-refuse_if K (not there) no_config) (
          Runs->> {Q = K} _ _ (Keeps-given K (validate_instance_name chosen)) (
            Runs->>= _ _ (get_row-Keeps m classes target stable chosen) (λ found.
              Runs->> {Q = K} _ _ (Keeps-refuse_if K (is_some found) already_registered) (
                Runs->> {Q = K} _ _ (check_directory_overlap-Keeps m classes target stable target) (
                  Runs->>= _ _ (Keeps-look K (load_yaml m (instance_yaml target))) (λ loaded.
                    Runs->>= _ _ (Keeps-given K loaded) (λ adopted.
                      let inst : Instance = record {
                        name = chosen;
                        root = target;
                        cfg = adopted;
                      } in
                      enroll-Kept m classes inst start false now))))))))
