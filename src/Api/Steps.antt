-- ===== src/Api/Steps.antt =====
-- The steps of src/beetroot/api.py that change only one instance's directory and at most reread
-- the registry.
use beetroot.Prelude.{Error, any, directory_overlap, List, String, ◌≡◌, true, Option, none, some, ℕ}
use beetroot.Prelude.Triples.{
  Keeps, always-Ends, Ends-always, Runs->>=, Runs->>, Keeps-given, Keeps-refuse_if, Runs,
}
use beetroot.Dict.{Dict, values}
use beetroot.Ports.{ResolvedPort}
use beetroot.Registry.Backend.{ConfigClass}
use beetroot.Registry.Rows.{InstanceMeta}
use beetroot.Registry.Storage.{list_instances}
use beetroot.Registry.Operations.{get}
use beetroot.Registry.Listing.{listed_again}
use beetroot.Registry.Collisions.{assert_no_port_collision}
use beetroot.Registry.Siblings.{assert_no_port_collision_pure}
use beetroot.Config.Schema.{InstanceConfig, Lifecycle, Frida}
use beetroot.Disk.{FilePath, child, under, mkdir, write_text, rmtree}
use beetroot.Disk.Paths.{under-child, under_refl, parent-child}
use beetroot.Disk.Layout.{instance_yaml}
use beetroot.Disk.Outside.{
  Outside, Outside-same, mkdir-Outside, write_text-Outside, touch-Outside, rmtree-Outside,
}
use beetroot.Api.{Machine, World, Instance, load_ports_at, on_disk}
use beetroot.Api.Staging.{
  all_rows, overlapping, get_row, meta_of, row_or_raise, check_directory_overlap,
  check_port_collisions, stage_empty, needs_placeholder, stage_local, frida_step, stage_network,
  stage_network_soft,
}
use beetroot.Api.Create.{resolve_and_stage, write_config, write_yaml}
use beetroot.Api.Lifecycle.{instance_lock}
use beetroot.Api.Stable.{IsStable, Keeps-on_disk, Keeps-on_files, Keeps-when_disk}

module _ {T Text : Type 0} (m : Machine T Text) (classes : Dict ConfigClass) (root : FilePath)
    {I : World Text → Type 0} (stable : IsStable m.platform classes root I) where
  pub get_row-Keeps : (name : String) → Keeps I (get_row m classes name)
  unfolding get_row get
  get_row-Keeps name = Keeps-on_files stable _ (λ f. listed_again m.platform classes f)

  row_or_raise-Keeps : (found : Option (InstanceMeta T)) → Keeps I (row_or_raise m classes found)
  row_or_raise-Keeps none = record { run = λ w h. h }
  row_or_raise-Keeps (some meta) = record { run = λ w h. h }

  pub meta_of-Keeps : (name : String) → Keeps I (meta_of m classes name)
  unfolding meta_of
  meta_of-Keeps name = Runs->>= _ _ (get_row-Keeps name) row_or_raise-Keeps

  pub check_port_collisions-Keeps :
      (name : String) (ports : List ResolvedPort)
      → Keeps I (check_port_collisions m classes name ports)
  unfolding check_port_collisions
  check_port_collisions-Keeps name ports = record {
    run = λ w h.
        (Keeps-on_files stable
            (assert_no_port_collision m.platform classes (load_ports_at m w.disk) name ports)
            (assert_no_port_collision_pure m.platform classes (load_ports_at m w.disk) name
              ports)).run
          w h;
  }

  all_rows-Keeps : Keeps I (all_rows m classes)
  unfolding all_rows list_instances
  all_rows-Keeps = Keeps-on_files stable _ (λ f. listed_again m.platform classes f)

  pub check_directory_overlap-Keeps :
      (target : FilePath) → Keeps I (check_directory_overlap m classes target)
  unfolding check_directory_overlap
  check_directory_overlap-Keeps target = Runs->>= _ _ all_rows-Keeps (λ rows.
      Keeps-refuse_if I (any (overlapping m classes target) (values rows)) directory_overlap)

-- The steps on an instance's own directory.
module _ {T Text : Type 0} (m : Machine T Text) (classes : Dict ConfigClass) (inst : Instance)
    {I : World Text → Type 0} (stable : IsStable m.platform classes inst.root I) where
  pub mkdir-Keeps : (name : String) → Keeps I (on_disk (mkdir m.denied (child inst.root name)))
  mkdir-Keeps name =
      Keeps-on_disk stable _
        (λ d. mkdir-Outside m.denied inst.root d _ (under-child inst.root name))

  pub write_text-Keeps :
      (name text : String) → Keeps I (on_disk (write_text m.denied (child inst.root name) text))
  write_text-Keeps name text =
      Keeps-on_disk stable _
        (λ d. write_text-Outside m.denied inst.root d _ text (under-child inst.root name))

  stage_empty-Keeps : Keeps I (on_disk (stage_empty m classes inst.root))
  unfolding stage_empty
  stage_empty-Keeps = Keeps-on_disk stable _ (λ d.
      Runs->> _ _
        (rw (parent-child inst.root "frida-server")
          (mkdir-Outside m.denied inst.root d _ (under_refl inst.root)))
        (write_text-Outside m.denied inst.root d _ "" (under-child inst.root "frida-server")))

  pub stage_local-Keeps : Keeps I (stage_local m classes inst)
  unfolding stage_local
  stage_local-Keeps = Runs->>= _ _ (meta_of-Keeps m classes inst.root stable inst.name) (λ meta.
      Runs->>= _ _ (Keeps-given I _) (λ new_ports. Runs->> _ _ (mkdir-Keeps "data") (
        Runs->> _ _ (mkdir-Keeps "modules") (
          Runs->> _ _ (write_text-Keeps ".env" _) (
            Runs->> _ _ (write_text-Keeps "compose.override.yaml" _)
              (Keeps-when_disk I (needs_placeholder inst) _ stage_empty-Keeps))))))

  frida_step-Keeps : (frida : Option Frida) → Keeps I (frida_step m classes frida inst)
  frida_step-Keeps none = record { run = λ w h. h }
  frida_step-Keeps (some frida) = record {
    run =
        (Keeps-on_disk stable (m.fetch_frida inst.root frida inst.cfg.binder) (λ d. record {
          run = λ e h.
              always-Ends (Outside inst.root d) (m.fetch_frida inst.root frida inst.cfg.binder e) (
                Outside-same inst.root d e _
                  (m.fetch_frida-outside inst.root frida inst.cfg.binder e) h);
        })).run;
  }

  pub stage_network-Keeps : Keeps I (stage_network m classes inst)
  unfolding stage_network
  stage_network-Keeps = Runs->> {Q = I} _ _ (frida_step-Keeps inst.cfg.frida) (
      Keeps-on_disk stable (m.fetch_modules inst.root inst.cfg) (λ d. record {
        run = λ e h.
            always-Ends (Outside inst.root d) (m.fetch_modules inst.root inst.cfg e)
              (Outside-same inst.root d e _ (m.fetch_modules-outside inst.root inst.cfg e) h);
      }))

  -- It never raises.
  pub stage_network_soft-Runs :
      (F : Error → World Text → Type 0) → Runs I (stage_network_soft m classes inst) (λ _. I) F
  unfolding stage_network_soft
  stage_network_soft-Runs F = record {
    run = λ w h. Ends-always I (stage_network m classes inst w) (stage_network-Keeps.run w h);
  }

  pub resolve_and_stage-Keeps : (index : ℕ) → Keeps I (resolve_and_stage m classes inst index)
  unfolding resolve_and_stage
  resolve_and_stage-Keeps index = Runs->>= _ _ (Keeps-given I _) (λ new_ports.
      Runs->> _ _ (check_port_collisions-Keeps m classes inst.root stable inst.name new_ports)
        stage_local-Keeps)

  pub write_config-Keeps :
      (cfg : Option InstanceConfig) (lifecycle : Option Lifecycle)
      → Keeps I (on_disk (write_config m classes (instance_yaml inst.root) cfg lifecycle))
  unfolding write_config write_yaml
  write_config-Keeps none lifecycle = write_text-Keeps "beetroot.yaml" _
  write_config-Keeps (some cfg) lifecycle = Keeps-on_disk stable _ (λ d.
      Runs->> _ _
        (rw (parent-child inst.root "beetroot.yaml")
          (mkdir-Outside m.denied inst.root d _ (under_refl inst.root)))
        (write_text-Outside m.denied inst.root d _ _ (under-child inst.root "beetroot.yaml")))

  pub make_root-Keeps : Keeps I (on_disk (mkdir m.denied inst.root))
  make_root-Keeps =
      Keeps-on_disk stable _ (λ d. mkdir-Outside m.denied inst.root d _ (under_refl inst.root))

  pub lock-Keeps : Keeps I (on_disk (instance_lock m classes inst.root))
  unfolding instance_lock
  lock-Keeps = Keeps-on_disk stable _ (λ d.
      Runs->> _ _ (mkdir-Outside m.denied inst.root d _ (under_refl inst.root))
        (touch-Outside m.denied inst.root d _ (under-child inst.root ".beetroot.lock")))

  pub rmtree-Keeps :
      (path : FilePath) → under inst.root path ≡ true → Keeps I (on_disk (rmtree m.denied path))
  rmtree-Keeps path u = Keeps-on_disk stable _ (λ d. rmtree-Outside m.denied inst.root d path u)
