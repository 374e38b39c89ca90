-- ===== src/Api/Lifecycle.antt =====
-- `Instance.apply`, `Instance.destroy` and `Instance.reset` of src/beetroot/api.py. The outcome of
-- `docker compose down` is an argument.
use beetroot.Prelude.{
  Bool, true, false, not, Option, none, some, Error, Result, ok, err, not_confirmed, compose_failed,
  if◌then◌else◌,
}
use beetroot.Prelude.Actions.{Action, ◌>>=◌, ◌>>◌, return, given, refuse_if}
use beetroot.Dict.{Dict}
use beetroot.Ports.{resolve_ports}
use beetroot.Registry.Backend.{ConfigClass}
use beetroot.Registry.Operations.{remove, reconcile_backend_kind}
use beetroot.Config.Schema.{binder_text}
use beetroot.Disk.{FilePath, Disk, exists, mkdir, rmtree, touch}
use beetroot.Api.{Machine, World, Instance, on_files, on_disk, look, when_disk, load_yaml}
use beetroot.Disk.Layout.{instance_data, instance_yaml, lock_file}
use beetroot.Api.Staging.{
  meta_of, check_port_collisions, resolved_ports, stage_local, stage_network,
}

-- What the handler of `docker compose down` keeps: only a ComposeError is caught.
abbrev pub is_caught : Error → Bool
is_caught compose_failed = true
is_caught _ = false

abbrev pub caught : Result (Unit {0}) → Result (Option Error)
caught (ok done) = ok none
caught (err e) = if is_caught e then ok (some e) else err e

-- if compose_error is not None: raise compose_error
abbrev pub raise_kept : Option Error → Result (Unit {0})
raise_kept none = ok tt
raise_kept (some e) = err e

module _ {T Text : Type 0} (m : Machine T Text) (classes : Dict ConfigClass) where
  -- The lock file of instance_lock; waiting for the lock has no effect on the state.
  unfoldable pub instance_lock : FilePath → Action Disk (Unit {0})
  unfolding mkdir touch
  instance_lock root = do mkdir m.denied root; touch m.denied (lock_file root)

  unfoldable pub teardown_under_lock : Instance → Result (Unit {0}) → Action (World Text) (Unit {0})
  unfolding remove exists rmtree
  teardown_under_lock inst down = do
    compose_error ← given (caught down)
    on_files (remove m.platform classes inst.name)
    when_disk (exists inst.root) (on_disk (rmtree m.denied inst.root))
    given (raise_kept compose_error)

  unfoldable pub destroy : Instance → Bool → Result (Unit {0}) → Action (World Text) (Unit {0})
  unfolding exists instance_lock teardown_under_lock
  destroy inst confirmed down = do
    refuse_if (not confirmed) not_confirmed
    when_disk (exists inst.root) (on_disk (instance_lock inst.root))
    teardown_under_lock inst down

  unfoldable pub reset : Instance → Bool → Result (Unit {0}) → Action (World Text) (Unit {0})
  unfolding exists instance_lock mkdir rmtree
  reset inst confirmed down = do
    refuse_if (not confirmed) not_confirmed
    on_disk (instance_lock inst.root)
    given down
    when_disk (exists (instance_data inst.root))
        (on_disk (rmtree m.denied (instance_data inst.root)))
    on_disk (mkdir m.denied (instance_data inst.root))

  -- The instance with the config that was read again.
  unfoldable pub apply : Instance → Action (World Text) Instance
  unfolding load_yaml meta_of resolve_ports check_port_collisions stage_local stage_network
      reconcile_backend_kind
  apply old = do
    loaded ← look (load_yaml m (instance_yaml old.root))
    cfg ← given loaded
    let inst = record old { cfg = cfg }
    meta ← meta_of m classes inst.name
    new_ports ← given (resolved_ports m classes (resolve_ports meta.index cfg.ports false))
    check_port_collisions m classes inst.name new_ports
    stage_local m classes inst
    flipped ←
        on_files (reconcile_backend_kind m.platform classes inst.name (binder_text cfg.binder))
    stage_network m classes inst
    return inst
