-- ===== src/Vm/Up.antt =====
-- `up` and `restart` of the micro-VM backend (`VmDeviceBackend` of src/beetroot/backends/vm.py),
-- without the messages that they print.
use Prim.Native.String.{String}
use beetroot.Prelude.{
  ℕ, false, ◌&&◌, ◌||◌, not, Option, none, some, List, nat_eq, string_eq, Result, ok, err,
  capability_missing, if◌then◌else◌,
}
use beetroot.Prelude.Actions.{Action, ◌>>=◌, ◌>>◌, return, given, refuse_if}
use beetroot.Disk.{Entry, file, directory, FilePath, child, exists, write_text}
use beetroot.Vm.{Host, Sys, on_disk, look, when, unlink}
use beetroot.Vm.Cores.{resolve_smp}
use beetroot.Vm.Qemu.{ResolvedAccel, detect_accel, raw, qcow2, Invocation, build_qemu_argv}
use beetroot.Vm.Process.{start}
use beetroot.Vm.BootCache.{
  Base, snapshot_tag, overlay_path, monitor_path, overlay_is_stale, snapshot_present,
  discard_overlay, create_overlay, record_identity, save_snapshot,
}
use beetroot.Vm.Backend.{
  VmDeviceBackend, adb_port, qemu_of, is_launch_failed, is_vm, resolve_artifact,
  wait_for_boot_completed, down, reach,
}

module _ (h : Host) (b : VmDeviceBackend) where
  unfoldable pub build_argv : ResolvedAccel → Action Sys (List String)
  unfolding resolve_artifact adb_port build_qemu_argv resolve_smp
  build_argv accel = do
    found ← look (resolve_artifact h b.cfg.vm.kernel h.vm_kernel)
    kernel ← given found
    found_rootfs ← look (resolve_artifact h b.cfg.vm.rootfs h.vm_rootfs)
    rootfs ← given found_rootfs
    port ← given (adb_port b)
    return (
        build_qemu_argv h (record {
          accel = accel;
          kernel = kernel;
          rootfs = rootfs;
          smp = resolve_smp h b.cfg.vm.smp;
          memory_mib = b.cfg.vm.memory_mib;
          host_adb_port = port;
          disk_format = raw;
          disk_cache = none;
          monitor_socket = none;
          loadvm = none;
        }))

  abbrev pub cached_invocation : Base → ℕ → Option String → Invocation
  cached_invocation base port tag = record {
    accel = base.accel;
    kernel = base.kernel;
    rootfs = overlay_path b.root;
    smp = base.smp;
    memory_mib = base.memory_mib;
    host_adb_port = port;
    disk_format = qcow2;
    disk_cache = none;
    monitor_socket = some (monitor_path b.root);
    loadvm = tag;
  }

  -- _launch
  unfoldable pub launch : Base → Option String → Action Sys (Unit {0})
  unfolding adb_port build_qemu_argv start reach
  launch base tag = do
    port ← given (adb_port b)
    pid ← start h (qemu_of b port) (build_qemu_argv h (cached_invocation base port tag))
    reach h b base.accel port

  -- a new overlay on the base, and the record of what it was built from
  unfoldable pub fresh_overlay : Base → Action Sys (Unit {0})
  unfolding create_overlay record_identity
  fresh_overlay base = do
    create_overlay h base.rootfs (overlay_path b.root)
    record_identity h b.root base

  -- The overlay goes if it was built from another base, or else if it has no checkpoint.
  unfoldable pub prune_overlay : Base → Action Sys (Unit {0})
  unfolding exists overlay_is_stale snapshot_present discard_overlay
  prune_overlay base = do
    there ← look (exists (overlay_path b.root))
    stale ← if there then overlay_is_stale h b.root base else return false
    present ← look (snapshot_present h (overlay_path b.root))
    when (stale || there && not present) (discard_overlay h b.root)

  unfoldable pub prepare_overlay : Base → Action Sys (Unit {0})
  unfolding prune_overlay exists fresh_overlay
  prepare_overlay base = do
    prune_overlay base
    there ← look (exists (overlay_path b.root))
    when (not there) (fresh_overlay base)

  -- shutil.copy2, if there is a file to copy
  abbrev pub copied : FilePath → Option Entry → Action Sys (Unit {0})
  copied to (some (file text)) = on_disk (write_text h.denied to text)
  copied to (some directory) = return tt
  copied to none = return tt

  abbrev pub copy_console : FilePath → FilePath → Action Sys (Unit {0})
  copy_console from to s = copied to (s.live.disk from) s

  -- _preserve_warm_fail_console
  unfoldable pub preserve_warm_fail_console : Action Sys (Unit {0})
  unfolding write_text
  preserve_warm_fail_console =
      copy_console (child b.root "qemu-console.log") (child b.root "qemu-console.log.warm-fail")

  abbrev pub keep_snapshot : Action Sys (Unit {0})
  keep_snapshot = do cached ← save_snapshot h (monitor_path b.root); return tt

  -- the end of a cold boot: a checkpoint once the guest has booted
  unfoldable pub checkpoint : Action Sys (Unit {0})
  unfolding adb_port wait_for_boot_completed save_snapshot
  checkpoint = do
    port ← given (adb_port b)
    booted ← wait_for_boot_completed h port
    if booted then keep_snapshot else return tt

  unfoldable pub cold_boot : Base → Action Sys (Unit {0})
  unfolding launch checkpoint
  cold_boot base = do launch base none; checkpoint

  -- what follows a warm start that raised a QemuLaunchError
  unfoldable pub boot_again : Base → Action Sys (Unit {0})
  unfolding preserve_warm_fail_console discard_overlay fresh_overlay cold_boot
  boot_again base = do
    preserve_warm_fail_console
    discard_overlay h b.root
    fresh_overlay base
    cold_boot base

  abbrev pub after_resume : Base → Result (Unit {0}) × Sys → Result (Unit {0}) × Sys
  after_resume base (ok done, s) = (ok done, s)
  after_resume base (err e, s) = if is_launch_failed e then boot_again base s else (err e, s)

  unfoldable pub warm_boot : Base → Action Sys (Unit {0})
  unfolding launch boot_again
  warm_boot base s = after_resume base (launch base (some snapshot_tag) s)

  unfoldable pub boot : Base → Action Sys (Unit {0})
  unfolding snapshot_present warm_boot cold_boot
  boot base = do
    warm ← look (snapshot_present h (overlay_path b.root))
    if warm then warm_boot base else cold_boot base

  abbrev pub base_of : ResolvedAccel → FilePath → FilePath → Base
  base_of accel kernel rootfs = record {
    kernel = kernel;
    rootfs = rootfs;
    smp = resolve_smp h b.cfg.vm.smp;
    memory_mib = b.cfg.vm.memory_mib;
    accel = accel;
  }

  unfoldable pub up_cached : ResolvedAccel → Action Sys (Unit {0})
  unfolding resolve_artifact resolve_smp unlink prepare_overlay boot
  up_cached accel = do
    found ← look (resolve_artifact h b.cfg.vm.kernel h.vm_kernel)
    kernel ← given found
    found_rootfs ← look (resolve_artifact h b.cfg.vm.rootfs h.vm_rootfs)
    rootfs ← given found_rootfs
    on_disk (unlink h.denied (monitor_path b.root))
    prepare_overlay (base_of accel kernel rootfs)
    boot (base_of accel kernel rootfs)

  -- `up` without a boot cache
  unfoldable pub up_plain : ResolvedAccel → Action Sys (Unit {0})
  unfolding build_argv adb_port start reach
  up_plain accel = do
    argv ← build_argv accel
    port ← given (adb_port b)
    pid ← start h (qemu_of b port) argv
    reach h b accel port

  unfoldable pub up : Action Sys (Unit {0})
  unfolding detect_accel up_cached up_plain
  up = do
    refuse_if (not (is_vm b.cfg.binder)) capability_missing
    accel ← given (detect_accel h b.cfg.vm.accel)
    if b.cfg.vm.boot_cache then up_cached accel else up_plain accel

  unfoldable pub restart : Action Sys (Unit {0})
  unfolding down up
  restart = do down h b; up
