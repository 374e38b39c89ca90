-- ===== src/Vm/Booting.antt =====
-- The whole of `_up_cached` (src/beetroot/backends/vm.py): the checkpoint that it resumes and the
-- one that it makes.
use beetroot.Prelude.{
  ◌≡◌, refl, inl, inr, Bool, true, false, Bool-cases, Option, none, some, ok, err, Result,
  if◌then◌else◌,
}
use beetroot.Prelude.Actions.{◌>>◌, return}
use beetroot.Prelude.Triples.{
  Runs, Ends, Keeps, Ends-mono, Runs->>=, Runs->>, Runs-return, Runs-mono, Runs-given, Ends-always,
}
use beetroot.Disk.{FilePath, Entry, file, directory, under}
use beetroot.Vm.{Host, Sys, on_disk, unlink}
use beetroot.Vm.Files.{unlink-Ends}
use beetroot.Vm.Qemu.{ResolvedAccel}
use beetroot.Vm.BootCache.{Base, overlay_path, monitor_path, snapshot_present, snapshot_tag}
use beetroot.Vm.Backend.{VmDeviceBackend, adb_port, is_launch_failed, resolve_artifact}
use beetroot.Vm.Up.{
  base_of, copied, preserve_warm_fail_console, keep_snapshot, checkpoint, cold_boot, boot_again,
  after_resume, warm_boot, boot, prepare_overlay, up_cached,
}
use beetroot.Vm.Overlay.{Ready, on_disk-Runs, discard_overlay-Runs}
use beetroot.Vm.Prepared.{fresh_overlay-Runs, prepare_overlay-Runs}
use beetroot.Vm.Identity.{Coherent}
use beetroot.Vm.Untouched.{wait_for_boot_completed-Keeps, save_snapshot-Keeps}
use beetroot.Vm.Fresh.{AllSound, Orderly, Before, write-Keeps, launch-Runs}

module _ (h : Host) (b : VmDeviceBackend) (base : Base)
    (out_kernel : under b.root base.kernel ≡ false)
    (out_rootfs : under b.root base.rootfs ≡ false) where
  copied-Ends :
      (to : FilePath) (found : Option Entry) (s : Sys)
      → Orderly h b base s
      → Ends (λ _. Orderly h b base) (λ e. Orderly h b base) (copied h b to found s)
  copied-Ends to none s k = k
  copied-Ends to (some directory) s k = k
  copied-Ends to (some (file text)) s k =
      (write-Keeps h b base out_kernel out_rootfs to text).run s k

  preserve-Keeps : Keeps (Orderly h b base) (preserve_warm_fail_console h b)
  unfolding preserve_warm_fail_console
  preserve-Keeps = record { run = λ s k. copied-Ends _ _ s k }

  finish-Keeps :
      (booted : Bool) → Keeps (Orderly h b base) (if booted then keep_snapshot h b else return tt)
  finish-Keeps true =
      Runs->>= _ _
        (save_snapshot-Keeps h (λ hashes events. Coherent h hashes × AllSound h b base events)
          (monitor_path b.root))
        (λ cached. Runs-return tt (λ t k. k))
  finish-Keeps false = Runs-return tt (λ t k. k)

  checkpoint-Keeps : Keeps (Orderly h b base) (checkpoint h b)
  unfolding checkpoint
  checkpoint-Keeps =
      Runs->>= _ _
        (Runs-mono _ (λ t k. k) (λ a t k. k.1) (λ e t k. k)
          (Runs-given (Orderly h b base) (adb_port b)))
        (λ port.
          Runs->>= _ _
            (wait_for_boot_completed-Keeps h
              (λ hashes events. Coherent h hashes × AllSound h b base events) port)
            finish-Keeps)

  cold_boot-Runs :
      Runs
        (Before h b base out_kernel out_rootfs none)
        (cold_boot h b base)
        (λ _. Orderly h b base)
        (λ e. Orderly h b base)
  unfolding cold_boot
  cold_boot-Runs = Runs->> _ _ (launch-Runs h b base out_kernel out_rootfs none) checkpoint-Keeps

  boot_again-Keeps : Keeps (Orderly h b base) (boot_again h b base)
  unfolding boot_again
  boot_again-Keeps = Runs->> _ _ preserve-Keeps (
      Runs->> _ _
        (Runs-mono _ (λ t k. k) (λ a t k. k.1) (λ e t k. k)
          (discard_overlay-Runs h b base (AllSound h b base)))
        (Runs->> _ _
          (Runs-mono _ (λ t k. k) (λ a t k. ((inl refl, k.0), k.1)) (λ e t k. k)
            (fresh_overlay-Runs h b base (AllSound h b base) out_kernel out_rootfs))
          cold_boot-Runs))

  after_resume-Ends :
      (r : Result (Unit {0}) × Sys)
      → Ends (λ _. Orderly h b base) (λ e. Orderly h b base) r
      → Ends (λ _. Orderly h b base) (λ e. Orderly h b base) (after_resume h b base r)
  after_resume-Ends (ok done, s) k = k
  after_resume-Ends (err e, s) k = elim (Bool-cases (is_launch_failed e)) [
    | inl failed ↦ rw failed (boot_again-Keeps.run s k)
    | inr other ↦ rw other k
  ]

  warm_boot-Runs :
      Runs
        (Before h b base out_kernel out_rootfs (some snapshot_tag))
        (warm_boot h b base)
        (λ _. Orderly h b base)
        (λ e. Orderly h b base)
  unfolding warm_boot
  warm_boot-Runs = record {
    run = λ s k.
        after_resume-Ends _
          ((launch-Runs h b base out_kernel out_rootfs (some snapshot_tag)).run s k);
  }

  boot-Ends :
      (warm : Bool) (s : Sys)
      → snapshot_present h (overlay_path b.root) s.live.disk ≡ warm
      → Ready h b base s.live.disk × Orderly h b base s
      → Ends
          (λ _. Orderly h b base)
          (λ e. Orderly h b base)
          ((if warm then warm_boot h b base else cold_boot h b base) s)
  boot-Ends true s e k = warm_boot-Runs.run s ((inr e, k.0), k.1)
  boot-Ends false s e k = cold_boot-Runs.run s ((inl refl, k.0), k.1)

  pub boot-Runs :
      Runs
        (λ s. Ready h b base s.live.disk × Orderly h b base s)
        (boot h b base)
        (λ _. Orderly h b base)
        (λ e. Orderly h b base)
  unfolding boot
  boot-Runs = record {
    run = λ s k. boot-Ends (snapshot_present h (overlay_path b.root) s.live.disk) s refl k;
  }

  unlink_monitor-Keeps : Keeps (Orderly h b base) (on_disk (unlink h.denied (monitor_path b.root)))
  unlink_monitor-Keeps =
      Runs-mono _ (λ s k. (tt {0}, k)) (λ a t (k : Unit {0} × Orderly h b base t). k.1) (λ e t k. k)
        (on_disk-Runs h b base (AllSound h b base) (λ d. Unit {0}) (λ _ d. Unit {0})
          (unlink h.denied (monitor_path b.root))
          (λ d _.
            Ends-mono (λ _ d'. d' (monitor_path b.root) ≡ none) (λ _ d'. Unit {0}) (λ e d'. d' ≡ d)
              (λ e d'. d' ≡ d) (unlink h.denied (monitor_path b.root) d) (λ a d' w. tt)
              (λ e d' w. w) (unlink-Ends h.denied (monitor_path b.root) d)))

  pub cached_start-Keeps : Keeps (Orderly h b base) (
      on_disk (unlink h.denied (monitor_path b.root))
      >> (prepare_overlay h b base >> boot h b base))
  cached_start-Keeps = Runs->> _ _ unlink_monitor-Keeps (
      Runs->> _ _ (prepare_overlay-Runs h b base (AllSound h b base) out_kernel out_rootfs)
        boot-Runs)

-- For a kernel and a root file system outside the instance's directory, from a state with right
-- digests in the cache and sound events: however up_cached ends, the digests are right, every QEMU
-- that was started was started on the overlay while the record beside it was the identity of what
-- the kernel and the root file system held, and with a checkpoint to resume only while the overlay
-- had it; and every process that was signalled is the instance's QEMU by its command line.
pub up_cached-Orderly :
    (h : Host) (b : VmDeviceBackend) (accel : ResolvedAccel) (kernel rootfs : FilePath) (s : Sys)
    → resolve_artifact h b.cfg.vm.kernel h.vm_kernel s.live.disk ≡ ok kernel
    → resolve_artifact h b.cfg.vm.rootfs h.vm_rootfs s.live.disk ≡ ok rootfs
    → under b.root kernel ≡ false
    → under b.root rootfs ≡ false
    → let base = base_of h b accel kernel rootfs in
      Orderly h b base s → Orderly h b base (up_cached h b accel s).1
unfolding up_cached
up_cached-Orderly h b accel kernel rootfs s found_kernel found_rootfs out_kernel out_rootfs k =
    let base = base_of h b accel kernel rootfs in
    rw (found_kernel, found_rootfs)
      (Ends-always (Orderly h b base) _
        ((cached_start-Keeps h b base out_kernel out_rootfs).run s k))
