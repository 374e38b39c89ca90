-- ===== src/Vm/Fresh.antt =====
-- What `_up_cached` (src/beetroot/backends/vm.py) does to processes: QEMU is started only on an
-- overlay whose record is right, and only the instance's own QEMU is signalled.
use Prim.Native.String.{String}
use beetroot.Prelude.{
  ℕ, ◌≡◌, refl, sym, ◌∙◌, ap, ◌⊎◌, inl, inr, true, false, Option-cases, Option, none, some, List,
  All, ok, err, Result, launch_failed,
}
use beetroot.Prelude.Triples.{
  Runs, Ends, Keeps, Ends-mono, Runs->>=, Runs->>, Runs-return, Runs-fact, Runs-mono, Runs-given,
  Runs-rescue, Keeps-refuse_if,
}
use beetroot.Prelude.Text.{decimal}
use beetroot.Disk.{FilePath, Disk, Entry, file, child, same_path, under, mkdir, write_text}
use beetroot.Vm.{Host, Sys, Event, started, signalled, Processes, on_disk}
use beetroot.Vm.Files.{mkdir-Ends, write_text-Ends, same_path-child, same_path-outside}
use beetroot.Vm.Process.{
  QemuProcess, cmdline_is_qemu, console_log, pidfile, as_launch_failed, open_console, popened,
  popen, start, terminate, is_running,
}
use beetroot.Vm.Process as Process
use beetroot.Vm.Qemu.{ResolvedAccel, build_qemu_argv}
use beetroot.Vm.BootCache.{Base, overlay_path, overlay_key_path, snapshot_present, image_has_tag}
use beetroot.Vm.Backend.{VmDeviceBackend, adb_port, qemu_of, down, reach}
use beetroot.Vm.Up.{cached_invocation, launch}
use beetroot.Vm.Overlay.{Ready, Ready-kept, Calm, on_disk-Runs}
use beetroot.Vm.Identity.{Coherent}
use beetroot.Vm.Signals.{terminate-Runs}
use beetroot.Vm.Untouched.{wait_for_adb_connect-Keeps}

module _ (h : Host) (b : VmDeviceBackend) (base : Base) where
  -- A start with a checkpoint to resume is one on an image that has it.
  abbrev pub Resumable : Option String → Disk → Type 0
  Resumable tag disk = (tag ≡ none) ⊎ (snapshot_present h (overlay_path b.root) disk ≡ true)

  -- What may be done: to start QEMU on the overlay of this base, with the record beside it right at
  -- that moment, and to signal a process that is the QEMU of this instance.
  abbrev pub Sound : Event → Type 0
  Sound (started argv disk) =
      (port : ℕ) × (tag : Option String) × (argv
        ≡ build_qemu_argv h (cached_invocation h b base port tag))
      × Resumable tag disk
      × Ready h b base disk
  Sound (signalled signal pid cmdline) =
      (port : ℕ) × (adb_port b ≡ ok port) × (cmdline_is_qemu (some port) cmdline ≡ true)

  abbrev pub AllSound : List Event → Type 0
  AllSound events = All Sound events

  -- The digests in the cache are right, and all that was done was sound.
  abbrev pub Orderly : Sys → Type 0
  Orderly = Calm h b base AllSound

  pub down-Keeps : Keeps Orderly (down h b)
  unfolding down
  down-Keeps = Runs->>= _ _ (Runs-given Orderly (adb_port b)) (λ port.
      Runs-fact _ (λ (e : adb_port b ≡ ok port).
        Runs->>= _ _
          (Runs-mono _ (λ t k. k) (λ a t k. k.0) (λ e t k. absurd k)
            (terminate-Runs h (qemu_of b port)
              (λ hashes events. Coherent h hashes × AllSound events)
              (λ hashes events signal pid cmdline own k. (k.0, ((port, e, own), k.1)))))
          (λ sent. Runs-return tt (λ t k. k))))

  pub reach-Keeps : (accel : ResolvedAccel) (port : ℕ) → Keeps Orderly (reach h b accel port)
  unfolding reach
  reach-Keeps accel port =
      Runs-rescue _ _
        (wait_for_adb_connect-Keeps h (λ hashes events. Coherent h hashes × AllSound events) accel
          port (qemu_of b port))
        (λ e. down-Keeps)

  -- what a start needs of the disk
  abbrev pub Startable : Option String → Disk → Type 0
  Startable tag disk = Resumable tag disk × Ready h b base disk

  snapshot_present-kept :
      (before after : Disk)
      → ((x : Entry) → before (overlay_path b.root) ≡ some x → after (overlay_path b.root) ≡ some x)
      → snapshot_present h (overlay_path b.root) before ≡ true
      → snapshot_present h (overlay_path b.root) after ≡ true
  unfolding snapshot_present
  snapshot_present-kept before after k e = elim (Option-cases (before (overlay_path b.root))) [
    | inl gone ↦ cc (ap (image_has_tag h) gone, e)
    | inr (x, there) ↦ ap (image_has_tag h) (k x there ∙ sym there) ∙ e
  ]

  module _ (out_kernel : under b.root base.kernel ≡ false)
      (out_rootfs : under b.root base.rootfs ≡ false) where
    Startable-kept :
        (tag : Option String) (before after : Disk)
        → ((q : FilePath) (x : Entry)
            → same_path q (child b.root "qemu-console.log") ≡ false
            → before q ≡ some x
            → after q ≡ some x)
        → Startable tag before
        → Startable tag after
    Startable-kept tag before after k (r, ready) =
        let kept_resumable : Resumable tag before → Resumable tag after = elim r [
          | inl e ↦ λ _. inl e
          | inr e ↦ λ _. inr (
              snapshot_present-kept before after
                (λ x.
                  k (overlay_path b.root) x
                    (same_path-child b.root "vm-overlay.qcow2" "qemu-console.log"))
                e)
        ] in
        (
          kept_resumable r,
          Ready-kept h b base before after
              (λ x.
                k base.kernel x
                  (same_path-outside base.kernel b.root "qemu-console.log" out_kernel))
              (λ x.
                k base.rootfs x
                  (same_path-outside base.rootfs b.root "qemu-console.log" out_rootfs))
              (λ x.
                k (overlay_key_path b.root) x
                  (same_path-child b.root "vm-overlay.cache-key" "qemu-console.log"))
              ready,
        )

    root-Ends :
        (tag : Option String) (d : Disk)
        → Startable tag d
        → Ends (λ _. Startable tag) (λ e d'. d' ≡ d) (mkdir h.denied b.root d)
    root-Ends tag d k =
        Ends-mono (λ _ d'. (q : FilePath) (x : Entry) → d q ≡ some x → d' q ≡ some x)
          (λ _. Startable tag) (λ e d'. d' ≡ d) (λ e d'. d' ≡ d) (mkdir h.denied b.root d)
          (λ _ d' w. Startable-kept tag d d' (λ q x other e. w q x e) k) (λ e d' w. w)
          (mkdir-Ends h.denied b.root d)

    console-Ends :
        (tag : Option String) (d : Disk)
        → Startable tag d
        → Ends
            (λ _. Startable tag)
            (λ e d'. d' ≡ d)
            (write_text h.denied (child b.root "qemu-console.log") "" d)
    console-Ends tag d k =
        let log = child b.root "qemu-console.log" in
        Ends-mono
          (λ _ d'.
            (d' log ≡ some (file "")) × ((q : FilePath) → same_path q log ≡ false → d' q ≡ d q))
          (λ _. Startable tag) (λ e d'. d' ≡ d) (λ e d'. d' ≡ d) (write_text h.denied log "" d)
          (λ _ d' w. Startable-kept tag d d' (λ q x other e. w.1 q other ∙ e) k) (λ e d' w. w)
          (write_text-Ends h.denied log "" d)

    -- On the disk one may start QEMU, and all is in order.
    abbrev pub Before : Option String → Sys → Type 0
    Before tag s = Startable tag s.live.disk × Orderly s

    console_raised :
        (tag : Option String) (q : QemuProcess) (r : Result (Unit {0}) × Sys)
        → Ends (λ _. Before tag) (λ e. Orderly) r
        → Ends (λ _. Before tag) (λ e. Orderly) (as_launch_failed h q r)
    console_raised tag q (ok a, s) k = k
    console_raised tag q (err e, s) k = k

    popened-Ends :
        (tag : Option String) (port : ℕ) (q : QemuProcess) (found : Option (ℕ × Processes))
        (s : Sys)
        → Before tag s
        → Ends
            (λ pid. Orderly)
            (λ e. Orderly)
            (popened h q (build_qemu_argv h (cached_invocation h b base port tag)) found s)
    popened-Ends tag port q none s k = k.1
    popened-Ends tag port q (some (pid, processes)) s k =
        (k.1.0, ((port, tag, refl, k.0.0, k.0.1), k.1.1))

    pub write-Keeps :
        (path : FilePath) (text : String) → Keeps Orderly (on_disk (write_text h.denied path text))
    write-Keeps path text =
        Runs-mono _ (λ s k. (tt {0}, k)) (λ a t (k : Unit {0} × Orderly t). k.1) (λ e t k. k)
          (on_disk-Runs h b base AllSound (λ d. Unit {0}) (λ _ d. Unit {0})
            (write_text h.denied path text)
            (λ d _.
              Ends-mono
                (λ _ d'.
                  (d' path ≡ some (file text))
                  × ((q : FilePath) → same_path q path ≡ false → d' q ≡ d q))
                (λ _ d'. Unit {0}) (λ e d'. d' ≡ d) (λ e d'. d' ≡ d)
                (write_text h.denied path text d) (λ a d' w. tt) (λ e d' w. w)
                (write_text-Ends h.denied path text d)))

    process_launch-Runs :
        (tag : Option String) (port : ℕ)
        → Runs
            (Before tag)
            (Process.launch h
              (qemu_of b port)
              (build_qemu_argv h (cached_invocation h b base port tag)))
            (λ pid. Orderly)
            (λ e. Orderly)
    unfolding Process.launch
    process_launch-Runs tag port =
        let q = qemu_of b port in
        Runs->> _ _
          (on_disk-Runs h b base AllSound (Startable tag) (λ _. Startable tag)
            (mkdir h.denied b.root) (root-Ends tag))
          (Runs->> _ _
            (record {
              run = λ s k. console_raised tag q _ (
                  (on_disk-Runs h b base AllSound (Startable tag) (λ _. Startable tag)
                      (write_text h.denied (console_log q) "") (console-Ends tag)).run
                    s k);
            })
            (Runs->>= _ _ (record { run = λ s k. popened-Ends tag port q _ s k })
              (λ pid.
                Runs->> _ _ (write-Keeps (pidfile q) (decimal pid)) (Runs-return pid (λ t k. k)))))

    start-Runs :
        (tag : Option String) (port : ℕ)
        → Runs
            (Before tag)
            (start h (qemu_of b port) (build_qemu_argv h (cached_invocation h b base port tag)))
            (λ pid. Orderly)
            (λ e. Orderly)
    unfolding start
    start-Runs tag port = record {
      run = λ s k.
          (Runs->> _ _
              (Runs-mono _ (λ t k. k) (λ a t k. k) (λ e t (k : Before tag t). k.1)
                (Keeps-refuse_if (Before tag) (is_running h (qemu_of b port) s.live) launch_failed))
              (process_launch-Runs tag port)).run
            s k;
    }

    pub launch-Runs :
        (tag : Option String)
        → Runs (Before tag) (launch h b base tag) (λ _. Orderly) (λ e. Orderly)
    unfolding launch
    launch-Runs tag =
        Runs->>= _ _
          (Runs-mono _ (λ t k. k) (λ a t k. k.1) (λ e t (k : Before tag t). k.1)
            (Runs-given (Before tag) (adb_port b)))
          (λ port. Runs->>= _ _ (start-Runs tag port) (λ pid. reach-Keeps base.accel port))
