-- ===== src/Vm/Untouched.antt =====
-- The steps of the micro-VM backend that only wait and look: they keep what the program has hashed
-- and done.
use Prim.Native.String.{String}
use beetroot.Prelude.{
  ℕ, zero, suc, ◌+◌, ◌*◌, Bool, true, false, not, Option, none, some, List, ltb, leb, not_installed,
}
use beetroot.Prelude.Actions.{Action, ◌>>◌}
use beetroot.Prelude.Triples.{Ends, Keeps, Runs->>=, Runs->>, Keeps-refuse_if}
use beetroot.Disk.{FilePath}
use beetroot.Vm.{Host, Sys, Stamp, Event, Completed, sleep}
use beetroot.Vm.Process.{QemuProcess, is_running}
use beetroot.Vm.Qemu.{ResolvedAccel}
use beetroot.Vm.BootCache.{save_snapshot, order_savevm}
use beetroot.Vm.Backend.{
  adb_connect_deadline_seconds, adb_connect_ok, judge, connect_until, wait_for_adb_connect,
  boot_completed, read_boot, while_before, seen_booted, completed_until, wait_for_boot_completed,
  adb_address,
}

module _ (h : Host) (J : List (Stamp × String) → List Event → Type 0) where
  abbrev pub Kept : Sys → Type 0
  Kept s = J s.hashes s.events

  judge-Ends :
      (up runs late : Bool) (again : Action Sys (Unit {0})) (t : Sys)
      → Kept t
      → Ends (λ _. Kept) (λ _. Kept) (again t)
      → Ends (λ _. Kept) (λ _. Kept) (judge h up runs late again t)
  judge-Ends true runs late again t j k = j
  judge-Ends false false late again t j k = j
  judge-Ends false true true again t j k = j
  judge-Ends false true false again t j k = k

  sleep-Keeps : (ticks : ℕ) → Keeps Kept (sleep h ticks)
  sleep-Keeps ticks = record { run = λ s j. j }

  adb_connect_ok-Keeps : (target : String) → Keeps Kept (adb_connect_ok h target)
  unfolding adb_connect_ok
  adb_connect_ok-Keeps target = record { run = λ s j. j }

  connect_until-Keeps :
      (fuel deadline : ℕ) (target : String) (proc : QemuProcess)
      → Keeps Kept (connect_until h fuel deadline target proc)
  unfolding connect_until
  connect_until-Keeps zero deadline target proc = record { run = λ s j. j }
  connect_until-Keeps (suc fuel) deadline target proc = record {
    run = λ s j.
        let again = sleep h 10 >> connect_until h fuel deadline target proc in
        (Runs->>= (adb_connect_ok h target)
            (λ up t. judge h up (is_running h proc t.live) (leb deadline t.live.clock) again t)
            (adb_connect_ok-Keeps target)
            (λ up. record {
              run = λ t k.
                  judge-Ends up (is_running h proc t.live) (leb deadline t.live.clock) again t k (
                    (Runs->> _ _ (sleep-Keeps 10)
                        (connect_until-Keeps fuel deadline target proc)).run
                      t k);
            })).run
          s j;
  }

  pub wait_for_adb_connect-Keeps :
      (accel : ResolvedAccel) (port : ℕ) (proc : QemuProcess)
      → Keeps Kept (wait_for_adb_connect h accel port proc)
  unfolding wait_for_adb_connect
  wait_for_adb_connect-Keeps accel port proc = record {
    run = λ s j.
        let budget = adb_connect_deadline_seconds h accel in
        (Runs->> _ _ (Keeps-refuse_if Kept (not (h.on_path "adb")) not_installed) (
            connect_until-Keeps (suc (suc budget)) (s.live.clock + budget * 10) (adb_address port)
              proc)).run
          s j;
  }

  read_boot-Ends :
      (target : String) (res : Option Completed) (s : Sys)
      → Kept s
      → Ends (λ _. Kept) (λ _. Kept) (read_boot h target res s)
  read_boot-Ends target none s j = j
  read_boot-Ends target (some res) s j = j

  boot_completed-Keeps : (target : String) → Keeps Kept (boot_completed h target)
  unfolding boot_completed
  boot_completed-Keeps target = record { run = λ s j. read_boot-Ends target _ _ j }

  while-Ends :
      (early : Bool) (round : Action Sys Bool) (s : Sys)
      → Kept s
      → Ends (λ _. Kept) (λ _. Kept) (round s)
      → Ends (λ _. Kept) (λ _. Kept) (while_before h early round s)
  while-Ends true round s j k = k
  while-Ends false round s j k = j

  seen-Keeps :
      (seen : Bool) (again : Action Sys Bool)
      → Keeps Kept again
      → Keeps Kept (seen_booted h seen again)
  seen-Keeps true again k = record { run = λ s j. j }
  seen-Keeps false again k = record { run = λ s j. k.run s j }

  completed_until-Keeps :
      (fuel deadline : ℕ) (target : String) → Keeps Kept (completed_until h fuel deadline target)
  unfolding completed_until
  completed_until-Keeps zero deadline target = record { run = λ s j. j }
  completed_until-Keeps (suc fuel) deadline target = record {
    run = λ s j. while-Ends (ltb s.live.clock deadline) _ s j (
        (Runs->>= _ _ (boot_completed-Keeps target) (λ booted.
            seen-Keeps booted _
              (Runs->> _ _ (sleep-Keeps 30) (completed_until-Keeps fuel deadline target)))).run
          s j);
  }

  pub wait_for_boot_completed-Keeps : (port : ℕ) → Keeps Kept (wait_for_boot_completed h port)
  unfolding wait_for_boot_completed
  wait_for_boot_completed-Keeps port = record {
    run = λ s j.
        (Runs->> _ _ (Keeps-refuse_if Kept (not (h.on_path "adb")) not_installed)
            (completed_until-Keeps 302 (s.live.clock + 9000) (adb_address port))).run
          s j;
  }

  order-Ends :
      (monitor : FilePath) (banner : Option (List String)) (s : Sys)
      → Kept s
      → Ends (λ _. Kept) (λ _. Kept) (order_savevm h monitor banner s)
  order-Ends monitor none s j = j
  order-Ends monitor (some chunks) s j = j

  pub save_snapshot-Keeps : (monitor : FilePath) → Keeps Kept (save_snapshot h monitor)
  unfolding save_snapshot
  save_snapshot-Keeps monitor = record { run = λ s j. order-Ends monitor _ s j }
