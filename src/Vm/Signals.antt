-- ===== src/Vm/Signals.antt =====
-- `terminate` (src/beetroot/vm/qemu.py) signals only the QEMU of its instance.
use Prim.Native.String.{String}
use beetroot.Prelude.{
  subst, ◌⊎◌, ℕ, zero, suc, ◌+◌, ◌≤◌, ◌≡◌, refl, sym, Bool, true, false, inl, inr, Bool-cases,
  Option, none, All, some, List, ◌∷◌, arith,
}
use beetroot.Prelude.Actions.{Action, ◌>>◌, return}
use beetroot.Prelude.Triples.{Runs, Ends, Runs->>=, Runs->>, Runs-return}
use beetroot.Disk.{is_file_entry}
use beetroot.Vm.{
  unlink, Host, Sys, Stamp, Event, Signal, kill_signal, terminate_signal, started, signalled,
}
use beetroot.Vm.Files.{unlink_lem}
use beetroot.Vm.Process.{
  QemuProcess, cmdline_is_qemu, pid_is_qemu, grace, escalate_until, escalate_if_alive, terminate,
  terminate_pid, escalated, read_pid, remove_pidfile, pidfile, kill,
}

module _ (h : Host) (q : QemuProcess) (J : List (Stamp × String) → List Event → Type 0)
    (own : (hashes : List (Stamp × String)) (events : List Event) (signal : Signal) (pid : ℕ)
        (cmdline : Option String)
      → cmdline_is_qemu q.host_adb_port cmdline ≡ true
      → J hashes events
      → J hashes (signalled signal pid cmdline ∷ events)) where
  -- A condition on what the program has hashed and done.
  abbrev pub Holds : Sys → Type 0
  Holds s = J s.hashes s.events

  grace-Ends :
      (early there : Bool) (pid : ℕ) (again : Action Sys (Unit {0})) (s : Sys)
      → pid_is_qemu q pid s.live.processes ≡ there
      → Holds s
      → (early ≡ true → Ends (λ _. Holds) (λ e t. ⊥) (again s))
      → Ends (λ _. Holds) (λ e t. ⊥) (grace h q early there pid again s)
  unfolding pid_is_qemu
  grace-Ends true false pid again s e j k = j
  grace-Ends false false pid again s e j k = j
  grace-Ends true true pid again s e j k = k refl
  grace-Ends false true pid again s e j k = own s.hashes s.events kill_signal pid _ e j

  escalate_until-Ends :
      (fuel deadline pid : ℕ) (s : Sys)
      → deadline ≤ s.live.clock + fuel
      → Holds s
      → Ends (λ _. Holds) (λ e t. ⊥) (escalate_until h q (suc fuel) deadline pid s)
  unfolding escalate_until
  escalate_until-Ends zero deadline pid s b j =
      grace-Ends _ _ pid _ s refl j (λ early. absurd (ground (arith, early, b)))
  escalate_until-Ends (suc fuel) deadline pid s b j = grace-Ends _ _ pid _ s refl j (λ early.
      escalate_until-Ends fuel deadline pid (record s { live = h.elapse 1 s.live })
        (omega (arith, b, h.elapse-clock 1 s.live)) j)

  escalated-Runs :
      (pid : ℕ) (sent : Bool) → Runs Holds (escalated h q pid sent) (λ _. Holds) (λ e t. ⊥)
  unfolding escalate_if_alive
  escalated-Runs pid true =
      Runs->> _ _
        (record { run = λ s j. escalate_until-Ends 50 (s.live.clock + 50) pid s (omega arith) j })
        (Runs-return true (λ s j. j))
  escalated-Runs pid false = Runs-return false (λ s j. j)

  terminate_pid-Ends :
      (found : Option ℕ) (s : Sys)
      → Holds s
      → Ends (λ _. Holds) (λ e t. ⊥) (terminate_pid h q found s)
  unfolding pid_is_qemu
  terminate_pid-Ends none s j = j
  terminate_pid-Ends (some pid) s j =
      elim (Bool-cases (cmdline_is_qemu q.host_adb_port (s.live.processes pid))) [
        | inl e ↦ rw e (
            (escalated-Runs pid (h.kill terminate_signal pid s.live).0).run
              ((kill h q terminate_signal pid s).1)
              (own s.hashes s.events terminate_signal pid _ e j))
        | inr e ↦ rw e j
      ]

  -- the pidfile is gone, or may not be removed
  abbrev pub NoPidfile : Sys → Type 0
  NoPidfile t = (is_file_entry (t.live.disk (pidfile q)) ≡ false) ⊎ (h.denied (pidfile q) ≡ true)

  remove_pidfile-Runs : Runs Holds (remove_pidfile h q) (λ _ t. Holds t × NoPidfile t) (λ e t. ⊥)
  unfolding unlink
  remove_pidfile-Runs = record { run = λ s j. (j, unlink_lem h.denied (pidfile q) s.live.disk) }

  -- `terminate` returns; with the pidfile it has signalled at most the QEMU of its instance.
  pub terminate-Runs : Runs Holds (terminate h q) (λ sent t. Holds t × NoPidfile t) (λ e t. ⊥)
  unfolding terminate
  terminate-Runs = record {
    run = λ s j.
        (Runs->>= {P = λ t. t ≡ s} {Q = λ sent. Holds} (terminate_pid h q (read_pid q s.live.disk))
            (λ sent. remove_pidfile h q >> return sent)
            (record {
              run = λ t e.
                  subst
                    (λ u.
                      Ends (λ _. Holds) (λ e t. ⊥) (terminate_pid h q (read_pid q s.live.disk) u))
                    (sym e) (terminate_pid-Ends (read_pid q s.live.disk) s j);
            })
            (λ sent. Runs->> _ _ remove_pidfile-Runs (Runs-return sent (λ t k. k)))).run
          s refl;
  }

-- A signal went to a process that is the instance's QEMU by its command line.
abbrev pub IsOwn : QemuProcess → Event → Type 0
IsOwn q (started argv disk) = Unit
IsOwn q (signalled signal pid cmdline) = cmdline_is_qemu q.host_adb_port cmdline ≡ true

-- `terminate` ends and raises nothing; every signal that it sends goes to a process that is the QEMU
-- of its instance; and after it there is no pidfile, or it may not be removed.
pub terminate_lem :
    (h : Host) (q : QemuProcess) (s : Sys)
    → All (IsOwn q) s.events
    → Ends
        (λ sent t.
          All (IsOwn q) t.events
          × ((is_file_entry (t.live.disk (pidfile q)) ≡ false) ⊎ (h.denied (pidfile q) ≡ true)))
        (λ e t. ⊥)
        (terminate h q s)
terminate_lem h q s j =
    (terminate-Runs h q (λ hashes events. All (IsOwn q) events)
        (λ hashes events signal pid cmdline own k. (own, k))).run
      s j
