-- ===== src/Vm/Waiting.antt =====
-- The waits of the micro-VM backend end: the loops of `_wait_for_adb_connect` and
-- `_wait_for_boot_completed` (src/beetroot/backends/vm.py) and of `_escalate_if_alive`
-- (src/beetroot/vm/qemu.py).
use Prim.Native.String.{String}
use beetroot.Prelude.{
  Option, none, some, [], ◌∷◌, ℕ, zero, suc, ◌+◌, ◌*◌, ◌≤◌, ◌≡◌, refl, ◌⊎◌, inl, inr, Bool, true,
  false, not, Bool-cases, arith, ap, ok, ltb, leb, Error, launch_failed, not_installed,
}
use beetroot.Prelude.Actions.{Action, ◌>>◌, refuse_if}
use beetroot.Prelude.Triples.{Ends, Ends-mono, Runs->>=}
use beetroot.Vm.{Host, Sys, Completed, sleep}
use beetroot.Vm.Process.{QemuProcess, is_running}
use beetroot.Vm.Qemu.{ResolvedAccel}
use beetroot.Vm.Backend.{
  read_boot, while_before, seen_booted, judge, adb_address, adb_connect_ok, connect_until,
  wait_for_adb_connect, adb_connect_deadline_seconds, completed_until, wait_for_boot_completed,
  boot_completed,
}

module _ (h : Host) where
  -- Why a wait for ADB gives up: the process is gone, or the time is over.
  abbrev pub GaveUp : QemuProcess → ℕ → Error → Sys → Type 0
  GaveUp proc deadline e t =
      (e ≡ launch_failed) × ((is_running h proc t.live ≡ false) ⊎ (deadline ≤ t.live.clock))

  -- The state is the one after a connection to the target that adb reported as made.
  abbrev pub Connected : String → Sys → Type 0
  Connected target t = (before : Sys) × (adb_connect_ok h target before ≡ (ok true, t))

  judge-Ends :
      (proc : QemuProcess) (deadline : ℕ) (target : String) (up runs late : Bool)
      (again : Action Sys (Unit {0})) (t : Sys)
      → (up ≡ true → Connected target t)
      → is_running h proc t.live ≡ runs
      → leb deadline t.live.clock ≡ late
      → (late ≡ false → Ends (λ _. Connected target) (GaveUp proc deadline) (again t))
      → Ends (λ _. Connected target) (GaveUp proc deadline) (judge h up runs late again t)
  judge-Ends proc deadline target true runs late again t c r l k = c refl
  judge-Ends proc deadline target false false late again t c r l k = (refl, inl r)
  judge-Ends proc deadline target false true true again t c r l k = (refl, inr (ground arith))
  judge-Ends proc deadline target false true false again t c r l k = k refl

  -- Every round ends later than it begins, so the rounds up to the deadline are enough.
  connect_until-Ends :
      (fuel deadline : ℕ) (target : String) (proc : QemuProcess) (s : Sys)
      → deadline ≤ s.live.clock + fuel * 10
      → Ends
          (λ _. Connected target)
          (GaveUp proc deadline)
          (connect_until h (suc fuel) deadline target proc s)
  unfolding connect_until adb_connect_ok
  connect_until-Ends zero deadline target proc s b =
      let t = (adb_connect_ok h target s).1 in
      let later = h.command-clock ("adb" ∷ "connect" ∷ target ∷ []) 50 s.live in
      judge-Ends proc deadline target _ _ _ _ t (λ up. (s, ap (λ u. (ok u, t)) up)) refl refl
        (λ late. absurd (ground (arith, late, later, b)))
  connect_until-Ends (suc fuel) deadline target proc s b =
      let t = (adb_connect_ok h target s).1 in
      let later = h.command-clock ("adb" ∷ "connect" ∷ target ∷ []) 50 s.live in
      judge-Ends proc deadline target _ _ _ _ t (λ up. (s, ap (λ u. (ok u, t)) up)) refl refl
        (λ late.
          connect_until-Ends fuel deadline target proc (record t { live = h.elapse 10 t.live })
            (omega (arith, later, b, h.elapse-clock 10 t.live)))

  gate-Ends :
      {A : Type 0} (there : Bool) (m : Action Sys A) (E : Error → Sys → Type 0) (C : Sys → Type 0)
      (s : Sys)
      → Ends (λ _. C) E (m s)
      → Ends
          (λ _ t. (there ≡ true) × C t)
          (λ e t. ((e ≡ not_installed) × (there ≡ false)) ⊎ E e t)
          ((refuse_if (not there) not_installed >> m) s)
  gate-Ends true m E C s k =
      Ends-mono (λ _. C) (λ _ t. (true ≡ true) × C t) E
        (λ e t. ((e ≡ not_installed) × (true ≡ false)) ⊎ E e t) (m s) (λ a t c. (refl, c))
        (λ e t. inr) k
  gate-Ends false m E C s k = inl (refl, refl)

  -- The wait for ADB ends: it returns, and adb is installed and has just reported a connection to the
  -- port; or it raises that adb is not installed; or it raises that the launch failed, and then the
  -- process does not run or the deadline has passed.
  pub wait_for_adb_connect_lem :
      (accel : ResolvedAccel) (port : ℕ) (proc : QemuProcess) (s : Sys)
      → let deadline = s.live.clock + adb_connect_deadline_seconds h accel * 10 in
        Ends
          (λ _ t. (h.on_path "adb" ≡ true) × Connected (adb_address port) t)
          (λ e t. ((e ≡ not_installed) × (h.on_path "adb" ≡ false)) ⊎ GaveUp proc deadline e t)
          (wait_for_adb_connect h accel port proc s)
  unfolding wait_for_adb_connect
  wait_for_adb_connect_lem accel port proc s =
      let budget = adb_connect_deadline_seconds h accel in
      let deadline = s.live.clock + budget * 10 in
      gate-Ends (h.on_path "adb")
        (connect_until h (suc (suc budget)) deadline (adb_address port) proc) (GaveUp proc deadline)
        (Connected (adb_address port)) s
        (connect_until-Ends (suc budget) deadline (adb_address port) proc s (omega arith))

  -- The guest has booted, or the time is over.
  abbrev pub SawOrLate : ℕ → Bool → Sys → Type 0
  SawOrLate deadline booted t = (booted ≡ true) ⊎ (deadline ≤ t.live.clock)

  while-Ends :
      (early : Bool) (deadline : ℕ) (round : Action Sys Bool) (s : Sys)
      → ltb s.live.clock deadline ≡ early
      → (early ≡ true → Ends (SawOrLate deadline) (λ e t. ⊥) (round s))
      → Ends (SawOrLate deadline) (λ e t. ⊥) (while_before h early round s)
  while-Ends true deadline round s e k = k refl
  while-Ends false deadline round s e k = inr (ground (arith, e))

  seen-Ends :
      (seen : Bool) (deadline : ℕ) (again : Action Sys Bool) (t : Sys)
      → Ends (SawOrLate deadline) (λ e u. ⊥) (again t)
      → Ends (SawOrLate deadline) (λ e u. ⊥) (seen_booted h seen again t)
  seen-Ends true deadline again t k = inl refl
  seen-Ends false deadline again t k = k

  -- a look at the guest takes no time back
  read_boot-later :
      (target : String) (res : Option Completed) (s : Sys)
      → Ends (λ booted t. s.live.clock ≤ t.live.clock) (λ e t. ⊥) (read_boot h target res s)
  read_boot-later target none s = omega arith
  read_boot-later target (some res) s = h.command-clock _ 100 s.live

  boot_completed-later :
      (target : String) (s : Sys)
      → Ends (λ booted t. s.live.clock ≤ t.live.clock) (λ e t. ⊥) (boot_completed h target s)
  unfolding boot_completed
  boot_completed-later target s =
      let first = "adb" ∷ "connect" ∷ target ∷ [] in
      let t : Sys = record s { live = (h.command first 100 s.live).1 } in
      let later = h.command-clock first 100 s.live in
      Ends-mono (λ booted u. t.live.clock ≤ u.live.clock) (λ booted u. s.live.clock ≤ u.live.clock)
        (λ e u. ⊥) (λ e u. ⊥) (read_boot h target (h.command first 100 s.live).0 t)
        (λ booted u k. omega (arith, later, k)) (λ e u k. k)
        (read_boot-later target (h.command first 100 s.live).0 t)

  completed_until-Ends :
      (fuel deadline : ℕ) (target : String) (s : Sys)
      → deadline ≤ s.live.clock + fuel * 30
      → Ends (SawOrLate deadline) (λ e t. ⊥) (completed_until h (suc fuel) deadline target s)
  unfolding completed_until
  completed_until-Ends zero deadline target s b =
      while-Ends _ deadline _ s refl (λ early. absurd (ground (arith, early, b)))
  completed_until-Ends (suc fuel) deadline target s b = while-Ends _ deadline _ s refl (λ early.
      let again = sleep h 30 >> completed_until h (suc fuel) deadline target in
      (Runs->>= {P = λ t. t ≡ s} {Q = λ booted t. s.live.clock ≤ t.live.clock}
          (boot_completed h target) (λ booted. seen_booted h booted again)
          (record { run = λ t e. rw e (boot_completed-later target s) })
          (λ booted. record {
            run = λ t later. seen-Ends booted deadline again t (
                completed_until-Ends fuel deadline target (record t { live = h.elapse 30 t.live })
                  (omega (arith, later, b, h.elapse-clock 30 t.live)));
          })).run
        s refl)

  -- The wait for the boot ends: it tells that the guest has booted, or the time is over, or adb is not
  -- installed.
  pub wait_for_boot_completed_lem :
      (port : ℕ) (s : Sys)
      → Ends
          (SawOrLate (s.live.clock + 9000))
          (λ e t. (e ≡ not_installed) × (h.on_path "adb" ≡ false))
          (wait_for_boot_completed h port s)
  unfolding wait_for_boot_completed
  wait_for_boot_completed_lem port s = elim (Bool-cases (h.on_path "adb")) [
    | inl there ↦
        let deadline = s.live.clock + 9000 in
        rw there (
          Ends-mono (SawOrLate deadline) (SawOrLate deadline) (λ e t. ⊥)
            (λ e t. (e ≡ not_installed) × (true ≡ false))
            (completed_until h 302 deadline (adb_address port) s) (λ a t k. k) (λ e t k. absurd k)
            (completed_until-Ends 301 deadline (adb_address port) s (omega arith)))
    | inr missing ↦ rw missing (refl, refl)
  ]
