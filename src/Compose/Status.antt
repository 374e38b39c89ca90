-- ===== src/Compose/Status.antt =====
-- What `ps_status` (src/beetroot/compose.py) reports, by what docker printed.
use Prim.Native.String.{String}
use beetroot.Prelude.{
  ◌≡◌, ◌≢◌, ◌↔◌, ap, true, Bool-cases, inl, inr, List, [], ◌∷◌, ◌++◌, arith, ◌==◌, string_eq,
  nat_eq, eq_iff, nat_beq_iff, Result, ok_injective, ok, if◌then◌else◌,
}
use beetroot.Prelude.Words.{strip, split_lines}
use beetroot.Dict.{lookup}
use beetroot.Disk.{FilePath, Disk}
use beetroot.Compose.{
  Docker, Finished, finished, ComposeStatus, running, docker_unreachable, state_to_status,
  status_of, line_state, scan_states, listed_status, unreachable_text, finished_status, base_cmd,
  run, ps_status,
}

module _ (d : Docker) where
  -- the status of a state is never that the daemon is unreachable
  status_of-ne :
      (state : String) → status_of d (lookup state state_to_status) ≡ docker_unreachable → ⊥
  unfolding lookup
  status_of-ne state e = ground (arith, e)

  -- and it is `running` for that word only
  status_of-running :
      (state : String)
      → (status_of d (lookup state state_to_status) ≡ running) ↔ (state ≡ "running")
  unfolding lookup
  status_of-running state =
      ground (arith, eq_iff state "running", eq_iff state "exited", eq_iff state "starting")

  -- the first state that the lines have
  abbrev pub first_state : List String → String
  first_state [] = ""
  first_state (line ∷ lines) =
      let rest = first_state lines in
      if line_state d (d.loads line) == "" then rest else line_state d (d.loads line)

  scan_states-ne : (lines : List String) → scan_states d lines ≡ docker_unreachable → ⊥
  unfolding scan_states
  scan_states-ne [] e = cc (e)
  scan_states-ne (line ∷ lines) e = elim (Bool-cases (line_state d (d.loads line) == "")) [
    | inl b ↦ scan_states-ne lines (rw b at e)
    | inr b ↦ status_of-ne (line_state d (d.loads line)) (rw b at e)
  ]

  scan_states-running :
      (lines : List String) → (scan_states d lines ≡ running) ↔ (first_state lines ≡ "running")
  unfolding scan_states
  scan_states-running [] = (λ e. cc (e), λ e. absurd (ground (arith, e, eq_iff "" "running")))
  scan_states-running (line ∷ lines) = elim (Bool-cases (line_state d (d.loads line) == "")) [
    | inl b ↦ rw b (scan_states-running lines)
    | inr b ↦ rw b (status_of-running (line_state d (d.loads line)))
  ]

  -- the lines that docker printed
  abbrev pub printed : String → List String
  printed out = if strip out == "" then [] else split_lines (strip out)

  listed-ne : (out : String) → listed_status d out ≡ docker_unreachable → ⊥
  listed-ne out e = elim (Bool-cases (strip out == "")) [
    | inl b ↦ cc (rw b at e)
    | inr b ↦ scan_states-ne (split_lines (strip out)) (rw b at e)
  ]

  listed-running :
      (out : String) → (listed_status d out ≡ running) ↔ (first_state (printed out) ≡ "running")
  unfolding scan_states
  listed-running out = elim (Bool-cases (strip out == "")) [
    | inl b ↦ rw b (scan_states-running [])
    | inr b ↦ rw b (scan_states-running (split_lines (strip out)))
  ]

  finished-unreachable :
      (res : Finished)
      → (finished_status d res ≡ docker_unreachable)
        ↔ ((res.returncode ≢ 0) × (unreachable_text d res.stderr ≡ true))
  finished-unreachable res = elim (Bool-cases (res.returncode == 0)) [
    | inl b ↦ rw b (
      λ e. absurd (listed-ne res.stdout e),
      λ k. absurd (k.0 ((nat_beq_iff res.returncode 0).0 b)),
    )
    | inr b ↦ rw b (ground (arith, nat_beq_iff res.returncode 0, b))
  ]

  finished-running :
      (res : Finished)
      → (finished_status d res ≡ running)
        ↔ ((res.returncode ≡ 0) × (first_state (printed res.stdout) ≡ "running"))
  finished-running res = elim (Bool-cases (res.returncode == 0)) [
    | inl b ↦
        let zero_code = (nat_beq_iff res.returncode 0).0 b in
        let listed = listed-running res.stdout in
        rw b (λ e. (zero_code, listed.0 e), λ k. listed.1 k.1)
    | inr b ↦ rw b (
      λ e. absurd (ground (arith, e)),
      λ k. absurd (ground (arith, nat_beq_iff res.returncode 0, b, k.0)),
    )
  ]

  ok_iff :
      {P : Type 0} (s t : ComposeStatus)
      → (s ≡ t) ↔ P
      → (◌≡◌ {A = Result ComposeStatus} (ok s) (ok t)) ↔ P
  ok_iff s t k = (λ e. k.0 (ok_injective s t e), λ p. ap ok (k.1 p))

  -- Where docker is on PATH and `docker compose ps` ends within its timeout: the status is that the
  -- daemon cannot be reached exactly if the exit is not zero and the error text has a marker of that,
  -- and it is `running` exactly if the exit is zero and the first state that is printed is that, in
  -- letters of either case.
  pub ps_status_lem :
      (name : String) (root : FilePath) (disk : Disk) (cmd : List String) (res : Finished)
      → base_cmd d name root disk ≡ ok cmd
      → d.execute_within 20 (cmd ++ "ps" ∷ "--format" ∷ "json" ∷ []) root ≡ finished res
      → ((ps_status d name root disk ≡ ok docker_unreachable)
          ↔ ((res.returncode ≢ 0) × (unreachable_text d res.stderr ≡ true)))
        × ((ps_status d name root disk ≡ ok running)
            ↔ ((res.returncode ≡ 0) × (first_state (printed res.stdout) ≡ "running")))
  unfolding ps_status run
  ps_status_lem name root disk cmd res found ran =
      rw (found, ran)
        (
          ok_iff (finished_status d res) docker_unreachable (finished-unreachable res),
          ok_iff (finished_status d res) running (finished-running res),
        )
