-- ===== src/Compose.antt =====
-- The calls of `docker compose` (src/beetroot/compose.py): the command lines, the errors of the
-- lifecycle verbs and the status of an instance.
pub mod Tests
pub mod Status
use Prim.Native.String.{String}
use beetroot.Prelude.{
  ℕ, Bool, true, false, ◌&&◌, ◌||◌, not, Option, none, some, List, [], ◌∷◌, ◌++◌, any, ◌==◌,
  string_eq, nat_eq, Result, ok, err, ◌>>=◌, ◌>>◌, raise_if, compose_failed, os_error, Error,
  if◌then◌else◌,
}
use beetroot.Prelude.Words.{lowered, occurs, strip, split_lines}
use beetroot.Dict.{Dict, lookup}
use beetroot.Json.{Json, str, obj, Fields, field_get}
use beetroot.Disk.{FilePath, Disk, is_file}
use beetroot.Disk.Layout.{instance_compose_override, instance_env}

-- subprocess.CompletedProcess
pub record Finished : Type 0 where
  pub returncode : ℕ
  pub stdout : String
  pub stderr : String

-- what a run with a timeout ends in: it returns, or the timeout is over, or an OSError is raised
pub data Ran : Type 0 where
  finished : Finished → Ran
  timed_out : Ran
  not_started : Ran

-- What the module asks of the host: the binary and whether it is on PATH, the bundled compose file,
-- `str(path)`, a run of a command line in a directory, which gives nothing on an OSError, and one
-- with a timeout in seconds, `json.loads`, and `str(value)` of a value that is no text.
pub record Docker : Type 0 where
  pub docker_bin : String
  pub on_path : String → Bool
  pub bundled_compose_file : String
  pub show_path : FilePath → String
  pub execute : List String → FilePath → Option Finished
  pub execute_within : ℕ → List String → FilePath → Ran
  pub loads : String → Option Json
  pub show_value : Json → String

pub data ComposeStatus : Type 0 where
  running exited starting created paused not_created docker_unreachable unknown : ComposeStatus

abbrev pub daemon_unreachable_markers : List String
daemon_unreachable_markers =
    "cannot connect to the docker daemon" ∷ "failed to connect to the docker" ∷ []

abbrev pub state_to_status : Dict ComposeStatus
state_to_status =
    ("running", running)
    ∷ ("exited", exited)
    ∷ ("starting", starting)
    ∷ ("created", created)
    ∷ ("paused", paused)
    ∷ ("restarting", starting)
    ∷ ("dead", exited)
    ∷ ("removing", exited)
    ∷ []

module _ (d : Docker) where
  -- _ensure_docker
  unfoldable pub ensure_docker : Result (Unit {0})
  ensure_docker = raise_if (not (d.on_path d.docker_bin)) compose_failed

  abbrev override_args : FilePath → Disk → List String
  override_args root disk =
      if is_file (instance_compose_override root) disk
      then "-f" ∷ d.show_path (instance_compose_override root) ∷ []
      else []

  -- _base_cmd
  unfoldable pub base_cmd : String → FilePath → Disk → Result (List String)
  unfolding ensure_docker is_file
  base_cmd name root disk = do
    ensure_docker
    ok (
        (d.docker_bin ∷ "compose" ∷ "-p" ∷ name ∷ "-f" ∷ d.bundled_compose_file ∷ [])
        ++ (override_args root disk
            ++ ("--project-directory"
                ∷ d.show_path root
                ∷ "--env-file"
                ∷ d.show_path (instance_env root)
                ∷ [])))

  -- The first argument runs the command line.
  unfoldable pub run :
      {A : Type 0}
      → (List String → FilePath → Result A)
      → String
      → FilePath
      → Disk
      → List String
      → Result A
  unfolding base_cmd
  run execute name root disk args = do cmd ← base_cmd name root disk; execute (cmd ++ args) root

  abbrev started : Option Finished → Result Finished
  started none = err os_error
  started (some res) = ok res

  abbrev plainly : List String → FilePath → Result Finished
  plainly cmd root = started (d.execute cmd root)

  abbrev started_within : Ran → Result Ran
  started_within not_started = err os_error
  started_within timed_out = ok timed_out
  started_within (finished res) = ok (finished res)

  abbrev pub within : ℕ → List String → FilePath → Result Ran
  within timeout cmd root = started_within (d.execute_within timeout cmd root)

  -- `if res.returncode != 0: raise`
  abbrev check : Finished → Result (Unit {0})
  check res = raise_if (not (res.returncode == 0)) compose_failed

  unfoldable pub up : String → FilePath → Disk → Result (Unit {0})
  unfolding run
  up name root disk = do res ← run plainly name root disk ("up" ∷ "-d" ∷ []); check res

  unfoldable pub down : String → FilePath → Bool → Disk → Result (Unit {0})
  unfolding run
  down name root volumes disk = do
    res ← run plainly name root disk ("down" ∷ (if volumes then "--volumes" ∷ [] else []))
    check res

  -- With `follow` the exit status is not read.
  abbrev follow_check : Bool → Finished → Result (Unit {0})
  follow_check true res = ok tt
  follow_check false res = check res

  unfoldable pub logs : String → FilePath → Bool → Disk → Result (Unit {0})
  unfolding run
  logs name root follow disk = do
    res ← run plainly name root disk ("logs" ∷ (if follow then "-f" ∷ [] else []))
    follow_check follow res

  unfoldable pub build : String → FilePath → Disk → Result (Unit {0})
  unfolding run
  build name root disk = do res ← run plainly name root disk ("build" ∷ []); check res

  abbrev pub unreachable_text : String → Bool
  unreachable_text error_text =
      any (λ marker. occurs marker (lowered error_text)) daemon_unreachable_markers

  abbrev pub status_of : Option ComposeStatus → ComposeStatus
  status_of none = unknown
  status_of (some status) = status

  -- str(entry.get("State", ""))
  abbrev pub state_text : Option Json → String
  state_text none = ""
  state_text (some (str s)) = s
  state_text (some value) = d.show_value value

  -- the state of a line, lowered; empty where the line is no object
  abbrev pub line_state : Option Json → String
  line_state (some (obj fields)) = lowered (state_text (field_get "State" fields))
  line_state _ = ""

  -- the status of the first line that has a state
  unfoldable pub scan_states : List String → ComposeStatus
  unfolding lowered field_get lookup
  scan_states [] = not_created
  scan_states (line ∷ lines) =
      let rest = scan_states lines in
      let state = line_state (d.loads line) in
      if state == "" then rest else status_of (lookup state state_to_status)

  abbrev pub listed_status : String → ComposeStatus
  listed_status out = if strip out == "" then not_created else scan_states (split_lines (strip out))

  abbrev pub finished_status : Finished → ComposeStatus
  finished_status res =
      if res.returncode == 0
      then listed_status res.stdout
      else if unreachable_text res.stderr
      then docker_unreachable
      else not_created

  abbrev pub status_from : Ran → ComposeStatus
  status_from (finished res) = finished_status res
  status_from timed_out = docker_unreachable
  status_from not_started = docker_unreachable

  abbrev is_compose_error : Error → Bool
  is_compose_error compose_failed = true
  is_compose_error _ = false

  -- `except (ComposeError, TimeoutExpired)`: an OSError of the run is raised
  abbrev pub ran_status : Result Ran → Result ComposeStatus
  ran_status (ok res) = ok (status_from res)
  ran_status (err e) = if is_compose_error e then ok docker_unreachable else err e

  unfoldable pub ps_status : String → FilePath → Disk → Result ComposeStatus
  unfolding run scan_states strip split_lines occurs
  ps_status name root disk =
      ran_status (run (within 20) name root disk ("ps" ∷ "--format" ∷ "json" ∷ []))
