-- ===== src/Compose/Tests.antt =====
-- `docker compose ps` on a host whose docker prints one line.
use Prim.Native.String.{String}
use beetroot.Prelude.{
  ◌≡◌, ◌≢◌, ◌↔◌, refl, true, none, some, [], ◌∷◌, ok, err, ◌==◌, string_eq, List, if◌then◌else◌,
  compose_failed,
}
use beetroot.Json.{str, obj, field, end}
use beetroot.Disk.{FilePath, Disk}
use beetroot.Compose.{
  Docker, Finished, finished, running, docker_unreachable, unreachable_text, base_cmd, up,
  ps_status,
}
use beetroot.Compose.Status.{first_state, printed, ps_status_lem}

abbrev printed_line : Finished
printed_line = record { returncode = 0; stdout = "{web}\n"; stderr = "" }

abbrev docker : Docker
docker = record {
  docker_bin = "docker";
  on_path = λ binary. binary == "docker";
  bundled_compose_file = "/usr/share/compose.yaml";
  show_path = λ path. "/srv/web";
  execute = λ cmd root. some (record { returncode = 1; stdout = ""; stderr = "no such service" });
  execute_within = λ timeout cmd root. finished printed_line;
  loads = λ line. if line == "{web}" then some (obj (field "State" (str "Running") end)) else none;
  show_value = λ value. "?";
}

abbrev root : FilePath
root = "srv" ∷ "web" ∷ []

abbrev disk : Disk
disk q = none

abbrev command : List String
command =
    "docker" ∷ "compose" ∷ "-p" ∷ "web" ∷ "-f" ∷ "/usr/share/compose.yaml" ∷ "--project-directory"
    ∷ "/srv/web" ∷ "--env-file" ∷ "/srv/web" ∷ []

base : base_cmd docker "web" root disk ≡ ok command
unfolding base_cmd
base = refl

ps_status_lem_example :
    ((ps_status docker "web" root disk ≡ ok docker_unreachable)
      ↔ ((printed_line.returncode ≢ 0) × (unreachable_text docker printed_line.stderr ≡ true)))
    × ((ps_status docker "web" root disk ≡ ok running) ↔ (
        (printed_line.returncode ≡ 0)
        × (first_state docker (printed docker printed_line.stdout) ≡ "running")))
ps_status_lem_example = ps_status_lem docker "web" root disk command printed_line base refl

-- The state is read in letters of either case.
runs_now : ps_status docker "web" root disk ≡ ok running
unfolding ps_status
runs_now = refl

up_fails : up docker "web" root disk ≡ err compose_failed
unfolding up
up_fails = refl
