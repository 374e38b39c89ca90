-- ===== src/Vm/Cores.antt =====
-- The number of cores that a micro-VM gets (`host_physical_cores` and `resolve_smp` of
-- src/beetroot/vm/qemu.py).
use beetroot.Prelude.{
  ℕ, String, Bool, Option, none, some, List, [], ◌∷◌, ◌==◌, string_eq, nat_eq, ◌&&◌, any, length,
  min, max, if◌then◌else◌,
}
use beetroot.Prelude.Words.{split_lines, split_colon, strip}
use beetroot.Vm.{Host}

-- a physical core: the values of "physical id" and "core id"
abbrev pub Core : Type 0
Core = String × String

abbrev same_core : Core → Core → Bool
same_core a b = a.0 == b.0 && a.1 == b.1

-- cores.add(core)
abbrev add_core : Core → List Core → List Core
add_core core cores = if any (same_core core) cores then cores else core ∷ cores

-- The variables of the loop: `phys`, `core` and `cores`.
pub record Scan : Type 0 where
  pub phys : Option String
  pub core : Option String
  pub cores : List Core

-- `if phys is not None and core is not None: cores.add((phys, core))`
abbrev pub collect : Option String → Option String → List Core → List Core
collect (some phys) (some core) cores = add_core (phys, core) cores
collect (some phys) none cores = cores
collect none core cores = cores

abbrev pub scan_field : String → String → Scan → Scan
scan_field key value s =
    if key == "physical id"
    then record s { phys = some value }
    else if key == "core id"
    then record s { core = some value }
    else s

abbrev pub scan_line : Option (String × String) → Scan → Scan
scan_line none s = record { phys = none; core = none; cores = collect s.phys s.core s.cores }
scan_line (some (key, value)) s = scan_field (strip key) (strip value) s

unfoldable pub scan_lines : List String → Scan → Scan
unfolding split_colon strip
scan_lines [] s = s
scan_lines (line ∷ lines) s = scan_lines lines (scan_line (split_colon line) s)

-- `len(cores) or None`
abbrev pub counted : List Core → Option ℕ
counted [] = none
counted (core ∷ cores) = some (length (core ∷ cores))

abbrev pub empty_scan : Scan
empty_scan = record { phys = none; core = none; cores = [] }

abbrev pub cores_of : Scan → List Core
cores_of s = collect s.phys s.core s.cores

-- _cpuinfo_physical_cores
unfoldable pub cpuinfo_physical_cores : Option String → Option ℕ
unfolding scan_lines split_lines
cpuinfo_physical_cores none = none
cpuinfo_physical_cores (some text) = counted (cores_of (scan_lines (split_lines text) empty_scan))

-- `os.cpu_count() or 1`
abbrev or_one : Option ℕ → ℕ
or_one none = 1
or_one (some n) = if n == 0 then 1 else n

-- _affinity_cpu_count: the length of `sched_getaffinity`, where the platform has it
unfoldable pub affinity_cpu_count : Option ℕ → Option ℕ → ℕ
affinity_cpu_count (some affinity) cpu_count = max 1 affinity
affinity_cpu_count none cpu_count = max 1 (or_one cpu_count)

abbrev capped_cores : Option ℕ → ℕ → ℕ
capped_cores none logical = max 1 logical
capped_cores (some physical) logical = max 1 (min physical logical)

unfoldable pub host_physical_cores : Host → ℕ
unfolding cpuinfo_physical_cores affinity_cpu_count
host_physical_cores h =
    capped_cores (cpuinfo_physical_cores h.cpuinfo) (affinity_cpu_count h.affinity h.cpu_count)

-- The configured number, or `none` for "auto".
unfoldable pub resolve_smp : Host → Option ℕ → ℕ
unfolding host_physical_cores
resolve_smp h none = host_physical_cores h
resolve_smp h (some configured) = configured
