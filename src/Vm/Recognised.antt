-- ===== src/Vm/Recognised.antt =====
-- A QEMU that was started on the command line of `build_qemu_argv` is recognised by `_pid_is_qemu`
-- (both of src/beetroot/vm/qemu.py).
use Prim.Native.String.{String}
use beetroot.Prelude.{ℕ, ◌≡◌, refl, true, some, List, [], ◌∷◌, ◌++◌}
use beetroot.Prelude.Text.{◌+++◌}
use beetroot.Prelude.Words.{occurs}
use beetroot.Prelude.Occurs.{occurs-append_left, occurs-append_right, occurs-append_self}
use beetroot.Vm.{Host, Processes}
use beetroot.Vm.Qemu.{Invocation, host_forward, hostfwd, argv_before, argv_after, build_qemu_argv}
use beetroot.Vm.Process.{QemuProcess, pid_is_qemu}

-- /proc/<pid>/cmdline of a process with these arguments
abbrev pub cmdline_of : List String → String
cmdline_of [] = ""
cmdline_of (arg ∷ args) = arg +++ "\0" +++ cmdline_of args

occurs-argument :
    (t arg : String) (before after : List String)
    → occurs t arg ≡ true
    → occurs t (cmdline_of (before ++ arg ∷ after)) ≡ true
occurs-argument t arg [] after e = occurs-append_right t arg ("\0" +++ cmdline_of after) e
occurs-argument t arg (x ∷ before) after e =
    occurs-append_left t x ("\0" +++ cmdline_of (before ++ arg ∷ after)) (
      occurs-append_left t "\0" (cmdline_of (before ++ arg ∷ after))
        (occurs-argument t arg before after e))

-- If the name of the QEMU binary has `qemu-system` in it, a process that was started on the command
-- line of an invocation is recognised as the QEMU of the instance with that ADB port.
pub pid_is_qemu-build_qemu_argv :
    (h : Host) (i : Invocation) (q : QemuProcess) (pid : ℕ) (processes : Processes)
    → occurs "qemu-system" h.qemu_bin ≡ true
    → q.host_adb_port ≡ some i.host_adb_port
    → processes pid ≡ some (cmdline_of (build_qemu_argv h i))
    → pid_is_qemu q pid processes ≡ true
unfolding pid_is_qemu build_qemu_argv
pid_is_qemu-build_qemu_argv h i q pid processes bin port there =
    let forward = "user,id=net0," +++ hostfwd i.host_adb_port in
    let binary : occurs "qemu-system" (cmdline_of (build_qemu_argv h i)) ≡ true =
      occurs-append_right "qemu-system" h.qemu_bin _ bin in
    let forwarded =
      occurs-argument (host_forward i.host_adb_port) forward (argv_before h i) (argv_after h i) (
        occurs-append_left (host_forward i.host_adb_port) "user,id=net0," (hostfwd i.host_adb_port)
          (occurs-append_self (host_forward i.host_adb_port) ":5555")) in
    rw (there, port) (rw (binary, forwarded) refl)
