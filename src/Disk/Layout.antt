-- ===== src/Disk/Layout.antt =====
-- The files of an instance's directory (src/beetroot/paths.py, and the lock of
-- src/beetroot/api.py).
use beetroot.Disk.{FilePath, child}

abbrev pub instance_yaml : FilePath → FilePath
instance_yaml root = child root "beetroot.yaml"

abbrev pub instance_env : FilePath → FilePath
instance_env root = child root ".env"

abbrev pub instance_compose_override : FilePath → FilePath
instance_compose_override root = child root "compose.override.yaml"

abbrev pub instance_data : FilePath → FilePath
instance_data root = child root "data"

abbrev pub instance_modules : FilePath → FilePath
instance_modules root = child root "modules"

abbrev pub instance_frida : FilePath → FilePath
instance_frida root = child root "frida-server"

abbrev pub lock_file : FilePath → FilePath
lock_file root = child root ".beetroot.lock"
