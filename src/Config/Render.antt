-- ===== src/Config/Render.antt =====
-- What `apply` derives from a config, in src/beetroot/config.py: the image tag, the `.env` file and
-- the compose override of the ports. Whether the host has a render node is an argument.
use beetroot.Prelude.{ℕ, String, Bool, Option, none, some, List, [], ◌∷◌, ◌++◌, map, if◌then◌else◌}
use beetroot.Prelude.Text.{◌+++◌, decimal, join}
use beetroot.Dict.{Dict, lookup, insert}
use beetroot.Ports.{ResolvedPort}
use beetroot.Config.Schema.{
  Android, Gapps, no_gapps, minimal, full, GappsVendor, litegapps, opengapps, mindthegapps,
  Rendering, gpu, software, auto_rendering, InstanceConfig,
}

abbrev pub vendor_slug : GappsVendor → String
vendor_slug litegapps = "_litegapps"
vendor_slug opengapps = "_gapps"
vendor_slug mindthegapps = "_mindthegapps"

-- the vendor of an intent that names none; `gapps: none` has none
abbrev pub default_vendor : Gapps → Option GappsVendor
default_vendor no_gapps = none
default_vendor minimal = some litegapps
default_vendor full = some opengapps

unfoldable pub resolve_gapps_vendor : Android → Option GappsVendor
resolve_gapps_vendor android = elim android.gapps_vendor [
  | some vendor ↦ some vendor
  | none ↦ default_vendor android.gapps
]

abbrev slug_of : Option GappsVendor → String
slug_of none = ""
slug_of (some vendor) = vendor_slug vendor

unfoldable pub base_image_tag : Android → String
unfolding resolve_gapps_vendor decimal
base_image_tag android =
    "redroid/redroid:"
    +++ decimal android.version
    +++ ".0.0"
    +++ slug_of (resolve_gapps_vendor android)
    +++ "_houdini_magisk"

unfoldable pub vm_redroid_image : ℕ → String
unfolding decimal
vm_redroid_image version = "redroid/redroid:" +++ decimal version +++ ".0.0-latest"

-- The argument tells whether the host has a render node.
unfoldable pub resolve_rendering : Bool → Rendering → String
resolve_rendering render_node gpu = "host"
resolve_rendering render_node software = "guest"
resolve_rendering render_node auto_rendering = if render_node then "host" else "guest"

abbrev pub stealth_path_defaults : Dict String
stealth_path_defaults =
    ("magisk_db", "/data/adb/magisk.db")
    ∷ ("modules_dir", "/data/adb/modules_update")
    ∷ ("frida_bin", "/data/local/tmp/frida-server")
    ∷ []

-- {**d, **overrides}
unfoldable pub merged : Dict String → Dict String → Dict String
unfolding insert
merged d [] = d
merged d ((k, v) ∷ overrides) = merged (insert k v d) overrides

-- resolved_paths[key]; every key that is asked for has a default
unfoldable pub path_of : String → Dict String → String
unfolding lookup
path_of key paths = elim (lookup key paths) [ none ↦ "" | some path ↦ path ]

abbrev pub optional_line : String → Option String → Dict String
optional_line key none = []
optional_line key (some value) = (key, value) ∷ []

-- The variables of the `.env` file in order.
unfoldable pub env_entries : Bool → String → InstanceConfig → Dict String → Dict String
unfolding base_image_tag decimal resolve_rendering merged path_of
env_entries render_node name cfg stealth_paths =
    let paths = merged stealth_path_defaults stealth_paths in
    (("INSTANCE_NAME", name)
      ∷ ("BASE_IMAGE", base_image_tag cfg.android)
      ∷ ("MEM_LIMIT", cfg.resources.mem)
      ∷ ("CPUS", cfg.resources.cpus)
      ∷ ("SHM_SIZE", cfg.resources.shared_mem)
      ∷ ("PIDS_LIMIT", decimal cfg.resources.pids_limit)
      ∷ ("DISPLAY_WIDTH", decimal cfg.display.width)
      ∷ ("DISPLAY_HEIGHT", decimal cfg.display.height)
      ∷ ("DISPLAY_FPS", decimal cfg.display.fps)
      ∷ ("DISPLAY_GPU", resolve_rendering render_node cfg.display.rendering)
      ∷ ("BEETROOT_DENYLIST_PACKAGES", join "," cfg.denylist)
      ∷ ("BEETROOT_MAGISK_DB", path_of "magisk_db" paths)
      ∷ ("BEETROOT_MODULES_DIR", path_of "modules_dir" paths)
      ∷ ("BEETROOT_FRIDA_BIN", path_of "frida_bin" paths)
      ∷ [])
    ++ optional_line "MEM_RESERVATION" cfg.resources.mem_reservation
    ++ optional_line "MEMSWAP_LIMIT" cfg.resources.memswap_limit

abbrev env_line : String × String → String
env_line (key, value) = key +++ "=" +++ value

-- The argument tells whether the host has a render node; no stealth paths is the empty dict.
unfoldable pub render_env : Bool → String → InstanceConfig → Dict String → String
unfolding env_entries
render_env render_node name cfg stealth_paths =
    join "\n" (map env_line (env_entries render_node name cfg stealth_paths)) +++ "\n"

abbrev port_line : ResolvedPort → String
unfolding decimal
port_line rp = "      - \"" +++ decimal rp.host +++ ":" +++ decimal rp.guest +++ "\""

unfoldable pub render_compose_ports_override : List ResolvedPort → String
unfolding decimal
render_compose_ports_override resolved =
    join "\n" ("services:" ∷ "  phone:" ∷ "    ports:" ∷ map port_line resolved) +++ "\n"
