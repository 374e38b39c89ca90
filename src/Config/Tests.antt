-- ===== src/Config/Tests.antt =====
-- Loads of the `ports` of a config, on concrete inputs.
use beetroot.Prelude.{
  ℕ, ◌≡◌, ◌↔◌, refl, true, false, Option, none, some, List, [], ◌∷◌, arith, ℤ, pos, contains,
  nat_eq, string_eq, ok, err, legacy_ports_keys, guest_out_of_range, adb_missing,
}
use beetroot.Prelude.{String}
use beetroot.Prelude.Text.{decimal, decimal_from}
use beetroot.Dict.{Dict, lookup, insert}
use beetroot.Ports.{
  PortMapping, Resolution, resolve_ports, resolve_from, allot, base_of, privileged_advisory, hosts,
  well_known,
}
use beetroot.Ports.Bands.{pins}
use beetroot.Ports.Auto.{labels}
use beetroot.Ports.Spec.{auto_count, auto_slots}
use beetroot.Config.{
  RawPort, mapping, listing, absent, load_ports, migrate_legacy_ports_mapping, validate_ports,
  validate_port, check_guest_range, check_host_range, check_ports_distinct, check_required_services,
  wrong_guest, legacy_host, default_port_mappings,
}
use beetroot.Config.Load.{load_ports_resolves}
use beetroot.Config.Accepted.{Accepts, load_ports-listing_iff}
use beetroot.Config.Legacy.{FromMapping, load_ports-mapping_iff}
use beetroot.Config.Schema.{default_config, durable}
use beetroot.Config.Render.{
  env_entries, render_env, base_image_tag, resolve_gapps_vendor, resolve_rendering, merged, path_of,
}
use beetroot.Config.Variables.{overridden, env_entries_lem}
use beetroot.Config.Addresses.{lookup-well_known-load_ports}

abbrev legacy : Dict (Option ℤ)
legacy = ("frida", some (pos 9000)) ∷ ("adb", none) ∷ []

abbrev loaded_legacy : List PortMapping
loaded_legacy =
    record { service = some "adb"; guest = 5555; host = none }
    ∷ record { service = some "frida"; guest = 27042; host = some 9000 }
    ∷ record { service = some "frida_control"; guest = 27043; host = none }
    ∷ []

legacy_loads : load_ports true (mapping legacy) ≡ ok loaded_legacy
unfolding load_ports migrate_legacy_ports_mapping validate_ports validate_port check_guest_range
    check_host_range check_ports_distinct check_required_services wrong_guest legacy_host labels
    pins lookup
legacy_loads = refl

default_loads : load_ports true absent ≡ ok default_port_mappings
unfolding load_ports migrate_legacy_ports_mapping check_ports_distinct check_required_services
    wrong_guest labels pins lookup
default_loads = refl

unknown_key : load_ports false (mapping (("web", none) ∷ [])) ≡ err legacy_ports_keys
unfolding load_ports migrate_legacy_ports_mapping
unknown_key = refl

zero_port :
    load_ports false (listing (record { service = none; guest = pos 0; host = none } ∷ []))
    ≡ err guest_out_of_range
unfolding load_ports migrate_legacy_ports_mapping validate_ports validate_port check_guest_range
zero_port = refl

nothing_forwarded : load_ports false (listing []) ≡ err adb_missing
unfolding load_ports migrate_legacy_ports_mapping validate_ports check_ports_distinct
    check_required_services wrong_guest labels pins lookup
nothing_forwarded = refl

abbrev raw_list : List RawPort
raw_list =
    record { service = some "adb"; guest = pos 5555; host = some (pos 6000) }
    ∷ record { service = none; guest = pos 8080; host = none }
    ∷ []

abbrev loaded_list : List PortMapping
loaded_list =
    record { service = some "adb"; guest = 5555; host = some 6000 }
    ∷ record { service = none; guest = 8080; host = none }
    ∷ []

load_ports-listing_iff_example :
    (load_ports false (listing raw_list) ≡ ok loaded_list) ↔ Accepts false raw_list loaded_list
load_ports-listing_iff_example = load_ports-listing_iff false raw_list loaded_list

no_slots : auto_count default_port_mappings ≡ 0
unfolding auto_count auto_slots base_of lookup
no_slots = refl

load_ports_resolves_example :
    (r : Resolution) × (resolve_ports (pos 12) default_port_mappings true ≡ ok r)
load_ports_resolves_example =
    load_ports_resolves true absent default_port_mappings 12 true default_loads (ground arith)
      (refl, (refl, (refl, tt))) (ground (arith, no_slots))

load_ports-mapping_iff_example :
    (load_ports true (mapping legacy) ≡ ok loaded_legacy) ↔ FromMapping legacy loaded_legacy
load_ports-mapping_iff_example = load_ports-mapping_iff true legacy loaded_legacy

abbrev resolution : Resolution
resolution = record {
  ports =
      record { service = some "adb"; guest = 5555; host = 5575 }
      ∷ record { service = some "frida"; guest = 27042; host = 9000 }
      ∷ record { service = some "frida_control"; guest = 27043; host = 27063 }
      ∷ [];
  advisory = none;
}

legacy_resolves : resolve_ports (pos 2) loaded_legacy true ≡ ok resolution
unfolding resolve_ports resolve_from allot privileged_advisory
legacy_resolves = refl

lookup-well_known-load_ports_example :
    (h : ℕ) × (lookup "frida" (well_known resolution.ports) ≡ some h)
    × (contains h (hosts resolution.ports) ≡ true)
lookup-well_known-load_ports_example =
    lookup-well_known-load_ports true (mapping legacy) loaded_legacy 2 true resolution "frida"
      legacy_loads legacy_resolves refl

abbrev moved : Dict String
moved = ("magisk_db", "/data/x/m.db") ∷ []

env_entries_lem_example :
    let entries = env_entries true "web" (default_config durable) moved in
    (lookup "INSTANCE_NAME" entries ≡ some "web")
    × (lookup "BASE_IMAGE" entries ≡ some (base_image_tag (default_config durable).android))
    × (lookup "BEETROOT_MAGISK_DB" entries
        ≡ some (overridden "magisk_db" "/data/adb/magisk.db" moved))
    × (lookup "BEETROOT_MODULES_DIR" entries
        ≡ some (overridden "modules_dir" "/data/adb/modules_update" moved))
    × (lookup "BEETROOT_FRIDA_BIN" entries
        ≡ some (overridden "frida_bin" "/data/local/tmp/frida-server" moved))
    × (lookup "MEM_RESERVATION" entries ≡ none)
    × (lookup "MEMSWAP_LIMIT" entries ≡ none)
env_entries_lem_example = env_entries_lem true "web" (default_config durable) moved (refl, tt)

env_file :
    render_env true "web" (default_config durable) moved
    ≡ "INSTANCE_NAME=web\nBASE_IMAGE=redroid/redroid:14.0.0_litegapps_houdini_magisk\nMEM_LIMIT=3g\nCPUS=2.0\nSHM_SIZE=256m\nPIDS_LIMIT=4096\nDISPLAY_WIDTH=540\nDISPLAY_HEIGHT=960\nDISPLAY_FPS=3\nDISPLAY_GPU=host\nBEETROOT_DENYLIST_PACKAGES=com.google.android.gms,com.google.android.gms/com.google.android.gms.unstable\nBEETROOT_MAGISK_DB=/data/x/m.db\nBEETROOT_MODULES_DIR=/data/adb/modules_update\nBEETROOT_FRIDA_BIN=/data/local/tmp/frida-server\n"
unfolding render_env env_entries base_image_tag resolve_gapps_vendor decimal decimal_from
    resolve_rendering merged path_of lookup insert
env_file = refl
