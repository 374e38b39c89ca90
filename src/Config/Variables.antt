-- ===== src/Config/Variables.antt =====
-- The variables that `render_env` of src/beetroot/config.py writes.
use beetroot.Prelude.{
  String, ◌≡◌, refl, ap, ◌∙◌, Bool, Option, none, some, [], ◌∷◌, ◌++◌, arith, ◌==◌, string_eq,
  eq_iff, Distinct, inl, inr, Bool-cases,
}
use beetroot.Dict.{Dict, keys, lookup, insert, member-lookup, lookup-insert}
use beetroot.Config.Schema.{InstanceConfig}
use beetroot.Config.Render.{
  env_entries, merged, path_of, stealth_path_defaults, optional_line, base_image_tag,
}
use beetroot.Prelude.Maybe.{or_else}

merged-lookup :
    (key : String) (d overrides : Dict String)
    → Distinct (keys overrides)
    → lookup key (merged d overrides) ≡ or_else (lookup key overrides) (lookup key d)
unfolding merged lookup
merged-lookup key d [] h = refl
merged-lookup key d ((k, v) ∷ overrides) h = elim (Bool-cases (key == k)) [
  | inl same ↦ rw same (
      merged-lookup key (insert k v d) overrides h.1
      ∙ ap (λ o. or_else o (lookup key (insert k v d)))
          (member-lookup key overrides (ground (arith, eq_iff key k)))
      ∙ lookup-insert key k v d
      ∙ rw same)
  | inr other ↦ rw other (
      merged-lookup key (insert k v d) overrides h.1
      ∙ ap (or_else (lookup key overrides)) (lookup-insert key k v d ∙ rw other))
]

abbrev pub overridden : String → String → Dict String → String
overridden key default stealth_paths = elim (lookup key stealth_paths) [
  | none ↦ default
  | some path ↦ path
]

path_of-merged :
    (key default : String) (stealth_paths : Dict String)
    → Distinct (keys stealth_paths)
    → lookup key stealth_path_defaults ≡ some default
    → path_of key (merged stealth_path_defaults stealth_paths)
      ≡ overridden key default stealth_paths
unfolding path_of
path_of-merged key default stealth_paths h d =
    ground (arith, merged-lookup key stealth_path_defaults stealth_paths h)

optional_limits :
    (reservation swap : Option String)
    → let limits =
        optional_line "MEM_RESERVATION" reservation ++ optional_line "MEMSWAP_LIMIT" swap in
      (lookup "MEM_RESERVATION" limits ≡ reservation) × (lookup "MEMSWAP_LIMIT" limits ≡ swap)
unfolding lookup
optional_limits none none = (refl, refl)
optional_limits none (some t) = (refl, refl)
optional_limits (some s) none = (refl, refl)
optional_limits (some s) (some t) = (refl, refl)

module _ (render_node : Bool) (name : String) (cfg : InstanceConfig)
    (stealth_paths : Dict String) where
  abbrev entries : Dict String
  entries = env_entries render_node name cfg stealth_paths

  -- The variables of the `.env` file, where no stealth path occurs twice: each path variable has
  -- the stealth path of its key, or else the default; the image is that of the android section;
  -- and the two optional limits are there exactly if the config sets them, with its value.
  pub env_entries_lem :
      Distinct (keys stealth_paths)
      → (lookup "INSTANCE_NAME" entries ≡ some name)
        × (lookup "BASE_IMAGE" entries ≡ some (base_image_tag cfg.android))
        × (lookup "BEETROOT_MAGISK_DB" entries
            ≡ some (overridden "magisk_db" "/data/adb/magisk.db" stealth_paths))
        × (lookup "BEETROOT_MODULES_DIR" entries
            ≡ some (overridden "modules_dir" "/data/adb/modules_update" stealth_paths))
        × (lookup "BEETROOT_FRIDA_BIN" entries
            ≡ some (overridden "frida_bin" "/data/local/tmp/frida-server" stealth_paths))
        × (lookup "MEM_RESERVATION" entries ≡ cfg.resources.mem_reservation)
        × (lookup "MEMSWAP_LIMIT" entries ≡ cfg.resources.memswap_limit)
  unfolding env_entries lookup
  env_entries_lem h = (
    refl,
    refl,
    ap some (path_of-merged "magisk_db" _ stealth_paths h refl),
    ap some (path_of-merged "modules_dir" _ stealth_paths h refl),
    ap some (path_of-merged "frida_bin" _ stealth_paths h refl),
    (optional_limits cfg.resources.mem_reservation cfg.resources.memswap_limit).0,
    (optional_limits cfg.resources.mem_reservation cfg.resources.memswap_limit).1,
  )
