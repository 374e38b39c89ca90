-- ===== src/Registry/Tests/Steps.antt =====
-- Processes under the registry's lock, on concrete inputs.
use beetroot.Prelude.{
  ℕ, ◌≡◌, refl, false, List, none, some, String, arith, pos, nat_eq, int_eq, string_eq,
}
use beetroot.Dict.{Dict, lookup}
use beetroot.Json.{Json, num, str, obj, end, field, field_get, dict_of, strings_of}
use beetroot.Registry.Backend.{
  parse_backend_config, validate, validate_redroid, validate_adb, validate_vm, opaque_backend,
  kind_of,
}
use beetroot.Registry.Rows.{InstanceMeta, read_rows, parse_row, validate_meta}
use beetroot.Registry.Storage.{Files, parse_registry, needs_legacy_migration}
use beetroot.Registry.Operations.{remove_row}
use beetroot.Registry.Locking.{
  Phase, idle, checking, looking, renaming, leaving, held, loaded, is_loaded, update, System,
  rename, enter_shared, pass, find_unusable, back_up, leave_shared, enter_exclusive, load, pick,
  Reached, start, next,
}
use beetroot.Registry.Serial.{Event, current, replay}
use beetroot.Registry.Interleaved.{Reached-serial}
use beetroot.Registry.Exclusion.{Exclusive}
use beetroot.Registry.Tests.Sample.{sample}
use beetroot.Registry.Tests.Document.{classes}

-- a registry of the right version with a row that has no index
abbrev bad : Json
bad = obj (
    field "version" (num (pos 3)) (
      field "instances"
        (obj (field "web" (obj (field "backend" (obj (field "kind" (str "redroid") end)) end)) end))
        end))

abbrev bad_files : Files Json
bad_files = record { registry = some bad; backup = none }

not_legacy : needs_legacy_migration sample classes bad_files ≡ false
unfolding needs_legacy_migration field_get
not_legacy = refl

unusable : parse_registry sample classes bad ≡ none
unfolding parse_registry read_rows parse_row validate_meta parse_backend_config validate
    validate_redroid validate_adb validate_vm opaque_backend kind_of field_get dict_of strings_of
    lookup
unusable = refl

abbrev Phases : Type 0
Phases = ℕ → Phase String String

abbrev both_renaming : Phases
both_renaming =
    update
      (update
        (update (update (update (update (λ _. idle) 0 checking) 1 checking) 0 looking) 1 looking) 0
        renaming)
      1 renaming

-- Two readers read the file that cannot be used before either renames it.
race :
    Reached sample classes remove_row bad_files
      (record { files = bad_files; phase = both_renaming })
unfolding update
race =
    next
      (next
        (next
          (next
            (next (next start (pick 0 refl (enter_shared (λ j. refl))))
              (pick 1 refl (enter_shared (λ j. ground arith))))
            (pick 0 refl (pass not_legacy)))
          (pick 1 refl (pass not_legacy)))
        (pick 0 refl (find_unusable bad refl unusable)))
      (pick 1 refl (find_unusable bad refl unusable))

abbrev all_left : Phases
all_left = update (update (update (update both_renaming 0 leaving) 1 leaving) 0 idle) 1 idle

abbrev renamed : Files Json
renamed = rename (rename bad_files)

-- Both rename, the second one in vain, and leave.
after_race :
    Reached sample classes remove_row bad_files (record { files = renamed; phase = all_left })
unfolding update
after_race =
    next
      (next (next (next race (pick 0 refl back_up)) (pick 1 refl back_up))
        (pick 0 refl leave_shared))
      (pick 1 refl leave_shared)

abbrev read_again : System String Json String
read_again = record {
  files = (current sample classes remove_row renamed).1;
  phase =
      update (update all_left 2 (held "box")) 2
        (loaded "box" (current sample classes remove_row renamed).0);
}

-- An operation has read.
operation : Reached sample classes remove_row bad_files read_again
unfolding update
operation =
    next (next after_race (pick 2 refl (enter_exclusive "box" (λ j. ground arith))))
      (pick 2 refl (load "box"))

Reached-serial_example :
    Exclusive read_again.phase
    × (((j : ℕ) → is_loaded (read_again.phase j) ≡ false)
        → (log : List (Event String)) × (replay sample classes remove_row log bad_files
            ≡ read_again.files))
    × ((j : ℕ) (op : String) (rows : Dict (InstanceMeta String))
        → read_again.phase j ≡ loaded op rows
        → (log : List (Event String)) × ((current sample classes remove_row
              (replay sample classes remove_row log bad_files)).0
            ≡ rows))
Reached-serial_example = Reached-serial sample classes remove_row bad_files read_again operation
