-- ===== src/Api/Runs.antt =====
-- Whole calls of src/beetroot/api.py on the small machine of Api/Tests.
use beetroot.Prelude.{◌≡◌, refl, none, ok, err, string_eq, nat_eq, int_eq, bad_name}
use beetroot.Dict.{lookup, insert}
use beetroot.Json.{field_get, dict_of, strings_of}
use beetroot.Ports.{
  resolve_ports, resolve_from, allot, check_index, lowest_free_index, free_from, ports_for_index,
}
use beetroot.Ports.Bands.{pins}
use beetroot.Registry.Backend.{
  parse_backend_config, validate, validate_redroid, validate_adb, validate_vm, opaque_backend,
  kind_of, dump_backend_config,
}
use beetroot.Registry.Rows.{
  read_rows, parse_row, validate_meta, registry_to_json, rows_to_fields, row_to_json,
}
use beetroot.Registry.Storage.{
  parse_registry, read, write, initialise, list_instances, needs_legacy_migration, backup_and_warn,
  transact,
}
use beetroot.Registry.Operations.{add_row, add_allocating, get}
use beetroot.Registry.Collisions.{
  assert_no_port_collision, assert_body, resolved_host_ports_from, row_host_ports, host_set,
  find_port_collision, owner_of, without,
}
use beetroot.Registry.Tests.Document.{classes}
use beetroot.Config.Schema.{default_config, durable}
use beetroot.Disk.{exists, is_file, mkdir, write_text, blocked_from}
use beetroot.Api.{Instance, load_yaml, load_ports_at}
use beetroot.Api.Names.{is_instance_name, all_name_chars, validate_instance_name}
use beetroot.Api.Staging.{
  get_row, meta_of, all_rows, check_directory_overlap, check_port_collisions, stage_empty,
  stage_local, stage_network, stage_network_soft, rollback_partial_create,
}
use beetroot.Api.Create.{create, enroll, resolve_and_stage, write_config, write_yaml, minimal_yaml}
use beetroot.Api.Tests.{machine, world, place}

abbrev new_instance : Instance
new_instance = record { name = "new"; root = place "new"; cfg = default_config durable }

creates : (create machine classes "new" none none none "today" world).0 ≡ ok new_instance
unfolding create enroll resolve_and_stage write_config write_yaml minimal_yaml get_row meta_of
    all_rows check_directory_overlap check_port_collisions stage_empty stage_local stage_network
    stage_network_soft rollback_partial_create is_instance_name all_name_chars
    validate_instance_name load_yaml load_ports_at exists is_file mkdir write_text blocked_from
    add_row add_allocating get list_instances read write initialise transact parse_registry
    read_rows parse_row validate_meta parse_backend_config validate validate_redroid validate_adb
    validate_vm opaque_backend kind_of dump_backend_config field_get dict_of strings_of lookup
    insert needs_legacy_migration backup_and_warn resolve_ports resolve_from allot check_index
    lowest_free_index free_from ports_for_index pins assert_no_port_collision assert_body
    resolved_host_ports_from row_host_ports host_set find_port_collision owner_of without
    registry_to_json rows_to_fields row_to_json
creates = refl

rejects_name : (create machine classes "New!" none none none "today" world).0 ≡ err bad_name
unfolding create is_instance_name all_name_chars validate_instance_name
rejects_name = refl
