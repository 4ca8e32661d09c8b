-- ===== src/Tests/Convert.antt =====
-- An SDK, converted and shared.
use symbolserver.Prelude.{◌≡◌, refl, true}
use symbolserver.Prelude.{some, List, [], ◌∷◌}
use symbolserver.Prelude.Map
use symbolserver.Prelude.Sort.{insert_sorted, sort_by}
use symbolserver.Memdb.Types.{new_item, new_indexed_uuid, item_addr}
use symbolserver.Prelude.Order.{nat_ord, list_ord}
use symbolserver.Errors.{Str, Result, ok, err}
use symbolserver.Bytes.{Bytes}
use symbolserver.Text.{codes}
use symbolserver.Dsym.{
  from_backing, extract_file, extract_variant, variant_of, apply_commands, apply_command,
  set_segment, cursor, arch, symbols_of_types, symbols, iter, text_symbols, text_symbol,
}
use symbolserver.Memdb.Write.{
  intern, add_symbol, add_object_name, add_symbols, end_marker, sort_items, register_variant,
  variant_src, write_object_variant, write_variants, write_object,
}
use symbolserver.Memdb.Write.Flush.{dump_memdb}
use symbolserver.Sdk.Filename.{strip_archive_file_prefix}
use symbolserver.Sdk.Objects.{
  FileSystem, source_from_path, iter_try, is_ok, is_load_error, try_return_obj, remaining,
  read_zip_file, turn, next_loop, next, process_objects, objects, sdk_dump_memdb,
}
use symbolserver.Prelude.{◌≡◌, refl, true, some, List, [], ◌∷◌}
use symbolserver.Prelude.{map}
use symbolserver.Prelude.Order.{nat_ord, list_ord}
use symbolserver.Errors.{Str, Result, ok, err, panic, undefined}
use symbolserver.Bytes.{Bytes, le_bytes, write_all}
use symbolserver.Text.{codes}
use symbolserver.Dsym.{
  variant_of, apply_command, apply_commands, set_segment, text_symbol, text_symbols, cursor, arch,
  symbols_of_types, symbols, iter,
}
use symbolserver.Utils.BinSearch.{index}
use symbolserver.Memdb.Types.{
  copy_str_to_slice, set_from_sdk_info, new_indexed_uuid, new_slice, new_item, item_addr,
}
use symbolserver.Memdb.Write.Layout.{put_packed, put_header, put_slice, put_uuid, put_item}
use symbolserver.Memdb.Write.Flush.{
  check_items, put_variants, make_string_slices, write_slices, sort_uuids, sort_mapping, put_tagged,
  write_parts, header_of, rewrite_header, flush, write_objects, dump_memdb,
}
use symbolserver.Sdk.Filename.{sdk_new, from_path}
use symbolserver.Text.{to_radix, read_nonempty, read_digits, push_digit}
use symbolserver.Sdk.{memdb_filename}
use symbolserver.Text.Paths.{set_extension}
use symbolserver.Cli.{share_sdk, convert_sdk, convert_sdk_action}
use symbolserver.Cli.Converted.{Converted, convert_sdk_action-Converted}
use symbolserver.Tests.Objects.{parser, fs}

abbrev files_only : FileSystem
files_only = record fs { metadata = λ path. ok (record { is_file = true; len = 9 }) }

abbrev paths : List Str
paths = codes "/x/iOS DeviceSupport/10.2 (14C89).zip" ∷ []

ran : Result (List (Str × Bytes))
unfolding process_objects next next_loop turn is_ok iter_try read_zip_file try_return_obj
    is_load_error remaining strip_archive_file_prefix from_backing extract_file extract_variant
    variant_of apply_commands apply_command set_segment write_object write_variants variant_src
    write_object_variant arch symbols symbols_of_types cursor iter text_symbols text_symbol
    register_variant add_object_name add_symbols add_symbol intern end_marker sort_items sort_by
    insert_sorted new_item new_indexed_uuid item_addr Map.get Map.insert write_objects dump_memdb
    flush set_from_sdk_info copy_str_to_slice put_variants check_items index make_string_slices
    write_slices sort_uuids sort_mapping put_tagged write_parts header_of rewrite_header new_slice
    put_packed put_header put_slice put_uuid put_item le_bytes write_all source_from_path objects
    sdk_dump_memdb convert_sdk convert_sdk_action set_extension memdb_filename sdk_new share_sdk
    to_radix read_nonempty read_digits push_digit from_path
ran =
    convert_sdk_action parser (λ bs. bs) files_only (λ path. ok tt) (λ url id bytes. ok tt) paths
      true (some (codes "http://h/"))

abbrev files_of : Result (List (Str × Bytes)) → List (Str × Bytes)
files_of (ok files) = files
files_of (err e) = []
files_of panic = []
files_of undefined = []

ran_ok : ran ≡ ok (files_of ran)
unfolding ran
ran_ok = refl

file_names : map (λ (f : Str × Bytes). f.0) (files_of ran) ≡ codes "iOS_10.2.0_14C89.memdbz" ∷ []
unfolding ran
file_names = refl

convert_sdk_action-Converted_example :
    Converted parser (λ bs. bs) files_only true paths (files_of ran)
unfolding ran
convert_sdk_action-Converted_example =
    convert_sdk_action-Converted parser (λ bs. bs) files_only (λ path. ok tt)
      (λ url id bytes. ok tt) true (some (codes "http://h/")) paths (files_of ran) ran_ok
