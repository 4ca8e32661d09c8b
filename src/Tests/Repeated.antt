-- ===== src/Tests/Repeated.antt =====
-- Two objects with one UUID and a third with another: the place of a name in a written file is not
-- the place of its UUID.
use symbolserver.Prelude.{◌≡◌, refl, false, some, [], ◌∷◌}
use symbolserver.Prelude.{replicate}
use symbolserver.Prelude.Order.{nat_ord, list_ord}
use symbolserver.Prelude.Map
use symbolserver.Prelude.Sort.{insert_sorted, sort_by}
use symbolserver.Errors.{Result, ok, panic}
use symbolserver.Bytes.{Bytes, le_bytes, write_all}
use symbolserver.Text.{codes, is_utf8}
use symbolserver.Dsym.{
  Object, text_symbol, text_symbols, cursor, arch, symbols_of_types, symbols, iter,
}
use symbolserver.Utils.BinSearch.{index}
use symbolserver.Memdb.Types.{
  copy_str_to_slice, set_from_sdk_info, new_indexed_uuid, new_slice, new_item, item_addr,
}
use symbolserver.Memdb.Write.{
  intern, add_symbol, add_object_name, add_symbols, end_marker, sort_items, register_variant,
  variant_src, write_object_variant, write_variants, write_object,
}
use symbolserver.Memdb.Write.Layout.{put_packed, put_header, put_slice, put_uuid, put_item}
use symbolserver.Memdb.Write.Flush.{
  check_items, put_variants, make_string_slices, write_slices, sort_uuids, sort_mapping, put_tagged,
  write_parts, header_of, rewrite_header, flush, write_objects, dump_memdb,
}
use symbolserver.Memdb.Lookup.{find_uuid, find_loop}
use symbolserver.Memdb.Read.{
  MemDb, get_cstr, until_nul, uuids, header, get_slice, get_data, read_header, read_packed,
  read_uuid,
}
use symbolserver.Bytes.{of_le, records}
use symbolserver.Tests.Writer.{lib, object, info, var, bytes_of}

abbrev other : Object
other = record object { variants = record var { uuid = some (replicate 16 9) } ∷ [] }

repeated : Result Bytes
unfolding write_objects write_object write_variants variant_src write_object_variant arch symbols
    symbols_of_types cursor iter text_symbols text_symbol register_variant add_object_name
    add_symbols add_symbol intern end_marker sort_items sort_by insert_sorted new_item
    new_indexed_uuid item_addr Map.get Map.insert
repeated =
    dump_memdb lib (λ bs. bs) info false
      (ok (codes "o", object) ∷ ok (codes "p", object) ∷ ok (codes "q", other) ∷ [])

abbrev file_db : MemDb
file_db = record { info = info; backing = bytes_of repeated }

-- The second name gets the UUID of the third object, and the third name is out of range.
find_uuid_runs :
    (find_uuid file_db (codes "o") (codes "x86") ≡ ok (some (replicate 16 7)))
    × (find_uuid file_db (codes "p") (codes "x86") ≡ ok (some (replicate 16 9)))
    × (find_uuid file_db (codes "q") (codes "x86") ≡ panic)
unfolding repeated find_uuid find_loop get_cstr until_nul uuids header get_slice get_data
    read_header read_packed read_uuid of_le records is_utf8 dump_memdb flush set_from_sdk_info
    copy_str_to_slice put_variants check_items index make_string_slices write_slices sort_uuids
    sort_mapping put_tagged write_parts header_of rewrite_header new_slice put_packed put_header
    put_slice put_uuid put_item le_bytes write_all sort_by insert_sorted
find_uuid_runs = (refl, refl, refl)
