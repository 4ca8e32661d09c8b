-- ===== src/Tests/Objects.antt =====
-- An SDK in an archive with an empty file, a file that is no object, and two objects.
use symbolserver.Prelude.{ℕ, ◌≤◌, ◌≡◌, refl, true, false, if◌then◌else◌}
use symbolserver.Prelude.{none, some, Option, List, [], ◌∷◌, get_elem?}
use symbolserver.Prelude.Map
use symbolserver.Prelude.Sort.{insert_sorted, sort_by}
use symbolserver.Memdb.Types.{new_item, new_indexed_uuid, item_addr}
use symbolserver.Prelude.Order.{◌=?◌, nat_ord, list_ord}
use symbolserver.Errors.{Str, Result, ok, err, ◌>>=◌, io, not_found, foreign, mach_load_error}
use symbolserver.Bytes.{Bytes}
use symbolserver.Text.{codes}
use symbolserver.Dsym.{
  MachObject, mach_file, from_backing, extract_file, extract_variant, variant_of, apply_commands,
  apply_command, set_segment, cursor, arch, symbols_of_types, symbols, iter, text_symbols,
  text_symbol,
}
use symbolserver.Memdb.Write.{
  MemDbBuilder, new_builder, intern, add_symbol, add_object_name, add_symbols, end_marker,
  sort_items, register_variant, variant_src, write_object_variant, write_variants, write_object,
}
use symbolserver.Memdb.Write.Flush.{dump_memdb}
use symbolserver.Sdk.Filename.{
  components, reverse_onto, split_on, normal, strip_archive_file_prefix,
}
use symbolserver.Sdk.Objects.{
  ZipFile, ZipArchive, DirEntry, FileSystem, zip, source_from_path, iter_try, is_ok, is_load_error,
  try_return_obj, join, join_onto, strip_prefix, remaining, file_count, read_zip_file, turn,
  next_loop, next, process_objects, Sdk, objects, sdk_dump_memdb,
}
use symbolserver.Sdk.Objects.Laws.{items, sdk_dump_memdb_lem, process_objects-le_file_count}
use symbolserver.Tests.Writer.{lib, image, info}

-- A file that starts with 1 has no object in it.
abbrev pub parser : MachObject
parser = record lib {
  parse = λ bs. if bs =? 1 ∷ [] then err (foreign mach_load_error) else ok (mach_file image);
}

abbrev files : List (Result ZipFile)
files =
    ok (record { name = codes "Symbols/empty"; contents = ok [] })
    ∷ ok (record { name = codes "Symbols/text"; contents = ok (1 ∷ []) })
    ∷ ok (record { name = codes "Symbols/usr/a"; contents = ok (2 ∷ []) })
    ∷ ok (record { name = codes "10.2/Symbols/b"; contents = ok (3 ∷ []) })
    ∷ []

abbrev answer : Option (Result ZipFile) → Result ZipFile
answer none = err (io not_found)
answer (some file) = file

abbrev pub archive : ZipArchive
archive = record { len = 4; by_index = λ idx. answer (get_elem? files idx) }

abbrev entry : Str → Bytes → Result DirEntry
entry path bytes =
    ok (record { path = path; metadata = ok (record { is_file = true; len = 1 }); mmap = ok bytes })

abbrev pub fs : FileSystem
fs = record {
  metadata = λ path. ok (record { is_file = path =? codes "a.zip"; len = 9 });
  open_file = λ path. ok [];
  zip_archive = λ bytes. ok archive;
  walk_dir = λ path.
      entry (codes "x/./10.2/Symbols/usr/a") (2 ∷ [])
      ∷ entry (codes "x/10.2/Info.plist") (1 ∷ [])
      ∷ err (io not_found)
      ∷ [];
}

abbrev sdk : Sdk
sdk = record { path = codes "a.zip"; info = info }

prefix :
    strip_prefix (join (codes "x/10.2") (codes "Symbols")) (codes "x/./10.2/Symbols/usr/a")
    ≡ some (codes "usr/a")
unfolding strip_prefix join join_onto components reverse_onto split_on normal
prefix = refl

sdk_dump_memdb_lem_example :
    sdk_dump_memdb parser (λ bs. bs) fs sdk false
    ≡ (objects fs sdk >>= λ s. dump_memdb parser (λ bs. bs) info false (items parser s))
sdk_dump_memdb_lem_example = sdk_dump_memdb_lem parser (λ bs. bs) fs sdk false

-- The loop of the dump, run to its end.
ran : Result (MemDbBuilder × ℕ)
unfolding process_objects next next_loop turn is_ok iter_try read_zip_file try_return_obj
    is_load_error remaining strip_archive_file_prefix from_backing extract_file extract_variant
    variant_of apply_commands apply_command set_segment write_object write_variants variant_src
    write_object_variant arch symbols symbols_of_types cursor iter text_symbols text_symbol
    register_variant add_object_name add_symbols add_symbol intern end_marker sort_items sort_by
    insert_sorted new_item new_indexed_uuid item_addr Map.get Map.insert
ran = process_objects parser 5 (zip archive 0) 0 (new_builder info false)

abbrev builder_of_run : Result (MemDbBuilder × ℕ) → MemDbBuilder
builder_of_run (ok (b, pos)) = b
builder_of_run _ = new_builder info false

ran_ok : ran ≡ ok (builder_of_run ran, 4)
unfolding ran
ran_ok = refl

names : (builder_of_run ran).object_names ≡ codes "/usr/a" ∷ []
unfolding ran
names = refl

process_objects-le_file_count_example : 4 ≤ file_count fs (zip archive 0)
unfolding process_objects ran
process_objects-le_file_count_example =
    process_objects-le_file_count parser fs (codes "a.zip") (zip archive 0) (new_builder info false)
      (builder_of_run ran) 4 opened ran_ok
  where
    opened : source_from_path fs (codes "a.zip") ≡ ok (zip archive 0)
    opened = unfold source_from_path in refl
