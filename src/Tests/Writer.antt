-- ===== src/Tests/Writer.antt =====
-- A dump of one object with two symbols, and lookups in the file that it wrote.
use symbolserver.Prelude.{
  ℕ, ◌^◌, ◌<◌, ◌≤◌, ◌≡◌, refl, arith, true, false, none, some, List, [], ◌∷◌,
}
use symbolserver.Prelude.{length, replicate, All, map}
use symbolserver.Prelude.Order.{nat_ord, list_ord}
use symbolserver.Prelude.Map
use symbolserver.Prelude.Sort.{insert_sorted, sort_by}
use symbolserver.Errors.{Str, Result, ok, err, panic, undefined, ◌>>=◌}
use symbolserver.Bytes.{Bytes, le_bytes, write_all}
use symbolserver.Text.{codes, is_utf8, trim_zeros}
use symbolserver.Sdk.{SdkInfo}
use symbolserver.Dsym.{
  MachObject, MachFile, Object, Variant, Section, uuid_command, segment64, mach_file, defined,
  not_defined, variant_of, apply_command, apply_commands, set_segment, text_symbol, text_symbols,
  cursor, arch, symbols_of_types, symbols, iter,
}
use symbolserver.Utils.BinSearch.{index}
use symbolserver.Memdb.Types.{
  Uuid, IndexItem, copy_str_to_slice, set_from_sdk_info, no_symbol, new_indexed_uuid, new_slice,
  new_item, item_addr,
}
use symbolserver.Memdb.Types.Laws.{IsPackable}
use symbolserver.Memdb.Read.{load_memdb}
use symbolserver.Memdb.Lookup.{lookup_by_uuid}
use symbolserver.Memdb.Write.{
  MemDbBuilder, new_builder, intern, add_symbol, add_object_name, add_symbols, end_marker,
  sort_items, register_variant, variant_src, write_object_variant, write_variants, write_object,
}
use symbolserver.Memdb.Write.Layout.{put_packed, put_header, put_slice, put_uuid, put_item}
use symbolserver.Memdb.Write.Flush.{
  check_items, put_variants, make_string_slices, write_slices, sort_uuids, sort_mapping, put_tagged,
  write_parts, header_of, rewrite_header, flush, write_objects, dump_memdb,
}
use symbolserver.Memdb.Write.Invariant.{IsWritten, IsSmall}
use symbolserver.Memdb.Write.RoundTrip.{symbol_at, item_symbol}
use symbolserver.Memdb.Write.Named.{named, placed, map-add_symbols}
use symbolserver.Memdb.Write.Steps.{new_builder-IsWritten}
use symbolserver.Memdb.Write.Lookups.{flush_total, load_memdb-flush, lookup_by_uuid-flush_absent}
use symbolserver.Utils.BinSearch.Laws.{last_le}
use mathlib.Core.Option.{some-injective}
use symbolserver.Memdb.Write.Dump.{HasTexts, IsEntry, write_objects-IsWritten}
use symbolserver.Memdb.Write.Answers.{dump_memdb_total, lookup_by_uuid-dump_memdb}

abbrev text : Section
text = record { sectname = codes "__text"; segname = codes "__TEXT" }

abbrev uuid : Uuid
uuid = replicate 16 7

abbrev pub image : MachFile
image = record {
  cputype = 7;
  cpusubtype = 3;
  commands = uuid_command uuid ∷ segment64 (codes "__TEXT") 4096 64 ∷ [];
}

abbrev pub lib : MachObject
lib = record {
  parse = λ bs. ok (mach_file image);
  symbol_table = λ m bs. some (
      defined (some (codes "g")) (some text) 4128
      ∷ defined (some (codes "f")) (some text) 4112
      ∷ not_defined
      ∷ []);
  arch_name = λ a b. some (codes "x86");
  arch_types = λ name. some (7, 3);
}

abbrev pub var : Variant
var = record {
  cputype = 7;
  cpusubtype = 3;
  uuid = some uuid;
  name = none;
  vmaddr = 4096;
  vmsize = 64;
}

image-var : variant_of image ≡ var
unfolding variant_of apply_commands apply_command set_segment
image-var = refl

abbrev pub object : Object
object = record { backing = []; ofile = mach_file image; variants = var ∷ [] }

abbrev pub info : SdkInfo
info = record {
  name = codes "iOS";
  version_major = 10;
  version_minor = 2;
  version_patchlevel = 0;
  build = some (codes "14C89");
}

abbrev objects : List (Result (Str × Object))
objects = ok (codes "o", object) ∷ []

abbrev items : List IndexItem
items =
    record { addr_low = 16; addr_high = 0; src_id = 0; sym_id = 1 }
    ∷ record { addr_low = 32; addr_high = 0; src_id = 0; sym_id = 0 }
    ∷ record { addr_low = 64; addr_high = 0; src_id = 0; sym_id = 4294967295 }
    ∷ []

-- The builder behind the one object.
abbrev builder : MemDbBuilder
builder = record {
  info = info;
  symbols = codes "g" ∷ codes "f" ∷ [];
  symbols_map = (codes "g", 0) ∷ (codes "f", 1) ∷ [];
  object_names = codes "o" ∷ [];
  object_names_map = (codes "o", 0) ∷ [];
  object_uuid_mapping = (codes "o:x86", uuid) ∷ [];
  variant_uuids = record { uuid = uuid; idx = 0 } ∷ [];
  variant_uuids_seen = uuid ∷ [];
  variants = items ∷ [];
  symbol_count = 3;
  compress = false;
}

builder_written : write_objects lib objects (new_builder info false) ≡ ok builder
unfolding write_objects write_object write_variants variant_src write_object_variant arch symbols
    symbols_of_types cursor iter text_symbols text_symbol register_variant add_object_name
    add_symbols add_symbol intern end_marker sort_items sort_by insert_sorted new_item
    new_indexed_uuid item_addr Map.get Map.insert
builder_written = refl

output : Result Bytes
unfolding dump_memdb flush set_from_sdk_info copy_str_to_slice put_variants check_items index
    make_string_slices write_slices sort_uuids sort_mapping put_tagged write_parts header_of
    rewrite_header new_slice put_packed put_header put_slice put_uuid put_item le_bytes write_all
    sort_by insert_sorted
output = dump_memdb lib (λ bs. bs) info false objects

abbrev pub bytes_of : Result Bytes → Bytes
bytes_of (ok file) = file
bytes_of (err e) = []
bytes_of panic = []
bytes_of undefined = []

output_ok : (output ≡ ok (bytes_of output)) × (length (bytes_of output) < 2 ^ 31)
unfolding output builder_written
output_ok = (refl, omega arith)

lib_texts : HasTexts lib
unfolding iter text_symbols text_symbol is_utf8
lib_texts = record { texts = λ s. (refl, (refl, tt)) }

entries : All IsEntry objects
unfolding is_utf8
entries = (
  (
    refl,
    (
      record {
        uuid_sized = λ u e. rw (← some-injective uuid u e) refl;
        name_utf8 = λ n e. absurd (cc e);
      },
      tt,
    ),
  ),
  tt,
)

small : IsSmall builder
small = record {
  symbols_small = omega arith;
  names_small = omega arith;
  variants_small = omega arith;
}

info-IsPackable : IsPackable info
unfolding is_utf8 trim_zeros
info-IsPackable = record {
  name_fits = record { room_left = omega arith; valid = refl; trimmed = refl };
  build_fits = λ b e.
      rw (← some-injective (codes "14C89") b e)
        (record { room_left = omega arith; valid = refl; trimmed = refl }, λ no. absurd (cc no));
  major_fits = omega arith;
  minor_fits = omega arith;
  patchlevel_fits = omega arith;
}

write_objects-IsWritten_example : IsWritten builder
write_objects-IsWritten_example =
    write_objects-IsWritten lib lib_texts info false objects builder entries builder_written small

dump_memdb_total_example : (file : Bytes) × (dump_memdb lib (λ bs. bs) info false objects ≡ ok file)
dump_memdb_total_example =
    dump_memdb_total lib lib_texts (λ bs. bs) info objects builder entries small info-IsPackable
      false builder_written

dumped : dump_memdb lib (λ bs. bs) info false objects ≡ ok (bytes_of output)
unfolding output
dumped = output_ok.0

lookup_by_uuid-dump_memdb_example :
    (load_memdb (bytes_of output) >>= λ db. lookup_by_uuid db uuid 40)
    ≡ ok (symbol_at builder uuid items 40)
lookup_by_uuid-dump_memdb_example =
    lookup_by_uuid-dump_memdb lib lib_texts (λ bs. bs) info objects builder entries small
      info-IsPackable (bytes_of output) 0 (record { uuid = uuid; idx = 0 }) items 40 builder_written
      dumped output_ok.1 refl refl

-- The answer at an address in the second symbol.
answer_inside :
    symbol_at builder uuid items 40
    ≡ some (record { object_uuid = uuid; object_name = codes "o"; symbol = codes "g"; addr = 32 })
unfolding symbol_at item_symbol last_le item_addr
answer_inside = refl

abbrev found : List (ℕ × Str)
found = (4128, codes "g") ∷ (4112, codes "f") ∷ (4160, codes "g") ∷ []

found_utf8 : All (λ s. is_utf8 s.1 ≡ true) found
unfolding is_utf8
found_utf8 = (refl, (refl, (refl, tt)))

found_room : length (add_symbols 4096 0 found (new_builder info false)).1.symbols ≤ no_symbol
unfolding builder_written
found_room = omega arith

-- What holds of the builder, for the theorems on a builder of its own.
builder-IsWritten : IsWritten builder
builder-IsWritten =
    write_objects-IsWritten lib lib_texts info false objects builder entries builder_written small

flushed : flush (λ bs. bs) builder ≡ ok (bytes_of output)
unfolding builder_written output
flushed = refl

flush_total_example : (file : Bytes) × (flush (λ bs. bs) builder ≡ ok file)
flush_total_example = flush_total (λ bs. bs) builder builder-IsWritten info-IsPackable

load_memdb-flush_example :
    load_memdb (bytes_of output) ≡ ok (record { info = info; backing = bytes_of output })
load_memdb-flush_example =
    load_memdb-flush (λ bs. bs) builder builder-IsWritten info-IsPackable (bytes_of output) refl
      flushed output_ok.1

lookup_by_uuid-flush_absent_example :
    (load_memdb (bytes_of output) >>= λ db. lookup_by_uuid db (replicate 16 9) 40) ≡ ok none
lookup_by_uuid-flush_absent_example =
    lookup_by_uuid-flush_absent (λ bs. bs) builder builder-IsWritten info-IsPackable
      (bytes_of output) refl flushed output_ok.1 (omega arith) (replicate 16 9) 40 refl

map-add_symbols_example :
    map
      (named (add_symbols 4096 0 found (new_builder info false)).1.symbols)
      (add_symbols 4096 0 found (new_builder info false)).0
    ≡ map (placed 4096) found
map-add_symbols_example =
    map-add_symbols 4096 0 found (new_builder info false) found_utf8
      (new_builder-IsWritten info false).symbols_interned found_room
