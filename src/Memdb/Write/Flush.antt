-- ===== src/Memdb/Write/Flush.antt =====
-- src/memdb/write.rs: `flush`, which writes the file, and `dump_memdb`. Everything is written at
-- the end of the file, but for the header, which is written last over the zeros that
-- `MemDbBuilder::new` starts the file with. The writes succeed.
use symbolserver.Prelude.{◌-◌, Bool, false, if◌then◌else◌}
use symbolserver.Prelude.{some, List, [], ◌∷◌, ◌++◌, length, drop, replicate}
use symbolserver.Prelude.Order.{nat_ord, list_ord}
use symbolserver.Prelude.Sort.{sort_by}
use symbolserver.Errors.{Str, Result, ok, ◌>>=◌, ◌>>◌}
use symbolserver.Bytes.{Bytes, write_all}
use symbolserver.Sdk.{SdkInfo}
use symbolserver.Utils.BinSearch.{index}
use symbolserver.Memdb.Types.{
  Uuid, PackedSdkInfo, MemDbHeader, StoredSlice, IndexedUuid, IndexItem, set_from_sdk_info,
  new_slice, as_u32,
}
use symbolserver.Memdb.Types.Laws.{default_packed}
use symbolserver.Memdb.Read.{header_size}
use symbolserver.Memdb.Write.Layout.{put_header, put_slice, put_uuid, put_item}
use symbolserver.Dsym.{MachObject, Object}
use symbolserver.Memdb.Write.{MemDbBuilder, new_builder, write_object}

-- The message of the progress bar indexes the mapping by the source id of each item.
unfoldable pub check_items : List (Str × Uuid) → List IndexItem → Result (Unit {0})
unfolding index
check_items mapping [] = ok tt
check_items mapping (i ∷ rest) = do _ ← index mapping i.src_id; check_items mapping rest

-- The loop over the variants: the file, and the slices of their items.
unfoldable pub put_variants :
    List (Str × Uuid) → Bytes → List (List IndexItem) → Result (Bytes × List StoredSlice)
put_variants mapping out [] = ok (out, [])
put_variants mapping out (v ∷ rest) =
    let out' = out ++ write_all put_item v in
    do
      check_items mapping v
      (final, slices) ← put_variants mapping out' rest
      ok (final, new_slice (length out) (length out' - length out) false ∷ slices)

-- `make_string_slices`
unfoldable pub make_string_slices : Bytes → List Str → Bytes × List StoredSlice
make_string_slices out [] = (out, [])
make_string_slices out (s ∷ rest) =
    let (final, slices) = make_string_slices (out ++ s) rest in
    (final, new_slice (length out) (length s) false ∷ slices)

-- `write_slices`
unfoldable pub write_slices : Bytes → List StoredSlice → Bytes
write_slices out slices = out ++ write_all put_slice slices

unfoldable pub sort_uuids : List IndexedUuid → List IndexedUuid
sort_uuids = sort_by (λ a b. list_ord.cmp a.uuid b.uuid)

unfoldable pub sort_mapping : List (Str × Uuid) → List (Str × Uuid)
sort_mapping = sort_by (λ a b. list_ord.cmp a.1 b.1)

-- A tagged name ends in a zero.
unfoldable pub put_tagged : Str × Uuid → Bytes
put_tagged (name, _) = name ++ 0 ∷ []

-- The file after each step, in the order of writing, and the slices that are written.
pub record Parts : Type 0 where
  pub variant_slices : List StoredSlice
  pub name_slices : List StoredSlice
  pub symbol_slices : List StoredSlice
  pub variants_end : Bytes
  pub variants_index : Bytes
  pub uuids_end : Bytes
  pub tagged_end : Bytes
  pub names_end : Bytes
  pub names_index : Bytes
  pub symbols_end : Bytes
  pub symbols_index : Bytes

-- The steps behind the items of the variants.
unfoldable pub write_parts : MemDbBuilder → Bytes → List StoredSlice → Parts
write_parts self out slices =
    let variants_index = write_slices out slices in
    let uuids_end = variants_index ++ write_all put_uuid (sort_uuids self.variant_uuids) in
    let tagged_end = uuids_end ++ write_all put_tagged (sort_mapping self.object_uuid_mapping) in
    let (names_end, name_slices) = make_string_slices tagged_end self.object_names in
    let names_index = write_slices names_end name_slices in
    let (symbols_end, symbol_slices) = make_string_slices names_index self.symbols in
    record {
      variant_slices = slices;
      name_slices = name_slices;
      symbol_slices = symbol_slices;
      variants_end = out;
      variants_index = variants_index;
      uuids_end = uuids_end;
      tagged_end = tagged_end;
      names_end = names_end;
      names_index = names_index;
      symbols_end = symbols_end;
      symbols_index = write_slices symbols_end symbol_slices;
    }

-- The header that `flush` fills in on its way.
unfoldable pub header_of : MemDbBuilder → PackedSdkInfo → Parts → MemDbHeader
header_of self packed p = record {
  version = 2;
  sdk_info = packed;
  variants_start = as_u32 (length p.variants_end);
  variants_count = as_u32 (length p.variant_slices);
  uuids_start = as_u32 (length p.variants_index);
  uuids_count = as_u32 (length self.variant_uuids);
  tagged_object_names_start = as_u32 (length p.uuids_end);
  tagged_object_names_end = as_u32 (length p.tagged_end);
  object_names_start = as_u32 (length p.names_end);
  object_names_count = as_u32 (length p.name_slices);
  symbols_start = as_u32 (length p.symbols_end);
  symbols_count = as_u32 (length p.symbol_slices);
}

-- `seek(0)` and `write(&header)`
unfoldable pub rewrite_header : MemDbHeader → Bytes → Bytes
rewrite_header h out = put_header h ++ drop header_size out

-- `flush`, on the file that `new` began; `xz` is the encoder, for a compressed file.
unfoldable pub flush : (Bytes → Bytes) → MemDbBuilder → Result Bytes
flush xz self = do
  packed ← set_from_sdk_info default_packed self.info
  (out, slices) ← put_variants self.object_uuid_mapping (replicate header_size 0) self.variants
  let p = write_parts self out slices
  let file = rewrite_header (header_of self packed p) p.symbols_index
  ok (if self.compress then xz file else file)

-- What the objects of an SDK come to, in order: an error, or a name and an object.
unfoldable pub write_objects :
    MachObject → List (Result (Str × Object)) → MemDbBuilder → Result MemDbBuilder
write_objects lib [] self = ok self
write_objects lib (res ∷ rest) self = do
  (filename, obj) ← res
  self' ← write_object lib obj (some filename) self
  write_objects lib rest self'

unfoldable pub dump_memdb :
    MachObject → (Bytes → Bytes) → SdkInfo → Bool → List (Result (Str × Object)) → Result Bytes
dump_memdb lib xz info compress objects = do
  builder ← write_objects lib objects (new_builder info compress)
  flush xz builder
