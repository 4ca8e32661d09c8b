-- ===== src/Memdb/Read.antt =====
-- src/memdb/read.rs: the reader of a memdb file. A file, mapped or in a buffer, is its bytes.
-- `usize` has 64 bits and integers are little-endian.
use symbolserver.Prelude.{ℕ, ◌+◌, ◌-◌, ◌*◌, ◌/◌, ◌%◌, ◌^◌, not}
use symbolserver.Prelude.{Option, none, some, List, [], ◌∷◌, map, length, drop}
use symbolserver.Prelude.{ltb, ◌==◌, ◌||◌, if◌then◌else◌}
use symbolserver.Prelude.Order.{◌=?◌, list_ord, nat_ord}
use symbolserver.Errors.{
  Str, Result, ok, err, panic, undefined, ◌>>=◌, unsupported_memdb_version, bad_memdb, foreign,
  utf8_error,
}
use symbolserver.Bytes.{Bytes, of_le, window, records}
use symbolserver.Text.{is_utf8}
use symbolserver.Sdk.{SdkInfo}
use symbolserver.Utils.BinSearch.{index, binsearch_by_key}
use symbolserver.Memdb.Types.{
  Uuid, PackedSdkInfo, MemDbHeader, StoredSlice, IndexedUuid, IndexItem, to_sdk_info, slice_len,
  is_compressed, item_addr, item_sym_id,
}

pub record MemDb : Type 0 where
  pub info : SdkInfo
  pub backing : Bytes

pub record Symbol : Type 0 where
  pub object_uuid : Uuid
  pub object_name : Str
  pub symbol : Str
  pub addr : ℕ

-- `&buffer[start..end]`
abbrev pub slice_of : Bytes → ℕ → ℕ → Result Bytes
slice_of buffer start end =
    if ltb end start || ltb (length buffer) end
    then panic
    else ok (window start (end - start) buffer)

-- `Backing::get_data`. `start.wrapping_add(len)` wraps at 64 bits.
unfoldable pub get_data : Bytes → ℕ → ℕ → Result Bytes
get_data buffer start len =
    let end = (start + len) % 2 ^ 64 in
    if ltb end start || ltb (length buffer) end then err bad_memdb else slice_of buffer start end

abbrev u32_at : ℕ → Bytes → ℕ
u32_at offset bs = of_le (window offset 4 bs)

abbrev u16_at : ℕ → Bytes → ℕ
u16_at offset bs = of_le (window offset 2 bs)

-- The C layouts of the records: what `transmute` makes of the bytes.
unfoldable pub read_packed : Bytes → PackedSdkInfo
read_packed bs = record {
  name = window 0 8 bs;
  version_major = u16_at 8 bs;
  version_minor = u16_at 10 bs;
  version_patchlevel = u16_at 12 bs;
  build = window 14 24 bs;
}

abbrev pub header_size : ℕ
header_size = 84

-- `sdk_info` takes bytes 4 to 41, and two bytes of padding align what follows.
unfoldable pub read_header : Bytes → MemDbHeader
read_header bs = record {
  version = u32_at 0 bs;
  sdk_info = read_packed (window 4 38 bs);
  variants_start = u32_at 44 bs;
  variants_count = u32_at 48 bs;
  uuids_start = u32_at 52 bs;
  uuids_count = u32_at 56 bs;
  tagged_object_names_start = u32_at 60 bs;
  tagged_object_names_end = u32_at 64 bs;
  object_names_start = u32_at 68 bs;
  object_names_count = u32_at 72 bs;
  symbols_start = u32_at 76 bs;
  symbols_count = u32_at 80 bs;
}

abbrev pub slice_size : ℕ
slice_size = 8

unfoldable pub read_slice : Bytes → StoredSlice
read_slice bs = record { offset = u32_at 0 bs; len = u32_at 4 bs }

abbrev pub uuid_size : ℕ
uuid_size = 18

unfoldable pub read_uuid : Bytes → IndexedUuid
read_uuid bs = record { uuid = window 0 16 bs; idx = u16_at 16 bs }

abbrev pub item_size : ℕ
item_size = 12

unfoldable pub read_item : Bytes → IndexItem
read_item bs = record {
  addr_low = u32_at 0 bs;
  addr_high = u16_at 4 bs;
  src_id = u16_at 6 bs;
  sym_id = u32_at 8 bs;
}

-- `slice::from_raw_parts` at the start of the checked bytes, for records of the given size. It is
-- undefined where the records take more bytes than were checked.
abbrev pub from_raw_parts : {T : Type 0} → (Bytes → T) → ℕ → Bytes → ℕ → Result (List T)
from_raw_parts read size bytes count =
    if ltb (length bytes) (count * size)
    then undefined
    else ok (map read (records count size bytes))

-- `mem::transmute` of a pointer to the start of the checked bytes, to a record of the given size.
abbrev pub transmute : {T : Type 0} → (Bytes → T) → ℕ → Bytes → Result T
transmute read size bytes = if ltb (length bytes) size then undefined else ok (read bytes)

-- `Backing::get_slice`, for records of the given size.
unfoldable pub get_slice : {T : Type 0} → (Bytes → T) → ℕ → Bytes → ℕ → ℕ → Result (List T)
get_slice read size buffer offset count = do
  bs ← get_data buffer offset (count * size % 2 ^ 64)
  from_raw_parts read size bs count

-- `Backing::header`.
unfoldable pub header : Bytes → Result MemDbHeader
header buffer = do bs ← get_data buffer 0 header_size; transmute read_header header_size bs

unfoldable pub load_memdb : Bytes → Result MemDb
load_memdb backing = do
  h ← header backing
  info ← if h.version == 2 then to_sdk_info h.sdk_info else err unsupported_memdb_version
  ok (record { info = info; backing = backing })

-- `CStr::from_ptr`: the bytes up to the first zero. Without one it reads past the file.
unfoldable pub until_nul : Bytes → Option Bytes
until_nul [] = none
until_nul (b ∷ bs) =
    let rest = until_nul bs in
    if b == 0 then some [] else (elim rest [ none ↦ none | some s ↦ some (b ∷ s) ])

unfoldable pub get_cstr : MemDb → ℕ → Result Str
get_cstr db offset = elim (until_nul (drop offset db.backing)) [
  | none ↦ undefined
  | some s ↦ if is_utf8 s then ok s else err (foreign utf8_error)
]

module _ (db : MemDb) where
  unfoldable pub uuids : Result (List IndexedUuid)
  uuids = do
    head ← header db.backing
    get_slice read_uuid uuid_size db.backing head.uuids_start head.uuids_count

  unfoldable pub variants : Result (List StoredSlice)
  variants = do
    head ← header db.backing
    get_slice read_slice slice_size db.backing head.variants_start head.variants_count

  unfoldable pub symbols : Result (List StoredSlice)
  symbols = do
    head ← header db.backing
    get_slice read_slice slice_size db.backing head.symbols_start head.symbols_count

  unfoldable pub object_names : Result (List StoredSlice)
  object_names = do
    head ← header db.backing
    get_slice read_slice slice_size db.backing head.object_names_start head.object_names_count

  -- The array of index items that a variant's slice covers.
  unfoldable pub read_index : StoredSlice → Result (List IndexItem)
  read_index s = do
    bs ← get_data db.backing s.offset (slice_len s)
    from_raw_parts read_item item_size bs (slice_len s / item_size)

  -- The body of `if let Some(iuuid)`: only an exact match counts.
  unfoldable pub index_of : Uuid → Option IndexedUuid → Result (Option (List IndexItem))
  index_of uuid none = ok none
  index_of uuid (some iuuid) = if not (iuuid.uuid =? uuid) then ok none else do
    table ← variants
    variant_slice ← index table iuuid.idx
    items ← read_index variant_slice
    ok (some items)

  unfoldable pub get_index : Uuid → Result (Option (List IndexItem))
  get_index uuid = do
    table ← uuids
    found ← binsearch_by_key (λ (i : IndexedUuid). i.uuid) table uuid
    index_of uuid found

  unfoldable pub get_string : StoredSlice → Result Str
  get_string s = do
    bs ← get_data db.backing s.offset (slice_len s)
    if is_compressed s then panic else (if is_utf8 bs then ok bs else err (foreign utf8_error))

  unfoldable pub get_object_name : ℕ → Result Str
  get_object_name src_id = do table ← object_names; s ← index table src_id; get_string s

  unfoldable pub get_symbol : Option ℕ → Result (Option Str)
  get_symbol none = ok none
  get_symbol (some sym_id) = do
    table ← symbols
    s ← index table sym_id
    name ← get_string s
    ok (some name)

  unfoldable pub index_item_to_symbol : IndexItem → Uuid → Result (Option Symbol)
  index_item_to_symbol ii uuid = do
    found ← get_symbol (item_sym_id ii)
    elim found [
      | none ↦ ok none
      | some symbol ↦ do
        object_name ← get_object_name ii.src_id
        ok (
            some (record {
              object_uuid = uuid;
              object_name = object_name;
              symbol = symbol;
              addr = item_addr ii;
            }))
    ]

  -- The items that `binsearch_by_key` picks, or nothing.
  abbrev pub item_or_none : Uuid → Option IndexItem → Result (Option Symbol)
  item_or_none uuid none = ok none
  item_or_none uuid (some item) = index_item_to_symbol item uuid

  -- The body of `if let Some(index)`.
  unfoldable pub lookup_in : Uuid → ℕ → Option (List IndexItem) → Result (Option Symbol)
  lookup_in uuid addr none = ok none
  lookup_in uuid addr (some items) = do
    item ← binsearch_by_key item_addr items addr
    item_or_none uuid item

  unfoldable pub lookup_impl : Uuid → ℕ → Result (Option Symbol)
  lookup_impl uuid addr = do found ← get_index uuid; lookup_in uuid addr found
